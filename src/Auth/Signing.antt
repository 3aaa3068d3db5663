-- ===== src/Auth/Signing.antt =====
-- crates/breeze-auth/src/signing.rs: the canonical string that is signed, and what is checked of a
-- key and a signature around the cryptographic crates, which are the parameter `Crypto`. A text is
-- the list of its code points; a digest and a decoded text are lists of bytes.
pub mod Canonical
use breeze_core_native.Common.{
  ℕ, ◌/◌, ◌%◌, Bool, true, false, ◌&&◌, Option, none, some, String, List, [], ◌∷◌, ◌++◌, map, ◌==◌,
  if◌then◌else◌, length, get_or,
}
use Prim.Native.String.{◌++◌ as join}
use breeze_core_native.Common.Texts.{codes}

-- sha2, sha3, base64 and ed25519-dalek, and the standard library's `to_uppercase`.
pub record Crypto : Type 1 where
  pub VerifyingKey : Type 0
  pub sha256 : List ℕ → List ℕ
  pub sha3_512 : List ℕ → List ℕ
  -- `STANDARD_NO_PAD.decode`
  pub base64_decode : List ℕ → Option (List ℕ)
  -- `VerifyingKey::from_bytes`
  pub from_bytes : List ℕ → Option VerifyingKey
  pub verify_strict : VerifyingKey → List ℕ → List ℕ → Bool
  pub to_uppercase : List ℕ → List ℕ

abbrev pub public_key_len : ℕ
public_key_len = 32

abbrev hex_digits : List String
hex_digits =
    "0" ∷ "1" ∷ "2" ∷ "3" ∷ "4" ∷ "5" ∷ "6" ∷ "7" ∷ "8" ∷ "9" ∷ "a" ∷ "b" ∷ "c" ∷ "d" ∷ "e" ∷ "f"
    ∷ []

-- `write!(out, "{b:02x}")` for each byte.
unfoldable pub hex : List ℕ → String
hex [] = ""
hex (b ∷ bs) = join (get_or hex_digits (b / 16) "") (join (get_or hex_digits (b % 16) "") (hex bs))

-- `trim_end_matches('=')`: what ends the text is dropped while it is `=`.
abbrev keep_unless_trailing : ℕ → List ℕ → List ℕ
keep_unless_trailing c [] = if c == b'=' then [] else c ∷ []
keep_unless_trailing c (d ∷ rest) = c ∷ d ∷ rest

unfoldable pub trim_end : List ℕ → List ℕ
trim_end [] = []
trim_end (c ∷ rest) = keep_unless_trailing c (trim_end rest)

abbrev to_standard : ℕ → ℕ
to_standard c = if c == b'-' then b'+' else if c == b'_' then b'/' else c

module _ (crypto : Crypto) where
  open crypto use {
    VerifyingKey, sha256, sha3_512, base64_decode, from_bytes, verify_strict, to_uppercase,
  }

  unfoldable pub b64_decode : List ℕ → Option (List ℕ)
  unfolding trim_end
  b64_decode value = base64_decode (map to_standard (trim_end value))

  unfoldable pub sha3_512_hex : List ℕ → String
  sha3_512_hex data' = hex (sha3_512 data')

  unfoldable pub build_canonical : String → String → String → String → List ℕ → List ℕ
  build_canonical method path timestamp nonce body =
      codes "breeze-auth-v2"
      ++ (10
          ∷ (to_uppercase (codes method)
              ++ (10
                  ∷ (codes path
                      ++ (10
                          ∷ (codes timestamp
                              ++ (10 ∷ (codes nonce ++ (10 ∷ codes (sha3_512_hex body))))))))))

  abbrev key_of_length : List ℕ → Option VerifyingKey
  key_of_length raw = if length raw == public_key_len then from_bytes raw else none

  unfoldable pub parse_public_key : String → Option VerifyingKey
  unfolding b64_decode
  parse_public_key public_key = elim (b64_decode (codes public_key)) [
    | none ↦ none
    | some raw ↦ key_of_length raw
  ]

  unfoldable pub public_key_is_valid : String → Bool
  unfolding parse_public_key
  public_key_is_valid public_key = elim (parse_public_key public_key) [
    | none ↦ false
    | some key ↦ true
  ]

  abbrev check_signature : VerifyingKey → List ℕ → Option (List ℕ) → Bool
  check_signature key canonical none = false
  check_signature key canonical (some signature) =
      if length signature == 64 then verify_strict key canonical signature else false

  unfoldable pub verify_signature : String → List ℕ → String → Bool
  unfolding parse_public_key
  verify_signature public_key canonical signature = elim (parse_public_key public_key) [
    | none ↦ false
    | some key ↦ check_signature key canonical (b64_decode (codes signature))
  ]
