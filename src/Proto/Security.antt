-- ===== src/Proto/Security.antt =====
-- crates/breeze-proto/src/security.rs: AES-256-CBC with a zero IV and AES-128-ECB with PKCS#7
-- padding, written out over the block cipher of the crate `aes`, which is the parameter `Aes`; MD5
-- (the crate `md-5`) is the parameter `md5`.
pub mod Cbc
pub mod Ecb
use Prim.Native.Nat.{bit_xor}
use breeze_core_native.Common.Texts.{codes}
use breeze_core_native.Common.{
  ℕ, zero, suc, ◌+◌, ◌*◌, ◌/◌, ◌%◌, ◌<◌, ◌≡◌, refl, ap, ◌∙◌, Bool, true, not, ◌&&◌, ◌||◌, ◌-◌,
  get_or, List, [], ◌∷◌, ◌++◌, ltb, ◌==◌, ==_iff, if◌then◌else◌, length, take, drop, replicate,
  Outcome, ok, err, arith, length-append, length-replicate, length-take, length-drop, take-append,
  drop-append, take-append-drop,
}
use breeze_core_native.Common.Bytes.{all_below, all_below_sound, IsByte, AreBytes}

pub data CryptoError : Type 0 where
  misaligned bad_padding : ℕ → CryptoError

-- The block cipher, with the key first.
pub record Aes : Type 0 where
  pub encrypt_block : List ℕ → List ℕ → List ℕ
  pub decrypt_block : List ℕ → List ℕ → List ℕ

unfoldable pub xor_bytes : List ℕ → List ℕ → List ℕ
xor_bytes (a ∷ as') (b ∷ bs) = bit_xor a b ∷ xor_bytes as' bs
xor_bytes _ _ = []

-- `chunks(16)` of that many blocks.
unfoldable pub chunks : ℕ → List ℕ → List (List ℕ)
chunks zero xs = []
chunks (suc n) xs = take 16 xs ∷ chunks n (drop 16 xs)

abbrev pub zero_block : List ℕ
zero_block = replicate 16 0

module _ (aes : Aes) (key : List ℕ) where
  unfoldable pub encrypt_chunks : List ℕ → List (List ℕ) → List ℕ
  encrypt_chunks prev [] = []
  encrypt_chunks prev (chunk ∷ rest) =
      let b = aes.encrypt_block key (xor_bytes chunk prev) in b ++ encrypt_chunks b rest

  unfoldable pub decrypt_chunks : List ℕ → List (List ℕ) → List ℕ
  decrypt_chunks prev [] = []
  decrypt_chunks prev (chunk ∷ rest) =
      xor_bytes (aes.decrypt_block key chunk) prev ++ decrypt_chunks chunk rest

  unfoldable pub encrypt_aes_cbc : List ℕ → Outcome CryptoError (List ℕ)
  encrypt_aes_cbc data' =
      if not (length data' % 16 == 0)
      then err (misaligned (length data'))
      else ok (encrypt_chunks zero_block (chunks (length data' / 16) data'))

  unfoldable pub decrypt_aes_cbc : List ℕ → Outcome CryptoError (List ℕ)
  decrypt_aes_cbc data' =
      if not (length data' % 16 == 0)
      then err (misaligned (length data'))
      else ok (decrypt_chunks zero_block (chunks (length data' / 16) data'))

  unfoldable pub encrypt_each : List (List ℕ) → List ℕ
  encrypt_each [] = []
  encrypt_each (chunk ∷ rest) = aes.encrypt_block key chunk ++ encrypt_each rest

  unfoldable pub decrypt_each : List (List ℕ) → List ℕ
  decrypt_each [] = []
  decrypt_each (chunk ∷ rest) = aes.decrypt_block key chunk ++ decrypt_each rest

unfoldable pub sign_key : List ℕ
sign_key = codes "xhdiwjnchekd4d512chdjx5d8e4c394D2D7S"

unfoldable pub enc_key : (List ℕ → List ℕ) → List ℕ
enc_key md5 = md5 sign_key

unfoldable pub sign : (List ℕ → List ℕ) → List ℕ → List ℕ
sign md5 data' = md5 (data' ++ sign_key)

abbrev pub pkcs7 : List ℕ → List ℕ
pkcs7 data' = let pad = 16 - length data' % 16 in data' ++ replicate pad pad

-- The last byte says how many bytes of padding to drop.
abbrev pub unpadded : List ℕ → Outcome CryptoError (List ℕ)
unpadded out =
    let pad = get_or out (length out - 1) 0 in
    if pad == 0 || (ltb 16 pad || ltb (length out) pad)
    then err (bad_padding pad)
    else ok (take (length out - pad) out)

module _ (aes : Aes) (md5 : List ℕ → List ℕ) where
  unfoldable pub encrypt_aes : List ℕ → List ℕ
  encrypt_aes data' =
      let buf = pkcs7 data' in encrypt_each aes (enc_key md5) (chunks (length buf / 16) buf)

  unfoldable pub decrypt_aes : List ℕ → Outcome CryptoError (List ℕ)
  decrypt_aes data' =
      if length data' == 0 || not (length data' % 16 == 0)
      then err (misaligned (length data'))
      else unpadded (decrypt_each aes (enc_key md5) (chunks (length data' / 16) data'))
