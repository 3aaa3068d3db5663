-- ===== src/Auth/Tests.antt =====
-- The server's authentication on concrete requests, with stand-ins for the cryptographic crates.
pub mod Pairing
use mathlib.Core.Path.{subst}
use mathlib.Core.List.{map}
use breeze_core_native.Common.{
  ℕ, ◌+◌, ◌≤◌, ◌≡◌, ◌≢◌, ◌↔◌, ◌⊎◌, inl, inr, refl, sym, Bool, true, false, Option, some, none, List,
  [], ◌∷◌, ◌++◌, String, arith, All, replicate, length, find, ltb,
}
use breeze_core_native.Common.Int.{pos}
use breeze_core_native.Common.Bytes.{bytes_eq}
use breeze_core_native.Common.Texts.{
  codes, lookup, insert, contains_key, retain_values, IsUnique, remove,
}
use breeze_core_native.Store.Devices.{DeviceRecord, DevicesDoc}
use breeze_core_native.Auth.Clock.{F64, finite, micros}
use breeze_core_native.Auth.Nonce.{
  NonceCache, new as new_cache, timestamp_in_window, sweep, check_and_store,
}
use breeze_core_native.Auth.Nonce.Window.{IsValid, run as run_nonces, check_and_store-single_use}
use breeze_core_native.Auth.Signing.{
  Crypto, hex, b64_decode, trim_end, sha3_512_hex, build_canonical, parse_public_key,
  verify_signature,
}
use breeze_core_native.Auth.Signing.Canonical.{build_canonical-injective}
use breeze_core_native.Auth.Verify.{
  Presented, Authenticated, Decision, allow, Verifier, SignedHeaders, signed_headers,
  find_by_key_id, find_by_secret, last_match, hash_secret, hash_matches, is_expired, unwrap_or,
  announces_v2, verify_v1, verify_v2, verify_device,
}
use breeze_core_native.Auth.Verify.Passed.{verify_device-forged}
use breeze_core_native.Auth.Verify.Vouched.{Vouched, verify_v2-Vouched}
use breeze_core_native.Auth.Verify.Replay.{Request, serve, replay_refused, replay_allowed}
use breeze_core_native.Auth.Verify.Bearer.{HoldsNoToken, verify_v1-allow, verify_device-scheme}

abbrev pub crypto : Crypto
crypto = record {
  VerifyingKey = List ℕ;
  sha256 = λ data'. data';
  sha3_512 = λ data'. data';
  base64_decode = some;
  from_bytes = some;
  verify_strict = λ key message signature. true;
  to_uppercase = λ text. text;
}

-- Every timestamp is read as 1000 seconds.
abbrev parse_f64 : String → Option F64
parse_f64 text = some (finite (pos 1_000_000_000))

abbrev verifier : Verifier
verifier = record { min_auth_version = 1 }

abbrev phone : DeviceRecord
phone = record {
  token_id = "phone";
  label = "phone";
  auth_version = 2;
  token_hash = none;
  public_key = some "abcdefghijklmnopqrstuvwxyz012345";
  created_at = 0;
  expires_at = none;
  last_used = none;
}

-- Its token is "a", of which the stand-in hash is "61".
abbrev script : DeviceRecord
script = record phone {
  token_id = "script";
  auth_version = 1;
  token_hash = some "61";
  public_key = none;
}

abbrev doc : DevicesDoc
doc = record { devices = phone ∷ script ∷ [] }

abbrev headers : SignedHeaders
headers = record {
  key_id = "phone";
  timestamp = "1000.0";
  nonce = "n1";
  signature = "abcdefghijklmnopqrstuvwxyz012345abcdefghijklmnopqrstuvwxyz012345";
}

abbrev request : Presented
request = record {
  api_key = none;
  bearer = none;
  auth_version = some "2";
  key_id = some "phone";
  timestamp = some "1000.0";
  nonce = some "n1";
  signature = some "abcdefghijklmnopqrstuvwxyz012345abcdefghijklmnopqrstuvwxyz012345";
  method = "GET";
  path = "/api/units";
  body = [];
}

abbrev with_token : Presented
with_token = record request { bearer = some "a"; auth_version = none; key_id = none }

abbrev cache : NonceCache
cache = new_cache 60

cache-IsValid : IsValid cache
cache-IsValid = record { unique = tt }

abbrev spent : ℕ → NonceCache
spent now = record cache { seen = ("n1", now + 60_000_000) ∷ [] }

abbrev is_phone : Authenticated
is_phone = record { token_id = "phone"; auth_version = 2 }

abbrev is_script : Authenticated
is_script = record { token_id = "script"; auth_version = 1 }

signed_test : signed_headers request ≡ some headers
unfolding signed_headers
signed_test = refl

allowed_test :
    verify_v2 crypto parse_f64 verifier doc request cache 1_000_000_000
    ≡ (spent 1_000_000_000, allow is_phone)
unfolding verify_v2 signed_headers find_by_key_id timestamp_in_window check_and_store sweep
    retain_values contains_key insert remove verify_signature parse_public_key b64_decode trim_end
allowed_test = refl

-- The same request to a server whose clock is behind by 50 seconds.
allowed_early_test :
    verify_v2 crypto parse_f64 verifier doc request cache 950_000_000
    ≡ (spent 950_000_000, allow is_phone)
unfolding verify_v2 signed_headers find_by_key_id timestamp_in_window check_and_store sweep
    retain_values contains_key insert remove verify_signature parse_public_key b64_decode trim_end
allowed_early_test = refl

bearer_test : verify_v1 crypto parse_f64 verifier doc with_token 5 ≡ allow is_script
unfolding verify_v1 find_by_secret last_match hash_secret hex
bearer_test = refl

replay_refused_example :
    verify_v2 crypto parse_f64 verifier doc request
      (serve crypto parse_f64 verifier
        (spent 1_000_000_000)
        (record { doc = doc; presented = with_token; now = 1_005_000_000 } ∷ []))
      1_010_000_000
    ≢ (cache, allow is_phone)
replay_refused_example =
    replay_refused crypto parse_f64 verifier doc doc request headers cache (spent 1_000_000_000)
      cache 1_000_000_000 1_010_000_000 1_000_000_000 is_phone is_phone
      (record { doc = doc; presented = with_token; now = 1_005_000_000 } ∷ []) cache-IsValid
      signed_test refl (omega arith) allowed_test (omega arith)

replay_allowed_example :
    (verify_v2 crypto parse_f64 verifier doc request (spent 950_000_000) 1_020_000_000).1
    ≡ allow is_phone
unfolding find_by_key_id
replay_allowed_example =
    replay_allowed crypto parse_f64 verifier doc request headers cache (spent 950_000_000)
      950_000_000 1_020_000_000 1_000_000_000 is_phone cache-IsValid signed_test refl (omega arith)
      (omega arith) refl allowed_early_test

verify_v2-Vouched_example :
    (h : SignedHeaders) × (r : DeviceRecord) × Vouched crypto parse_f64 1 doc request cache
      (spent 1_000_000_000)
      1_000_000_000
      h
      r
    × (◌≡◌ {A = String} "phone" r.token_id)
    × (◌≡◌ {A = ℕ} 2 2)
verify_v2-Vouched_example =
    verify_v2-Vouched crypto parse_f64 verifier doc request cache (spent 1_000_000_000)
      1_000_000_000 is_phone cache-IsValid allowed_test

-- Stand-in signatures that verify for one canonical string alone: that of `request`.
abbrev canonical : List ℕ
canonical = build_canonical crypto "GET" "/api/units" "1000.0" "n1" []

abbrev careful : Crypto
careful = record crypto { verify_strict = λ key message signature. bytes_eq message canonical }

-- The headers of `request` on another path.
abbrev forged : Presented
forged = record request { path = "/api/units/1" }

careful_test :
    verify_v2 careful parse_f64 verifier doc request cache 1_000_000_000
    ≡ (spent 1_000_000_000, allow is_phone)
unfolding verify_v2 signed_headers find_by_key_id timestamp_in_window check_and_store sweep
    retain_values contains_key insert remove verify_signature parse_public_key b64_decode trim_end
    build_canonical sha3_512_hex hex bytes_eq
careful_test = refl

abbrev verdict : SignedHeaders → DeviceRecord → Bool
verdict h r =
    verify_signature careful (unwrap_or "" r.public_key)
      (build_canonical careful forged.method forged.path h.timestamp h.nonce forged.body)
      h.signature

other_path_test : verdict headers phone ≡ false
unfolding verify_signature parse_public_key b64_decode trim_end build_canonical sha3_512_hex hex
    bytes_eq
other_path_test = refl

not_forged :
    (h : SignedHeaders) (r : DeviceRecord)
    → signed_headers forged ≡ some h
    → find_by_key_id doc h.key_id 1_000_000_000 ≡ some r
    → verdict h r ≡ false
unfolding signed_headers find_by_key_id
not_forged h r eh er =
    let same : headers ≡ h = cc in
    let known : find_by_key_id doc headers.key_id 1_000_000_000 ≡ some r =
      subst (λ k. find_by_key_id doc k.key_id 1_000_000_000 ≡ some r) (sym same) er in
    let record_of : phone ≡ r = cc in
    subst (λ k. verdict k r ≡ false) same
      (subst (λ k. verdict headers k ≡ false) record_of other_path_test)

verify_device-forged_example :
    (verify_device careful parse_f64 verifier doc forged cache 1_000_000_000).0 ≡ cache
verify_device-forged_example =
    verify_device-forged careful parse_f64 verifier doc forged cache 1_000_000_000 not_forged

check_and_store-single_use_example :
    (check_and_store (run_nonces (check_and_store cache "n1" 7).0 (("n2", 8) ∷ [])) "n1" 9).1
    ≡ false
unfolding check_and_store sweep retain_values contains_key
check_and_store-single_use_example =
    check_and_store-single_use cache "n1" 7 9 (("n2", 8) ∷ []) cache-IsValid refl (omega arith)
      (omega arith)

verify_device_test :
    verify_device crypto parse_f64 verifier doc with_token cache 5 ≡ (cache, allow is_script)
unfolding verify_device verify_v1 find_by_secret last_match hash_secret hex
verify_device_test = refl

verify_device-scheme_example :
    (announces_v2 with_token.auth_version ≡ true) ↔ (is_script.auth_version ≡ 2)
verify_device-scheme_example =
    verify_device-scheme crypto parse_f64 verifier doc with_token cache cache 5 is_script
      ((λ _. refl), ((λ e. absurd (omega arith)), tt)) verify_device_test

-- The canonical strings of one request that is written in two ways.
build_canonical-injective_example :
    (codes "GET" ≡ codes "GET")
    × (codes "/a" ≡ codes "/a")
    × (codes "1" ≡ codes "1")
    × (codes "n" ≡ codes "n")
    × (codes (sha3_512_hex crypto (1 ∷ [])) ≡ codes (sha3_512_hex crypto (1 ∷ [])))
build_canonical-injective_example =
    build_canonical-injective crypto "GET" "/a" "1" "n" "GET" "/a" "1" "n" (1 ∷ []) (1 ∷ [])
      (omega arith) (omega arith) (omega arith) (omega arith) (omega arith) (omega arith)
      (omega arith) (omega arith) refl
