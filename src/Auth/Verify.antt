-- ===== src/Auth/Verify.antt =====
-- crates/breeze-auth/src/verify.rs: deciding whether a request may proceed. A decision of the v2
-- scheme comes with the nonce cache as it was left.
pub mod Passed
pub mod Replay
pub mod Bearer
pub mod Vouched
use Prim.Native.Nat.{ℕ}
use breeze_core_native.Common.{
  ◌+◌, ◌/◌, ◌*◌, Bool, true, false, not, ◌&&◌, ◌||◌, Option, none, some, String, List, [], ◌∷◌, ltb,
  ◌==◌, if◌then◌else◌, find,
}
use breeze_core_native.Common.Texts.{str_eq, codes, is_empty}
use breeze_core_native.Store.Devices.{DeviceRecord, DevicesDoc}
use breeze_core_native.Auth.Clock.{F64}
use breeze_core_native.Auth.Nonce.{NonceCache, timestamp_in_window, check_and_store}
use breeze_core_native.Auth.Signing.{Crypto, hex, build_canonical, verify_signature}
use breeze_core_native.Auth.Reject.{
  Rejection, SkewInfo, unauthorized, with_skew, no_credential, unknown_key, bad_signature,
  bad_api_key, clock_skew, replay, incomplete_signature,
}

pub record Presented : Type 0 where
  pub api_key : Option String
  pub bearer : Option String
  pub auth_version : Option String
  pub key_id : Option String
  pub timestamp : Option String
  pub nonce : Option String
  pub signature : Option String
  pub method : String
  pub path : String
  pub body : List ℕ

pub record Authenticated : Type 0 where
  pub token_id : String
  pub auth_version : ℕ

pub data Decision : Type 0 where
  allow : Authenticated → Decision
  reject : Rejection → Decision
  -- 426: the credential is valid but its scheme is below the configured floor
  upgrade_required : ℕ → Decision

pub record Verifier : Type 0 where
  pub min_auth_version : ℕ

abbrev pub unwrap_or {ℓ} : {A : Type ℓ} → A → Option A → A
unwrap_or d none = d
unwrap_or d (some a) = a

-- The comparison is in constant time in the program, which has no bearing on its answer.
unfoldable pub verify_api_key : Option String → Option String → Option Rejection
verify_api_key presented expected =
    let given = unwrap_or "" presented in
    let wanted = unwrap_or "" expected in
    if str_eq given wanted && not (is_empty wanted)
    then none
    else some (
        unauthorized (if is_empty given then no_credential else bad_api_key)
          "missing or invalid X-API-Key header")

abbrev pub is_expired : DeviceRecord → ℕ → Bool
is_expired r now = elim r.expires_at [ none ↦ false | some e ↦ ltb e now ]

abbrev pub unless_expired : ℕ → Option DeviceRecord → Option DeviceRecord
unless_expired now none = none
unless_expired now (some r) = if is_expired r now then none else some r

unfoldable pub find_by_key_id : DevicesDoc → String → ℕ → Option DeviceRecord
find_by_key_id doc key_id now =
    unless_expired now (find (λ r. str_eq r.token_id key_id && r.auth_version == 2) doc.devices)

abbrev authenticated : DeviceRecord → Authenticated
authenticated r = record { token_id = r.token_id; auth_version = r.auth_version }

pub record SignedHeaders : Type 0 where
  pub key_id : String
  pub timestamp : String
  pub nonce : String
  pub signature : String

abbrev pub all_four :
    Option String → Option String → Option String → Option String → Option SignedHeaders
all_four (some k) (some t) (some n) (some s) =
    if is_empty k || (is_empty t || (is_empty n || is_empty s))
    then none
    else some (record { key_id = k; timestamp = t; nonce = n; signature = s })
all_four _ _ _ _ = none

-- The four signature headers, if all are there and none is empty.
unfoldable pub signed_headers : Presented → Option SignedHeaders
signed_headers p = all_four p.key_id p.timestamp p.nonce p.signature

-- `(now * 1000.0).round() / 1000.0`, on microseconds.
abbrev round_to_millis : ℕ → ℕ
round_to_millis now = (now + 500) / 1000 * 1000

abbrev incomplete : Decision
incomplete = reject (unauthorized incomplete_signature "incomplete signature headers")

abbrev pub hash_matches : String → DeviceRecord → Bool
hash_matches candidate r = elim r.token_hash [
  | none ↦ false
  | some stored ↦ str_eq stored candidate
]

-- The last record that matches: the loop has no early exit.
unfoldable pub last_match : String → List DeviceRecord → Option DeviceRecord → Option DeviceRecord
last_match candidate [] found = found
last_match candidate (r ∷ rest) found =
    last_match candidate rest (if hash_matches candidate r then some r else found)

abbrev pub announces_v2 : Option String → Bool
announces_v2 none = false
announces_v2 (some version) = str_eq version "2"

-- The hexadecimal SHA-256 of a secret, which is a list of code points.
unfoldable pub hash_secret : Crypto → List ℕ → String
hash_secret crypto secret = hex (crypto.sha256 secret)

unfoldable pub find_by_secret : Crypto → DevicesDoc → String → ℕ → Option DeviceRecord
find_by_secret crypto doc secret now =
    unless_expired now (last_match (hash_secret crypto (codes secret)) doc.devices none)

module _ (crypto : Crypto) (parse_f64 : String → Option F64) (verifier : Verifier) where
  abbrev below_floor : DeviceRecord → Bool
  below_floor r = ltb r.auth_version verifier.min_auth_version

  abbrev decide_v1 : String → Option DeviceRecord → Decision
  decide_v1 token none = reject (
      unauthorized (if is_empty token then no_credential else unknown_key)
        "missing, invalid, or expired device token — enroll this device to get one")
  decide_v1 token (some r) =
      if below_floor r then upgrade_required verifier.min_auth_version else allow (authenticated r)

  unfoldable pub verify_v1 : DevicesDoc → Presented → ℕ → Decision
  verify_v1 doc p now =
      let token = unwrap_or "" p.bearer in
      decide_v1 token (if is_empty token then none else find_by_secret crypto doc token now)

  -- The nonce is spent last, after the signature has been checked.
  spend_nonce : NonceCache → DeviceRecord → String → ℕ → NonceCache × Decision
  spend_nonce nonces r nonce now =
      let (nonces', fresh) = check_and_store nonces nonce now in
      if fresh then (nonces', allow (authenticated r)) else (
        nonces',
        reject (
            unauthorized replay "replayed request (nonce already used) — retry with a fresh nonce"),
      )

  check_request :
      Presented → SignedHeaders → NonceCache → ℕ → Option DeviceRecord → NonceCache × Decision
  unfolding spend_nonce
  check_request p h nonces now none =
      (nonces, reject (unauthorized unknown_key "unknown, expired, or non-v2 device key"))
  check_request p h nonces now (some r) =
      if below_floor r
      then (nonces, upgrade_required verifier.min_auth_version)
      else if not (timestamp_in_window parse_f64 nonces h.timestamp now)
      then (
        nonces,
        reject (
            with_skew
              (unauthorized clock_skew
                "request timestamp outside the allowed window — check the device clock")
              (record {
                server_time = round_to_millis now;
                client_time = h.timestamp;
                max_skew_seconds = nonces.skew_seconds;
              })),
      )
      else if not (
          verify_signature crypto (unwrap_or "" r.public_key)
            (build_canonical crypto p.method p.path h.timestamp h.nonce p.body) h.signature)
      then (nonces, reject (unauthorized bad_signature "bad request signature"))
      else spend_nonce nonces r h.nonce now

  unfoldable pub verify_v2 : DevicesDoc → Presented → NonceCache → ℕ → NonceCache × Decision
  unfolding check_request
  verify_v2 doc p nonces now = elim (signed_headers p) [
    | none ↦ (nonces, incomplete)
    | some h ↦ check_request p h nonces now (find_by_key_id doc h.key_id now)
  ]

  unfoldable pub verify_device : DevicesDoc → Presented → NonceCache → ℕ → NonceCache × Decision
  verify_device doc p nonces now =
      if announces_v2 p.auth_version
      then verify_v2 doc p nonces now
      else (nonces, verify_v1 doc p now)
