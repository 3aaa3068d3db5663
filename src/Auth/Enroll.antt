-- ===== src/Auth/Enroll.antt =====
-- crates/breeze-auth/src/enroll.rs: the pairing handshake. What the system's random generator
-- answers to each call is an argument, `none` for its failure; the base64url encoder is a parameter,
-- and so are the cryptographic crates (Auth/Signing.antt). The order of a session list stands for
-- the order in which the program's hash map is walked.
pub mod Sessions
pub mod Matching
pub mod Approve
pub mod Deliver
use Prim.Native.String.{◌++◌ as join}
use mathlib.Core.List.{flat_map, foldl}
use breeze_core_native.Common.{
  ℕ, ◌+◌, ◌-◌, ◌*◌, ◌/◌, ◌%◌, ◌^◌, Bool, true, false, not, ◌&&◌, ◌||◌, Option, none, some, String,
  List, [], ◌∷◌, ltb, leb, ◌==◌, if◌then◌else◌, length, get_or, retain, map, Outcome, ok, err,
  ◌>>=◌, panic,
}
use breeze_core_native.Common.Texts.{
  Dict, is_whitespace, str_eq, codes, is_empty, lookup, insert, remove, retain_values,
}
use breeze_core_native.Common.Int.{ℤ, pos, negsuc}
use breeze_core_native.Store.Devices.{DeviceRecord}
use breeze_core_native.Auth.Clock.{micros}
use breeze_core_native.Auth.Signing.{Crypto, hex, public_key_is_valid}
use breeze_core_native.Auth.Verify.{hash_secret}

abbrev pub code_ttl_seconds : ℕ
code_ttl_seconds = 60

abbrev pub token_ttl_days : ℤ
token_ttl_days = pos 3650

pub record Session : Type 0 where
  pub code_hash : String
  pub label : String
  pub expires_at : ℕ
  pub auth_version : ℕ
  pub public_key : Option String
  pub approved : Bool
  -- the one-time bearer, v1 only
  pub token : Option String
  pub minted : Option DeviceRecord

-- The strings "pending", "approved", "expired" and "unknown".
pub data Status : Type 0 where
  pending approved expired unknown : Status

pub record PollOutcome : Type 0 where
  pub status : Status
  pub device_token : Option String
  pub minted : Option DeviceRecord

pub data EnrollError : Type 0 where
  bad_public_key no_entropy : EnrollError

-- A call of `getrandom`: the bytes it gave, or `none`.
abbrev pub Random : Type 0
Random = Option (List ℕ)

abbrev pub random_bytes : Random → Outcome EnrollError (List ℕ)
random_bytes none = err no_entropy
random_bytes (some bytes) = ok bytes

abbrev alphabet : List String
alphabet =
    "A" ∷ "B" ∷ "C" ∷ "D" ∷ "E" ∷ "F" ∷ "G" ∷ "H" ∷ "I" ∷ "J" ∷ "K" ∷ "L" ∷ "M" ∷ "N" ∷ "O" ∷ "P"
    ∷ "Q" ∷ "R" ∷ "S" ∷ "T" ∷ "U" ∷ "V" ∷ "W" ∷ "X" ∷ "Y" ∷ "Z" ∷ "2" ∷ "3" ∷ "4" ∷ "5" ∷ "6" ∷ "7"
    ∷ []

-- Five bits of the number, from the given bit on, as a letter.
abbrev letter : ℕ → ℕ → String
letter n shift = get_or alphabet (n / 2 ^ shift % 32) ""

unfoldable pub pairing_code : List ℕ → String
pairing_code raw =
    let n = foldl (λ acc b. (acc * 256 + b) % 2 ^ 64) 0 raw in
    join (letter n 35) (
      join (letter n 30) (
        join (letter n 25) (
          join (letter n 20)
            (join "-" (join (letter n 15) (join (letter n 10) (join (letter n 5) (letter n 0))))))))

abbrev pub new_pairing_code : Random → Outcome EnrollError String
new_pairing_code random = do raw ← random_bytes random; ok (pairing_code raw)

pub record EnrollmentService : Type 0 where
  pub sessions : Dict Session
  pub code_ttl : ℕ
  pub ttl_days : ℤ

abbrev pub new : ℕ → ℤ → EnrollmentService
new code_ttl ttl_days = record { sessions = []; code_ttl = code_ttl; ttl_days = ttl_days }

unfoldable pub sweep : EnrollmentService → ℕ → EnrollmentService
sweep service now = record service {
  sessions = retain_values (λ s. leb now s.expires_at) service.sessions;
}

-- What a new session holds of the label that the client sent, trimmed.
abbrev label_or_default : String → String
label_or_default label = if is_empty label then "unnamed device" else label

-- The expiry of a credential minted at `now`.
abbrev pub credential_expiry : ℤ → ℕ → Option ℕ
credential_expiry (pos days) now = if days == 0 then none else some (now + micros (days * 86400))
credential_expiry (negsuc n) now = none

-- The id of the last unapproved session that has this code.
unfoldable pub matching : String → Dict Session → Option String → Option String
matching target [] matched = matched
matching target ((id, session) ∷ rest) matched =
    matching target rest
      (if not session.approved && str_eq session.code_hash target then some id else matched)

abbrev pub minted_record :
    Session → String → Option String → Option String → Option ℕ → ℕ → DeviceRecord
minted_record session token_id token_hash public_key expires_at now = record {
  token_id = token_id;
  label = session.label;
  auth_version = if session.auth_version == 2 then 2 else 1;
  token_hash = token_hash;
  public_key = public_key;
  created_at = now;
  expires_at = expires_at;
  last_used = none;
}

abbrev pub finish :
    EnrollmentService
    → String
    → Session
    → Option (DeviceRecord × Option String)
    → EnrollmentService × Option DeviceRecord
finish service id session none = (service, none)
finish service id session (some (r, token)) = (
  record service {
    sessions =
        insert id (record session { approved = true; token = token; minted = some r })
          service.sessions;
  },
  some r,
)

abbrev outcome : Status → Option String → Option DeviceRecord → PollOutcome
outcome status token r = record { status = status; device_token = token; minted = r }

abbrev poll_session : EnrollmentService → String → Option Session → EnrollmentService × PollOutcome
poll_session service id none = (service, outcome unknown none none)
poll_session service id (some session) =
    if not session.approved then (service, outcome pending none none) else (
      record service { sessions = remove id service.sessions },
      outcome approved session.token session.minted,
    )

unfoldable pub poll : EnrollmentService → String → ℕ → EnrollmentService × PollOutcome
poll service session_id now =
    let swept = sweep service now in
    poll_session swept session_id (lookup session_id swept.sessions)

module _ (crypto : Crypto) (b64url : List ℕ → String) (trim : String → String) where
  unfoldable pub normalize_code : String → List ℕ
  normalize_code text =
      flat_map (λ c. crypto.to_uppercase (c ∷ []))
        (retain (λ c. not (is_whitespace c) && not (c == b'-')) (codes text))

  unfoldable pub code_hash_of : String → String
  code_hash_of user_code = hash_secret crypto (normalize_code user_code)

  abbrev usable_key : ℕ → Option String → Bool
  usable_key auth_version none = not (auth_version == 2)
  usable_key auth_version (some key) =
      if auth_version == 2 then public_key_is_valid crypto key else true

  abbrev new_session : EnrollmentService → String → ℕ → Option String → ℕ → String → Session
  new_session service label auth_version public_key now user_code = record {
    code_hash = code_hash_of user_code;
    label = label_or_default (trim label);
    expires_at = now + micros service.code_ttl;
    auth_version = auth_version;
    public_key = public_key;
    approved = false;
    token = none;
    minted = none;
  }

  abbrev open_session :
      EnrollmentService
      → (String → Session)
      → Outcome EnrollError (List ℕ)
      → Outcome EnrollError String
      → EnrollmentService × Outcome EnrollError (String × String × ℕ)
  open_session service session (ok id_bytes) (ok user_code) = (
    record service { sessions = insert (b64url id_bytes) (session user_code) service.sessions },
    ok (b64url id_bytes, user_code, service.code_ttl),
  )
  open_session service session (ok id_bytes) _ = (service, err no_entropy)
  open_session service session _ _ = (service, err no_entropy)

  -- The two last arguments are the random bytes of the session id and of the code.
  unfoldable pub start :
      EnrollmentService
      → String
      → ℕ
      → Option String
      → ℕ
      → Random
      → Random
      → EnrollmentService × Outcome EnrollError (String × String × ℕ)
  start service label auth_version public_key now id_random code_random =
      if not (usable_key auth_version public_key)
      then (service, err bad_public_key)
      else open_session (sweep service now) (new_session service label auth_version public_key now)
          (random_bytes id_random) (new_pairing_code code_random)

  -- The record for a session and its one-time bearer; `none` when the random generator failed.
  unfoldable pub mint :
      Session → List ℕ → Random → Option ℕ → ℕ → Option (DeviceRecord × Option String)
  mint session id_bytes token_random expires_at now =
      if session.auth_version == 2
      then some (minted_record session (hex id_bytes) none session.public_key expires_at now, none)
      else elim token_random [
        | none ↦ none
        | some token_bytes ↦ some (
          minted_record session (hex id_bytes)
              (some (hash_secret crypto (codes (b64url token_bytes)))) none expires_at now,
          some (b64url token_bytes),
        )
      ]

  abbrev approve_session :
      EnrollmentService
      → ℕ
      → Random
      → Random
      → Option String
      → EnrollmentService × Option DeviceRecord
  approve_session service now id_random token_random none = (service, none)
  approve_session service now id_random token_random (some id) = elim id_random [
    | none ↦ (service, none)
    | some id_bytes ↦ elim (lookup id service.sessions) [
      | none ↦ (service, none)
      | some session ↦
          finish service id session
            (mint session id_bytes token_random (credential_expiry service.ttl_days now) now)
    ]
  ]

  unfoldable pub approve :
      EnrollmentService → String → ℕ → Random → Random → EnrollmentService × Option DeviceRecord
  approve service user_code now id_random token_random =
      let swept = sweep service now in
      approve_session swept now id_random token_random
        (matching (code_hash_of user_code) swept.sessions none)
