-- ===== src/Auth/Reject.antt =====
-- crates/breeze-auth/src/reject.rs: why a request was refused.
use breeze_core_native.Common.{ℕ, Bool, true, false, Option, none, some, String}

pub data Reason : Type 0 where
  no_credential unknown_key expired bad_signature bad_api_key clock_skew replay : Reason
  incomplete_signature : Reason

unfoldable pub code : Reason → String
code no_credential = "no_credential"
code unknown_key = "unknown_key"
code expired = "expired"
code bad_signature = "bad_signature"
code bad_api_key = "bad_api_key"
code clock_skew = "clock_skew"
code replay = "replay"
code incomplete_signature = "incomplete_signature"

unfoldable pub is_retryable : Reason → Bool
is_retryable clock_skew = true
is_retryable replay = true
is_retryable incomplete_signature = true
is_retryable _ = false

pub record SkewInfo : Type 0 where
  -- microseconds, a whole number of milliseconds
  pub server_time : ℕ
  pub client_time : String
  pub max_skew_seconds : ℕ

pub record Rejection : Type 0 where
  pub status : ℕ
  pub reason : Reason
  pub detail : String
  pub skew : Option SkewInfo

abbrev pub unauthorized : Reason → String → Rejection
unauthorized reason detail = record { status = 401; reason = reason; detail = detail; skew = none }

abbrev pub with_skew : Rejection → SkewInfo → Rejection
with_skew rejection skew = record rejection { skew = some skew }

-- The `detail` object of the response body.
pub record RejectionDetail : Type 0 where
  pub error : String
  pub detail : String
  pub retryable : Bool
  pub server_time : Option ℕ
  pub client_time : Option String
  pub max_skew_seconds : Option ℕ

abbrev field {ℓ} : {A : Type ℓ} → (SkewInfo → A) → Option SkewInfo → Option A
field f none = none
field f (some s) = some (f s)

unfoldable pub body : Rejection → RejectionDetail
unfolding code is_retryable
body r = record {
  error = code r.reason;
  detail = r.detail;
  retryable = is_retryable r.reason;
  server_time = field (λ s. s.server_time) r.skew;
  client_time = field (λ s. s.client_time) r.skew;
  max_skew_seconds = field (λ s. s.max_skew_seconds) r.skew;
}
