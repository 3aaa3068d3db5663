-- ===== src/Auth/Enroll/Sessions.antt =====
-- The session list of crates/breeze-auth/src/enroll.rs: ids stay unique, and what a session that is
-- gone or pending can become.
use breeze_core_native.Common.{ℕ, ◌≤◌, ◌≡◌, refl, Bool, none, some, String, [], ◌∷◌, arith, leb}
use breeze_core_native.Common.Texts.{
  Dict, lookup, retain_values, IsUnique, lookup-remove, lookup-retain_values,
  retain_values-IsUnique, remove-IsUnique,
}
use breeze_core_native.Auth.Enroll.{Session, EnrollmentService, sweep, poll}

abbrev pub keep_live : ℕ → Session → Bool
keep_live now s = leb now s.expires_at

pub sweep-IsUnique :
    (service : EnrollmentService) (now : ℕ)
    → IsUnique service.sessions
    → IsUnique (sweep service now).sessions
unfolding sweep
sweep-IsUnique service now u = retain_values-IsUnique (keep_live now) service.sessions u

pub lookup-sweep :
    (service : EnrollmentService) (now : ℕ) (id : String) (s : Session)
    → IsUnique service.sessions
    → lookup id (sweep service now).sessions ≡ some s
    → (lookup id service.sessions ≡ some s) × (now ≤ s.expires_at)
unfolding sweep
lookup-sweep service now id s u e =
    ground (arith, lookup-retain_values (keep_live now) id service.sessions u)

pub sweep-lookup :
    (service : EnrollmentService) (now : ℕ) (id : String) (s : Session)
    → IsUnique service.sessions
    → lookup id service.sessions ≡ some s
    → now ≤ s.expires_at
    → lookup id (sweep service now).sessions ≡ some s
unfolding sweep
sweep-lookup service now id s u e h =
    ground (arith, lookup-retain_values (keep_live now) id service.sessions u)

lookup-retain_values-none :
    (keep : Session → Bool) (key : String) (dict : Dict Session)
    → lookup key dict ≡ none
    → lookup key (retain_values keep dict) ≡ none
unfolding lookup retain_values
lookup-retain_values-none keep key [] e = refl
lookup-retain_values-none keep key ((k, v) ∷ rest) e =
    ground (arith, lookup-retain_values-none keep key rest)

pub sweep-gone :
    (service : EnrollmentService) (now : ℕ) (id : String)
    → lookup id service.sessions ≡ none
    → lookup id (sweep service now).sessions ≡ none
unfolding sweep
sweep-gone service now id e = lookup-retain_values-none (keep_live now) id service.sessions e

pub poll-gone :
    (service : EnrollmentService) (other id : String) (now : ℕ)
    → lookup id service.sessions ≡ none
    → lookup id (poll service other now).0.sessions ≡ none
unfolding poll
poll-gone service other id now e =
    ground (arith, sweep-gone service now id e, lookup-remove other id (sweep service now).sessions)

pub poll-IsUnique :
    (service : EnrollmentService) (other : String) (now : ℕ)
    → IsUnique service.sessions
    → IsUnique (poll service other now).0.sessions
unfolding poll
poll-IsUnique service other now u =
    ground (arith, sweep-IsUnique service now u, remove-IsUnique other (sweep service now).sessions)
