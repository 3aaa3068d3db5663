-- ===== src/Auth/Enroll/Matching.antt =====
-- Which session `approve` of crates/breeze-auth/src/enroll.rs picks for a code.
use mathlib.Core.Path.{subst}
use text.Mathlib.TextEquality.{eq_iff}
use breeze_core_native.Common.{
  ◌≡◌, ◌≢◌, ◌⊎◌, false, Option, none, some, String, [], ◌∷◌, arith, inl, inr, Bool-cases, not, ◌&&◌,
  if◌then◌else◌,
}
use breeze_core_native.Common.Texts.{Dict, str_eq, lookup, IsUnique}
use breeze_core_native.Auth.Enroll.{Session, matching}

-- A pending session with the given code.
abbrev pub Waits : String → Session → Type 0
Waits target s = (s.approved ≡ false) × (s.code_hash ≡ target)

pub matching_sound :
    (target : String) (dict : Dict Session) (start : Option String) (id : String)
    → IsUnique dict
    → matching target dict start ≡ some id
    → (start ≡ some id) ⊎ ((s : Session) × (lookup id dict ≡ some s) × Waits target s)
unfolding matching lookup
matching_sound target [] start id u e = inl e
matching_sound target ((k, v) ∷ rest) start id u e =
    elim (matching_sound target rest next id u.1 e) [
      | inr (s, found, waits) ↦ inr (s, ground (arith, eq_iff k id, u.0), waits)
      | inl same ↦ elim (Bool-cases (not v.approved && str_eq v.code_hash target)) [
        | inl hit ↦ inr (v, ground (arith, eq_iff k id), ground (arith, eq_iff v.code_hash target))
        | inr miss ↦ inl (ground arith)
      ]
    ]
  where
    next : Option String
    next = if not v.approved && str_eq v.code_hash target then some k else start

pub matching_complete :
    (target : String) (dict : Dict Session) (start : Option String) (id : String) (s : Session)
    → (lookup id dict ≡ some s) × Waits target s ⊎ (start ≢ none)
    → matching target dict start ≢ none
unfolding matching lookup
matching_complete target [] start id s (inl h) = λ e. ground arith
matching_complete target [] start id s (inr h) = h
matching_complete target ((k, v) ∷ rest) start id s h =
    matching_complete target rest next id s (carried h)
  where
    next : Option String
    next = if not v.approved && str_eq v.code_hash target then some k else start

    carried :
        (lookup id ((k, v) ∷ rest) ≡ some s) × Waits target s ⊎ (start ≢ none)
        → (lookup id rest ≡ some s) × Waits target s ⊎ (next ≢ none)
    carried (inr h) = inr (ground arith)
    carried (inl (found, waits)) = elim (Bool-cases (str_eq k id)) [
      | inl here ↦ inr (ground (arith, waits, eq_iff v.code_hash target))
      | inr there ↦ inl (ground arith, waits)
    ]

pub found-Waits :
    (id : String) (s : Session) (target : String) (dict : Dict Session)
    → (◌≡◌ {A = Option String} none (some id))
      ⊎ ((t : Session) × (lookup id dict ≡ some t) × Waits target t)
    → lookup id dict ≡ some s
    → Waits target s
found-Waits id s target dict (inl e) h = absurd (ground arith)
found-Waits id s target dict (inr (t, e, w)) h =
    let same : t ≡ s = cc (e, h) in subst (Waits target) same w
