-- ===== src/Auth/Nonce/Window.antt =====
-- What the nonce cache of crates/breeze-auth/src/nonce.rs remembers, and for how long.
use text.Mathlib.TextEquality.{eq_iff}
use breeze_core_native.Common.{
  ℕ, ◌+◌, ◌≤◌, ◌≡◌, true, false, none, some, String, List, [], ◌∷◌, All, leb, arith,
}
use breeze_core_native.Common.Texts.{
  str_eq_refl, lookup, retain_values, IsUnique, lookup-insert, contains_key-lookup,
  lookup-retain_values, retain_values-IsUnique, insert-IsUnique,
}
use breeze_core_native.Auth.Clock.{micros}
use breeze_core_native.Auth.Nonce.{NonceCache, sweep, check_and_store}

-- Each nonce stands once.
pub record IsValid (cache : NonceCache) : Type 0 where
  pub unique : IsUnique cache.seen

pub check_and_store-IsValid :
    (cache : NonceCache) (nonce : String) (now : ℕ)
    → IsValid cache
    → IsValid (check_and_store cache nonce now).0
unfolding check_and_store sweep
check_and_store-IsValid cache nonce now v = ground (
  arith,
  retain_values-IsUnique (λ expiry. leb now expiry) cache.seen v.unique,
  insert-IsUnique nonce (now + micros cache.skew_seconds)
      (retain_values (λ expiry. leb now expiry) cache.seen),
)

pub check_and_store_skew :
    (cache : NonceCache) (nonce : String) (now : ℕ)
    → (check_and_store cache nonce now).0.skew_seconds ≡ cache.skew_seconds
unfolding check_and_store sweep
check_and_store_skew cache nonce now = ground arith

-- A nonce is accepted exactly when it is not remembered with an expiry that has not passed.
pub check_and_store-accepts :
    (cache : NonceCache) (nonce : String) (now : ℕ)
    → IsValid cache
    → (check_and_store cache nonce now).1 ≡ (elim (lookup nonce cache.seen) [
      | none ↦ true
      | some expiry ↦ (elim (leb now expiry) [ true ↦ false | false ↦ true ])
    ])
unfolding check_and_store sweep
check_and_store-accepts cache nonce now v = ground (
  arith,
  contains_key-lookup nonce (retain_values (λ expiry. leb now expiry) cache.seen),
  lookup-retain_values (λ expiry. leb now expiry) nonce cache.seen v.unique,
)

-- What is stored is there afterwards, with its expiry.
pub check_and_store-stores :
    (cache : NonceCache) (nonce : String) (now : ℕ)
    → (check_and_store cache nonce now).1 ≡ true
    → lookup nonce (check_and_store cache nonce now).0.seen ≡ some (now + micros cache.skew_seconds)
unfolding check_and_store sweep
check_and_store-stores cache nonce now h = ground (
  arith,
  str_eq_refl nonce,
  lookup-insert nonce nonce (now + micros cache.skew_seconds)
      (retain_values (λ expiry. leb now expiry) cache.seen),
)

-- Another call, no later than its expiry, does not forget a nonce.
pub check_and_store-remembers :
    (cache : NonceCache) (nonce other : String) (expiry now : ℕ)
    → IsValid cache
    → lookup nonce cache.seen ≡ some expiry
    → now ≤ expiry
    → lookup nonce (check_and_store cache other now).0.seen ≡ some expiry
unfolding check_and_store sweep
check_and_store-remembers cache nonce other expiry now v e h = ground (
  arith,
  eq_iff other nonce,
  contains_key-lookup other (retain_values (λ expiry. leb now expiry) cache.seen),
  lookup-retain_values (λ expiry. leb now expiry) nonce cache.seen v.unique,
  lookup-insert other nonce (now + micros cache.skew_seconds)
      (retain_values (λ expiry. leb now expiry) cache.seen),
)

-- The calls of a history, in order.
abbrev pub run : NonceCache → List (String × ℕ) → NonceCache
run cache [] = cache
run cache ((nonce, now) ∷ calls) = run (check_and_store cache nonce now).0 calls

pub run-IsValid :
    (cache : NonceCache) (calls : List (String × ℕ)) → IsValid cache → IsValid (run cache calls)
run-IsValid cache [] v = v
run-IsValid cache ((nonce, now) ∷ calls) v =
    run-IsValid (check_and_store cache nonce now).0 calls
      (check_and_store-IsValid cache nonce now v)

pub run-remembers :
    (cache : NonceCache) (nonce : String) (expiry : ℕ) (calls : List (String × ℕ))
    → IsValid cache
    → lookup nonce cache.seen ≡ some expiry
    → All (λ call. call.1 ≤ expiry) calls
    → lookup nonce (run cache calls).seen ≡ some expiry
run-remembers cache nonce expiry [] v e h = e
run-remembers cache nonce expiry ((other, now) ∷ calls) v e h =
    run-remembers (check_and_store cache other now).0 nonce expiry calls
      (check_and_store-IsValid cache other now v)
      (check_and_store-remembers cache nonce other expiry now v e h.0) h.1

-- Once accepted at `now`, a nonce is refused by every call up to `now` plus the skew, whatever
-- other calls come in between within that time.
pub check_and_store-single_use :
    (cache : NonceCache) (nonce : String) (now later : ℕ) (calls : List (String × ℕ))
    → IsValid cache
    → (check_and_store cache nonce now).1 ≡ true
    → All (λ call. call.1 ≤ now + micros cache.skew_seconds) calls
    → later ≤ now + micros cache.skew_seconds
    → (check_and_store (run (check_and_store cache nonce now).0 calls) nonce later).1 ≡ false
check_and_store-single_use cache nonce now later calls v h hs hl =
    let first = (check_and_store cache nonce now).0 in
    let first_valid = check_and_store-IsValid cache nonce now v in
    let kept =
      run-remembers first nonce (now + micros cache.skew_seconds) calls first_valid
        (check_and_store-stores cache nonce now h) hs in
    ground (
      arith,
      kept,
      check_and_store-accepts (run first calls) nonce later (run-IsValid first calls first_valid),
    )
