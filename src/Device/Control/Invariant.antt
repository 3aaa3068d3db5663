-- ===== src/Device/Control/Invariant.antt =====
-- What ties the queue of crates/breeze-device/src/manager.rs to the requests that wait on it.
use breeze_core_native.Common.{
  ℕ, ◌+◌, ◌-◌, ◌≤◌, ◌<◌, ◌≡◌, refl, Option, none, some, List, [], ◌∷◌, ◌++◌, foldl, ◌==◌,
  if◌then◌else◌, arith, length,
}
use breeze_core_native.Common.Numbered.{lookup}
use breeze_core_native.Device.Change.{Change, no_change, merge, merge_all}
use breeze_core_native.Device.Control.{Finished}
use breeze_core_native.Device.Control.Interleaved.{Holder, checking, taking, sending, System, start}

abbrev pub one_if : ℕ → ℕ → ℕ
one_if b n = if b == n then 1 else 0

abbrev pub count : ℕ → List ℕ → ℕ
count n [] = 0
count n (b ∷ bs) = one_if b n + count n bs

pub count-append : (n : ℕ) (xs ys : List ℕ) → count n (xs ++ ys) ≡ count n xs + count n ys
count-append n [] ys = omega arith
count-append n (x ∷ xs) ys = ground (arith, count-append n xs ys)

pub merge_all-append :
    (changes : List Change) (c : Change)
    → merge_all (changes ++ (c ∷ [])) ≡ merge (merge_all changes) c
merge_all-append changes c = go no_change changes
  where
    go :
        (first : Change) (cs : List Change)
        → foldl merge first (cs ++ (c ∷ [])) ≡ merge (foldl merge first cs) c
    go first [] = refl
    go first (d ∷ cs) = go (merge first d) cs

-- How many answers of batch `n` a request that holds the unit's lock is still after, and how many
-- more requests its command answers.
abbrev pub claim : Holder → ℕ → ℕ
claim (checking b) n = one_if b n
claim (taking b) n = one_if b n
claim _ n = 0

abbrev pub in_flight : Holder → ℕ → ℕ
in_flight (sending b change merged) n = if b == n then merged - 1 else 0
in_flight _ n = 0

module _ {E : Type 0} where
  abbrev pub uncollected_of : Option (Finished E) → ℕ
  uncollected_of none = 0
  uncollected_of (some f) = f.uncollected

  -- The requests of batch `n` that have no answer yet, and the answers that are kept for them.
  abbrev pub claims : System E → ℕ → ℕ
  claims s n = count n s.waiting + claim s.holder n

  abbrev pub owed : System E → ℕ → ℕ
  owed s n =
      (if s.queue.next_batch == n then s.queue.pending_count else 0)
      + (uncollected_of (lookup n s.queue.done) + in_flight s.holder n)

  abbrev pub HolderFits : System E → Holder → Type 0
  HolderFits s (taking b) = b ≡ s.queue.next_batch
  HolderFits s (sending b change merged) =
      (b < s.queue.next_batch)
      × (lookup b s.queue.done ≡ none)
      × (change ≡ merge_all s.carried)
      × (merged ≡ length s.carried)
      × (1 ≤ merged)
  HolderFits s _ = Unit

  pub record Invariant (s : System E) : Type 0 where
    pub balanced : (n : ℕ) → claims s n ≡ owed s n
    pub ahead : (n : ℕ) → s.queue.next_batch ≤ n → lookup n s.queue.done ≡ none
    pub live : (n : ℕ) (f : Finished E) → lookup n s.queue.done ≡ some f → 0 < f.uncollected
    pub fits : HolderFits s s.holder
    pub merged : s.queue.pending ≡ merge_all s.joined
    pub counted : s.queue.pending_count ≡ length s.joined
    pub outcomes :
        (n : ℕ) (f : Finished E)
        → lookup n s.queue.done ≡ some f
        → lookup n s.results ≡ some f.outcome

  pub start-Invariant : Invariant start
  unfolding lookup
  start-Invariant = record {
    balanced = λ n. ground arith;
    ahead = λ n h. refl;
    live = λ n f e. ground arith;
    fits = tt;
    merged = refl;
    counted = refl;
    outcomes = λ n f e. ground arith;
  }
