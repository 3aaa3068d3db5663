-- ===== src/Store/Programs/Days.antt =====
-- crates/breeze-store/src/programs.rs: the days of a schedule entry, `sort_unstable` and then `dedup`.
use mathlib.Core.Path.{subst}
use breeze_core_native.Common.{
  ℕ, ◌≤◌, ◌<◌, Bool, false, ◌||◌, none, List, [], ◌∷◌, leb, ◌==◌, find, any, Bool-cases, inl, inr,
  ◌≡◌, refl, ap, ◌∙◌, arith,
}
use breeze_core_native.Store.Programs.Ingest.{insert_day, sort, dedup_after, dedup}

-- Every number is greater than the one before it, the first than `n`.
abbrev pub Above : ℕ → List ℕ → Type 0
Above n [] = Unit
Above n (d ∷ ds) = (n < d) × Above d ds

abbrev pub IsAscending : List ℕ → Type 0
IsAscending [] = Unit
IsAscending (d ∷ ds) = Above d ds

-- And none is less than the one before it.
abbrev AtLeast : ℕ → List ℕ → Type 0
AtLeast n [] = Unit
AtLeast n (d ∷ ds) = (n ≤ d) × AtLeast d ds

insert_day-AtLeast : (n d : ℕ) (ds : List ℕ) → n ≤ d → AtLeast n ds → AtLeast n (insert_day d ds)
insert_day-AtLeast n d [] le h = (le, tt)
insert_day-AtLeast n d (x ∷ xs) le h = elim (Bool-cases (leb d x)) [
  | inl before ↦ rw before (le, (ground arith, h.1))
  | inr after ↦ rw after (h.0, insert_day-AtLeast x d xs (ground arith) h.1)
]

sort-AtLeast : (ds : List ℕ) → AtLeast 0 (sort ds)
sort-AtLeast [] = tt
sort-AtLeast (d ∷ ds) = insert_day-AtLeast 0 d (sort ds) (omega arith) (sort-AtLeast ds)

dedup_after-Above : (last : ℕ) (ds : List ℕ) → AtLeast last ds → Above last (dedup_after last ds)
dedup_after-Above last [] h = tt
dedup_after-Above last (d ∷ ds) h = elim (Bool-cases (last == d)) [
  | inl same ↦
      rw same (subst (λ n. Above n (dedup_after d ds)) (ground arith) (dedup_after-Above d ds h.1))
  | inr other ↦ rw other (ground arith, dedup_after-Above d ds h.1)
]

dedup-IsAscending : (n : ℕ) (ds : List ℕ) → AtLeast n ds → IsAscending (dedup ds)
dedup-IsAscending n [] h = tt
dedup-IsAscending n (d ∷ ds) h = dedup_after-Above d ds h.1

pub sorted-IsAscending : (ds : List ℕ) → IsAscending (dedup (sort ds))
sorted-IsAscending ds = dedup-IsAscending 0 (sort ds) (sort-AtLeast ds)

insert_day-front : (d : ℕ) (ds : List ℕ) → Above d ds → insert_day d ds ≡ d ∷ ds
insert_day-front d [] h = refl
insert_day-front d (x ∷ xs) h = ground arith

sort-ascending : (n : ℕ) (ds : List ℕ) → Above n ds → sort ds ≡ ds
sort-ascending n [] h = refl
sort-ascending n (d ∷ ds) h = rw (sort-ascending d ds h.1) (insert_day-front d ds h.1)

dedup_after-ascending : (n : ℕ) (ds : List ℕ) → Above n ds → dedup_after n ds ≡ ds
dedup_after-ascending n [] h = refl
dedup_after-ascending n (d ∷ ds) h = ground (arith, dedup_after-ascending d ds)

-- What is ascending stays as it is.
pub sorted-same : (ds : List ℕ) → IsAscending ds → dedup (sort ds) ≡ ds
sorted-same [] h = refl
sorted-same (d ∷ ds) h =
    rw (sort-ascending d ds h, insert_day-front d ds h)
      (ap (λ t. d ∷ t) (dedup_after-ascending d ds h))

module _ (test : ℕ → Bool) where
  any-insert_day : (d : ℕ) (ds : List ℕ) → any test (insert_day d ds) ≡ test d || any test ds
  any-insert_day d [] = refl
  any-insert_day d (x ∷ xs) = ground (arith, any-insert_day d xs)

  any-sort : (ds : List ℕ) → any test (sort ds) ≡ any test ds
  any-sort [] = refl
  any-sort (d ∷ ds) = any-insert_day d (sort ds) ∙ ap (λ b. test d || b) (any-sort ds)

  any-dedup_after :
      (last : ℕ) (ds : List ℕ)
      → (test last || any test (dedup_after last ds)) ≡ (test last || any test ds)
  any-dedup_after last [] = refl
  any-dedup_after last (d ∷ ds) = elim (Bool-cases (last == d)) [
    | inl same ↦
        let e : last ≡ d = ground arith in
        let tests : test last ≡ test d = ap test e in ground (arith, tests, any-dedup_after d ds)
    | inr other ↦ rw other (ap (λ b. test last || b) (any-dedup_after d ds))
  ]

  any-dedup : (ds : List ℕ) → any test (dedup ds) ≡ any test ds
  any-dedup [] = refl
  any-dedup (d ∷ ds) = any-dedup_after d ds

  -- The days are the same ones.
  pub any-sorted : (ds : List ℕ) → any test (dedup (sort ds)) ≡ any test ds
  any-sorted ds = any-dedup (sort ds) ∙ any-sort ds

  pub find-none : (ds : List ℕ) → find test ds ≡ none → any test ds ≡ false
  find-none [] h = refl
  find-none (d ∷ ds) h = ground (arith, find-none ds)

  pub none-find : (ds : List ℕ) → any test ds ≡ false → find test ds ≡ none
  none-find [] h = refl
  none-find (d ∷ ds) h = ground (arith, none-find ds)
