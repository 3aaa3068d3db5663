-- ===== src/Common/Numbered.antt =====
-- A dictionary from numbers as an association list (`HashMap<u64, V>`).
use Prim.Native.Nat.{ℕ}
use mathlib.Core.Path.{◌≡◌, refl}
use mathlib.Core.Option.{Option, none, some}
use mathlib.Core.List.{List, [], ◌∷◌}
use native.Mathlib.Omega.{arith}
use breeze_core_native.Common.Tests.{◌==◌, if◌then◌else◌}

abbrev pub Numbered {ℓ} : Type ℓ → Type ℓ
Numbered V = List (ℕ × V)

module _ {ℓ} {V : Type ℓ} where
  unfoldable pub lookup : ℕ → Numbered V → Option V
  lookup key [] = none
  lookup key ((k, v) ∷ rest) = if k == key then some v else lookup key rest

  unfoldable pub remove : ℕ → Numbered V → Numbered V
  remove key [] = []
  remove key ((k, v) ∷ rest) = if k == key then remove key rest else (k, v) ∷ remove key rest

  unfoldable pub insert : ℕ → V → Numbered V → Numbered V
  insert key v dict = (key, v) ∷ remove key dict

module _ {V : Type 0} where
  pub lookup-remove :
      (key other : ℕ) (dict : Numbered V)
      → lookup other (remove key dict) ≡ (if key == other then none else lookup other dict)
  unfolding lookup remove
  lookup-remove key other [] = ground arith
  lookup-remove key other ((k, v) ∷ rest) = ground (arith, lookup-remove key other rest)

  pub lookup-insert :
      (key other : ℕ) (v : V) (dict : Numbered V)
      → lookup other (insert key v dict) ≡ (if key == other then some v else lookup other dict)
  unfolding lookup insert
  lookup-insert key other v dict = ground (arith, lookup-remove key other dict)

  -- A dictionary that knows no key is empty.
  pub lookup-empty : (dict : Numbered V) → ((key : ℕ) → lookup key dict ≡ none) → dict ≡ []
  unfolding lookup
  lookup-empty [] h = refl
  lookup-empty ((k, v) ∷ rest) h = absurd (let at_key = h k in ground arith)
