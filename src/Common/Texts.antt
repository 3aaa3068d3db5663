-- ===== src/Common/Texts.antt =====
-- Equality of texts as a Boolean test, and a dictionary from texts as an association list. A
-- `HashMap` has no order that the program relies on.
use Prim.Native.Nat.{ℕ}
use Prim.Native.Char.{code}
use Prim.Native.String.{String}
use mathlib.Core.Path.{◌≡◌, refl}
use mathlib.Core.Bool.{Bool, true, false, ◌&&◌, ◌||◌}
use mathlib.Core.Option.{Option, none, some}
use mathlib.Core.List.{List, [], ◌∷◌}
use native.Mathlib.Omega.{arith}
use text.Mathlib.Text.{◌==◌ as ◌same_text◌}
use text.Mathlib.TextEquality.{eq_iff}
use breeze_core_native.Common.Tests.{leb, ◌==◌, if◌then◌else◌}

abbrev pub str_eq : String → String → Bool
str_eq a b = a same_text b

pub str_eq_refl : (a : String) → str_eq a a ≡ true
str_eq_refl a = (eq_iff a a).1 refl

pub str_eq→eq : (a b : String) → str_eq a b ≡ true → a ≡ b
str_eq→eq a b h = (eq_iff a b).0 h

abbrev pub Dict {ℓ} : Type ℓ → Type ℓ
Dict V = List (String × V)

module _ {ℓ} {V : Type ℓ} where
  unfoldable pub lookup : String → Dict V → Option V
  lookup key [] = none
  lookup key ((k, v) ∷ rest) = if str_eq k key then some v else lookup key rest

  unfoldable pub contains_key : String → Dict V → Bool
  contains_key key [] = false
  contains_key key ((k, v) ∷ rest) = if str_eq k key then true else contains_key key rest

  unfoldable pub remove : String → Dict V → Dict V
  remove key [] = []
  remove key ((k, v) ∷ rest) = if str_eq k key then remove key rest else (k, v) ∷ remove key rest

  unfoldable pub insert : String → V → Dict V → Dict V
  insert key v dict = (key, v) ∷ remove key dict

  -- `HashMap::retain`, by the value.
  unfoldable pub retain_values : (V → Bool) → Dict V → Dict V
  retain_values keep [] = []
  retain_values keep ((k, v) ∷ rest) =
      if keep v then (k, v) ∷ retain_values keep rest else retain_values keep rest

module _ {V : Type 0} where
  pub lookup-remove :
      (key other : String) (dict : Dict V)
      → lookup other (remove key dict) ≡ (if str_eq key other then none else lookup other dict)
  unfolding lookup remove
  lookup-remove key other [] = ground arith
  lookup-remove key other ((k, v) ∷ rest) =
      ground (arith, lookup-remove key other rest, eq_iff k key, eq_iff k other, eq_iff key other)

  pub lookup-insert :
      (key other : String) (v : V) (dict : Dict V)
      → lookup other (insert key v dict) ≡ (if str_eq key other then some v else lookup other dict)
  unfolding lookup insert
  lookup-insert key other v dict = ground (arith, lookup-remove key other dict)

  pub contains_key-lookup :
      (key : String) (dict : Dict V)
      → contains_key key dict ≡ (elim (lookup key dict) [ none ↦ false | some v ↦ true ])
  unfolding contains_key lookup
  contains_key-lookup key [] = refl
  contains_key-lookup key ((k, v) ∷ rest) = ground (arith, contains_key-lookup key rest)

  -- A dictionary names each key once.
  abbrev pub IsUnique : Dict V → Type 0
  IsUnique [] = Unit
  IsUnique ((k, v) ∷ rest) = (lookup k rest ≡ none) × IsUnique rest

  pub lookup-retain_values :
      (keep : V → Bool) (key : String) (dict : Dict V)
      → IsUnique dict
      → lookup key (retain_values keep dict)
        ≡ (elim (lookup key dict) [ none ↦ none | some v ↦ if keep v then some v else none ])
  unfolding lookup retain_values
  lookup-retain_values keep key [] u = refl
  lookup-retain_values keep key ((k, v) ∷ rest) u =
      ground (arith, lookup-retain_values keep key rest u.1, eq_iff k key)

  pub retain_values-IsUnique :
      (keep : V → Bool) (dict : Dict V) → IsUnique dict → IsUnique (retain_values keep dict)
  unfolding retain_values
  retain_values-IsUnique keep [] u = tt
  retain_values-IsUnique keep ((k, v) ∷ rest) u =
      ground (arith, retain_values-IsUnique keep rest u.1, lookup-retain_values keep k rest u.1)

  pub remove-IsUnique : (key : String) (dict : Dict V) → IsUnique dict → IsUnique (remove key dict)
  unfolding remove
  remove-IsUnique key [] u = tt
  remove-IsUnique key ((k, v) ∷ rest) u =
      ground (arith, remove-IsUnique key rest u.1, lookup-remove key k rest)

  pub insert-IsUnique :
      (key : String) (v : V) (dict : Dict V) → IsUnique dict → IsUnique (insert key v dict)
  unfolding insert
  insert-IsUnique key v dict u =
      ground (arith, remove-IsUnique key dict u, lookup-remove key key dict, str_eq_refl key)

-- The code points of a text: its bytes, if it is ASCII.
abbrev pub codes : String → List ℕ
codes String.[] = []
codes (String.◌∷◌ c s) = code c ∷ codes s

abbrev pub is_empty : String → Bool
is_empty text = str_eq text ""

-- `char::is_whitespace`.
abbrev pub is_whitespace : ℕ → Bool
is_whitespace c =
    leb 9 c && leb c 13
    || (c == 32
        || (c == 0x85
            || (c == 0xA0
                || (c == 0x1680
                    || (leb 0x2000 c && leb c 0x200A
                        || (c == 0x2028
                            || (c == 0x2029 || (c == 0x202F || (c == 0x205F || c == 0x3000)))))))))

abbrev drop_spaces : List ℕ → List ℕ
drop_spaces [] = []
drop_spaces (c ∷ cs) = let rest = drop_spaces cs in if is_whitespace c then rest else c ∷ cs

abbrev cons_unless_blank : ℕ → List ℕ → List ℕ
cons_unless_blank c [] = if is_whitespace c then [] else c ∷ []
cons_unless_blank c (d ∷ rest) = c ∷ d ∷ rest

abbrev drop_trailing_spaces : List ℕ → List ℕ
drop_trailing_spaces [] = []
drop_trailing_spaces (c ∷ cs) = cons_unless_blank c (drop_trailing_spaces cs)

-- `str::trim` and `split_once`, on code points.
unfoldable pub trim : List ℕ → List ℕ
trim text = drop_trailing_spaces (drop_spaces text)

unfoldable pub split_once : ℕ → List ℕ → Option (List ℕ × List ℕ)
split_once sep [] = none
split_once sep (c ∷ cs) =
    let rest = split_once sep cs in
    if c == sep then some ([], cs) else elim rest [ none ↦ none | some (a, b) ↦ some (c ∷ a, b) ]
