-- ===== src/Proto/Ac/Capabilities/Records.antt =====
-- crates/breeze-proto/src/ac/capabilities.rs: the loop of `parse` against a list of whole records.
use mathlib.Core.Path.{subst}
use mathlib.Core.List.{append_assoc}
use breeze_core_native.Common.{
  ℕ, zero, suc, ◌+◌, ◌≤◌, ◌<◌, none, some, List, [], ◌∷◌, ◌++◌, ltb, get_or, length, take, drop,
  length-append, take-append, drop-append, length-take, take-append-drop, Bool-cases, if◌then◌else◌,
  ◌⊎◌, inl, inr, ◌≡◌, refl, arith,
}
use breeze_core_native.Common.Bytes.{from_le}
use breeze_core_native.Proto.Ac.Capabilities.{
  Capabilities, nothing, apply, apply_temperatures, next_record, walk, with_additional, parse,
}

-- A record: the two bytes of its id, and its value.
pub record Entry : Type 0 where
  pub lo : ℕ
  pub hi : ℕ
  pub value : List ℕ

abbrev pub encode : Entry → List ℕ
encode e = e.lo ∷ e.hi ∷ length e.value ∷ e.value

abbrev pub encode_all : List Entry → List ℕ
encode_all [] = []
encode_all (e ∷ es) = encode e ++ encode_all es

-- What a record says, of its own bytes; an empty one says nothing.
abbrev pub apply_entry : Entry → Capabilities → Capabilities
apply_entry e c =
    if ltb 0 (length e.value) then apply (from_le e.lo e.hi) e.value (encode e) c else c

abbrev pub apply_all : List Entry → Capabilities → Capabilities
apply_all [] c = c
apply_all (e ∷ es) c = apply_all es (apply_entry e c)

-- The front of a record whose header or value is not all there.
abbrev pub IsCut : List ℕ → Type 0
IsCut rest = (length rest < 3) ⊎ ((0 < get_or rest 2 0) × (length rest < 3 + get_or rest 2 0))

apply_temperatures-local :
    (lo hi : ℕ) (value later : List ℕ) (c : Capabilities)
    → apply_temperatures value (lo ∷ hi ∷ length value ∷ (value ++ later)) c
      ≡ apply_temperatures value (lo ∷ hi ∷ length value ∷ value) c
unfolding apply_temperatures
apply_temperatures-local lo hi [] later c = ground arith
apply_temperatures-local lo hi (a ∷ []) later c = ground arith
apply_temperatures-local lo hi (a ∷ b ∷ []) later c = ground arith
apply_temperatures-local lo hi (a ∷ b ∷ d ∷ []) later c = ground arith
apply_temperatures-local lo hi (a ∷ b ∷ d ∷ e ∷ []) later c = ground arith
apply_temperatures-local lo hi (a ∷ b ∷ d ∷ e ∷ f ∷ []) later c = ground arith
apply_temperatures-local lo hi (a ∷ b ∷ d ∷ e ∷ f ∷ g ∷ []) later c = ground arith
apply_temperatures-local lo hi (a ∷ b ∷ d ∷ e ∷ f ∷ g ∷ x ∷ v) later c = ground arith

-- A record is applied by its own bytes, whatever follows it in the reply.
apply-local :
    (id lo hi : ℕ) (value later : List ℕ) (c : Capabilities)
    → apply id value (lo ∷ hi ∷ length value ∷ (value ++ later)) c
      ≡ apply id value (lo ∷ hi ∷ length value ∷ value) c
unfolding apply
apply-local id lo hi value later c = rw (apply_temperatures-local lo hi value later c)

next_record-parts :
    (lo hi : ℕ) (value later : List ℕ) (c : Capabilities)
    → let e : Entry = record { lo = lo; hi = hi; value = value } in
      next_record (encode e ++ later) c ≡ some (apply_entry e c, later)
unfolding next_record
next_record-parts lo hi [] later c = ground arith
next_record-parts lo hi (v ∷ value) later c = ground (
  arith,
  length-append value later,
  take-append (length value) value later refl,
  drop-append (length value) value later refl,
  apply-local (from_le lo hi) lo hi (v ∷ value) later c,
)

next_record-encode :
    (e : Entry) (later : List ℕ) (c : Capabilities)
    → next_record (encode e ++ later) c ≡ some (apply_entry e c, later)
next_record-encode e later c = next_record-parts e.lo e.hi e.value later c

next_record-cut : (rest : List ℕ) (c : Capabilities) → IsCut rest → next_record rest c ≡ none
unfolding next_record
next_record-cut rest c h = ground arith

walk-encode_all :
    (count : ℕ) (es : List Entry) (later : List ℕ) (c : Capabilities)
    → length es ≤ count
    → (length es ≡ count) ⊎ IsCut later
    → walk count (encode_all es ++ later) c ≡ (apply_all es c, later)
unfolding walk
walk-encode_all zero [] later c le h = refl
walk-encode_all zero (e ∷ es) later c le h = absurd (omega arith)
walk-encode_all (suc count) [] later c le (inl h) = absurd (omega arith)
walk-encode_all (suc count) [] later c le (inr h) = ground (arith, next_record-cut later c h)
walk-encode_all (suc count) (e ∷ es) later c le h = ground (
  arith,
  append_assoc (encode e) (encode_all es) later,
  next_record-encode e (encode_all es ++ later) c,
  walk-encode_all count es later (apply_entry e c),
)

-- The reply of a unit: its command byte, the count, the records, and what stands behind them. Where
-- the count is the records' number, or what stands behind them is not a whole record, `parse` is
-- what the records say in their order, each by its own bytes, with the flag read of what is left.
pub parse-encode_all :
    (command count : ℕ) (es : List Entry) (later : List ℕ)
    → length es ≤ count
    → (length es ≡ count) ⊎ IsCut later
    → parse (command ∷ count ∷ (encode_all es ++ later))
      ≡ with_additional later (apply_all es nothing)
unfolding parse
parse-encode_all command count es later le h =
    ground (arith, walk-encode_all count es later nothing le h)

unfoldable Cutting : ℕ → List ℕ → Type 0
Cutting count rest =
    (es : List Entry) × (later : List ℕ) × (length es ≤ count)
    × ((length es ≡ count) ⊎ IsCut later)
    × (encode_all es ++ later ≡ rest)

more :
    (count lo hi : ℕ) (value rest : List ℕ)
    → Cutting count rest
    → Cutting (suc count) (lo ∷ hi ∷ length value ∷ (value ++ rest))
unfolding Cutting
more count lo hi value rest (es, later, le, end, e) = (
  record { lo = lo; hi = hi; value = value } ∷ es,
  later,
  omega arith,
  ground arith,
  rw (append_assoc value (encode_all es) later, e) refl,
)

whole :
    (count lo hi size : ℕ) (tail : List ℕ)
    → ¬ (length tail < size)
    → Cutting count (drop size tail)
    → Cutting (suc count) (lo ∷ hi ∷ size ∷ tail)
whole count lo hi size tail h rest =
    let n : length (take size tail) ≡ size = omega (arith, length-take size tail) in
    subst (λ k. Cutting (suc count) (lo ∷ hi ∷ k ∷ tail)) n
      (subst (λ t. Cutting (suc count) (lo ∷ hi ∷ length (take size tail) ∷ t))
        (take-append-drop size tail) (more count lo hi (take size tail) (drop size tail) rest))

-- Every reply is cut into whole records and what stands behind them.
cutting : (count : ℕ) (rest : List ℕ) → Cutting count rest
unfolding Cutting
cutting zero rest = ([], rest, omega arith, inl refl, refl)
cutting (suc count) [] = ([], [], omega arith, inr (inl (omega arith)), refl)
cutting (suc count) (lo ∷ []) = ([], _, omega arith, inr (inl (omega arith)), refl)
cutting (suc count) (lo ∷ hi ∷ []) = ([], _, omega arith, inr (inl (omega arith)), refl)
cutting (suc count) (lo ∷ hi ∷ size ∷ tail) = elim (Bool-cases (ltb (length tail) size)) [
  | inl short ↦ ([], _, omega arith, inr (inr (ground arith, ground arith)), refl)
  | inr enough ↦ whole count lo hi size tail (ground arith) (cutting count (drop size tail))
]

-- Whatever a unit answers, there are whole records at the front of the reply, as many as it counts
-- unless something that is not a whole record stands behind them, and `parse` is what they say in
-- their order, each by its own bytes, with the flag read of what is left.
pub parse_records :
    (command count : ℕ) (rest : List ℕ)
    → (es : List Entry) × (later : List ℕ) × (length es ≤ count)
      × ((length es ≡ count) ⊎ IsCut later)
      × (encode_all es ++ later ≡ rest)
      × (parse (command ∷ count ∷ rest) ≡ with_additional later (apply_all es nothing))
unfolding Cutting
parse_records command count rest =
    let (es, later, le, end, e) = cutting count rest in
    (
      es,
      later,
      le,
      end,
      e,
      subst (λ t. parse (command ∷ count ∷ t) ≡ with_additional later (apply_all es nothing)) e
          (parse-encode_all command count es later le end),
    )
