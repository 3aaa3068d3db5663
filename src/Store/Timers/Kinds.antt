-- ===== src/Store/Timers/Kinds.antt =====
-- Which timers of crates/breeze-store/src/timers.rs a new one displaces.
use text.Mathlib.TextEquality.{eq_iff}
use breeze_core_native.Common.{
  ℕ, ◌+◌, ◌≤◌, ◌≡◌, refl, Bool, true, false, not, ◌&&◌, ◌||◌, String, List, [], ◌∷◌, ◌++◌, arith,
  any, retain, if◌then◌else◌,
}
use breeze_core_native.Common.Texts.{str_eq}
use breeze_core_native.Store.Timers.{
  Timer, TimersDoc, TimerKind, sleep, start, kind_eq, covers, replace_for_units,
}

-- How many timers of the kind cover the unit.
abbrev pub promises : TimerKind → String → List Timer → ℕ
promises kind unit [] = 0
promises kind unit (t ∷ ts) =
    (if kind_eq t.kind kind && covers t unit then 1 else 0) + promises kind unit ts

pub promises-append :
    (kind : TimerKind) (unit : String) (xs ys : List Timer)
    → promises kind unit (xs ++ ys) ≡ promises kind unit xs + promises kind unit ys
promises-append kind unit [] ys = omega arith
promises-append kind unit (x ∷ xs) ys = omega (arith, promises-append kind unit xs ys)

pub kind_eq_refl : (k : TimerKind) → kind_eq k k ≡ true
kind_eq_refl sleep = refl
kind_eq_refl start = refl

pub kind_eq_sym : (a b : TimerKind) → kind_eq a b ≡ kind_eq b a
kind_eq_sym sleep sleep = refl
kind_eq_sym start start = refl
kind_eq_sym sleep start = refl
kind_eq_sym start sleep = refl

kind_eq_other : (a b c : TimerKind) → kind_eq c b ≡ false → kind_eq a b ≡ true → kind_eq a c ≡ false
kind_eq_other sleep sleep start e f = refl
kind_eq_other start start sleep e f = refl
kind_eq_other sleep sleep sleep e f = e
kind_eq_other start start start e f = e
kind_eq_other sleep start c e f = absurd (ground arith)
kind_eq_other start sleep c e f = absurd (ground arith)

any-false :
    (t : Timer) (unit_ids : List String) (unit : String)
    → any (λ u. str_eq u unit) unit_ids ≡ true
    → any (covers t) unit_ids ≡ false
    → covers t unit ≡ false
any-false t [] unit h e = absurd (ground arith)
any-false t (u ∷ us) unit h e = ground (arith, any-false t us unit, eq_iff u unit)

abbrev keeps : List String → TimerKind → Timer → Bool
keeps unit_ids kind t = not (kind_eq t.kind kind) || not (any (covers t) unit_ids)

retain-promises :
    (unit_ids : List String) (kind other : TimerKind) (unit : String) (timers : List Timer)
    → (promises other unit (retain (keeps unit_ids kind) timers) ≤ promises other unit timers)
      × (kind_eq other kind ≡ false
          → promises other unit (retain (keeps unit_ids kind) timers) ≡ promises other unit timers)
      × (any (λ u. str_eq u unit) unit_ids ≡ true
          → promises kind unit (retain (keeps unit_ids kind) timers) ≡ 0)
retain-promises unit_ids kind other unit [] = (omega arith, λ e. omega arith, λ e. omega arith)
retain-promises unit_ids kind other unit (t ∷ ts) =
    let (le, same, none_left) = retain-promises unit_ids kind other unit ts in
    (
      ground (arith, le),
      λ e. ground (arith, same, kind_eq_other t.kind kind other),
      λ e. ground (arith, none_left, any-false t unit_ids unit),
    )

-- A new timer displaces, of its own kind, every timer that covers one of its units, so that none is
-- left; it adds no promise, and the timers of the other kind stay.
pub replace_for_units-promises :
    (doc : TimersDoc) (unit_ids : List String) (kind other : TimerKind) (unit : String)
    → (promises other unit (replace_for_units doc unit_ids kind).0.timers
        ≤ promises other unit doc.timers)
      × (kind_eq other kind ≡ false
          → promises other unit (replace_for_units doc unit_ids kind).0.timers
            ≡ promises other unit doc.timers)
      × (any (λ u. str_eq u unit) unit_ids ≡ true
          → promises kind unit (replace_for_units doc unit_ids kind).0.timers ≡ 0)
unfolding replace_for_units
replace_for_units-promises doc unit_ids kind other unit =
    retain-promises unit_ids kind other unit doc.timers

retain-all : (kind : TimerKind) (timers : List Timer) → retain (keeps [] kind) timers ≡ timers
retain-all kind [] = refl
retain-all kind (t ∷ ts) = ground (arith, retain-all kind ts)

-- A new timer for every unit (an empty list of units) displaces nothing.
pub replace_for_units-empty :
    (doc : TimersDoc) (kind : TimerKind) → replace_for_units doc [] kind ≡ (doc, 0)
unfolding replace_for_units
replace_for_units-empty doc kind = ground (arith, retain-all kind doc.timers)
