-- ===== src/Store/Programs/Accepted.antt =====
-- crates/breeze-store/src/programs.rs: which programs are stored.
use mathlib.Core.Path.{subst}
use breeze_core_native.Common.{
  ◌≤◌, Bool, true, false, not, Option, none, some, String, List, [], ◌∷◌, ltb, ◌==◌, if◌then◌else◌,
  find, any, length, All, Outcome, ok, err, panic, ◌>>◌, Bool-cases, Option-cases, inl, inr, ◌≡◌,
  refl, ◌↔◌, >>=-ok, ok-injective, ◌∙◌, arith,
}
use breeze_core_native.Common.Texts.{codes}
use breeze_core_native.Store.Control.{
  ControlRequest, operational_modes, contains, is_allowed_fan, in_range, ValidationError, validate,
  InBounds, validate_iff, Present,
}
use breeze_core_native.Store.Programs.{valid_hhmm}
use breeze_core_native.Store.Programs.Ingest.{
  ScheduleEntry, CurvePoint, CurveConfig, Program, ProgramSpec, ProgramError, bad_time,
  temperature_out_of_range, unknown_mode, unknown_fan_speed, program_kinds, name_max_chars,
  as_settings, check_favourite, normalised_entry, normalised_entries, check_points,
  normalised_curve, into_program, stored_as, checked_parts, sort, dedup, Checked,
}
use breeze_core_native.Store.Programs.Days.{
  IsAscending, sorted-IsAscending, sorted-same, any-sorted, find-none, none-find,
}

-- A point of a curve has a time of day and a temperature from 16 to 30 degrees.
abbrev pub IsPoint : CurvePoint → Type 0
IsPoint point = (valid_hhmm point.time ≡ true) × (in_range point.temperature ≡ true)

-- A curve's mode is one of the modes as it is written, and its fan speed is allowed.
abbrev pub IsCurve : CurveConfig → Type 0
IsCurve curve =
    (contains operational_modes curve.operational_mode ≡ true)
    × (is_allowed_fan curve.fan_speed ≡ true)
    × All IsPoint curve.points

module _ (to_uppercase : String → String) where
  -- Days from 0 to 6 in ascending order, a time of day, and settings in their bounds.
  abbrev pub IsEntry : ScheduleEntry → Type 0
  IsEntry entry =
      (any (λ d. ltb 6 d) entry.days ≡ false)
      × IsAscending entry.days
      × (valid_hhmm entry.time ≡ true)
      × InBounds to_uppercase entry.settings

  abbrev pub IsProgram : Program → Type 0
  IsProgram p =
      (1 ≤ length (codes p.name))
      × (length (codes p.name) ≤ name_max_chars)
      × (contains program_kinds p.kind ≡ true)
      × Present (InBounds to_uppercase) p.favourite
      × All IsEntry p.schedule
      × Present IsCurve p.curve

as_settings-ok : (m : Outcome ValidationError (Unit {0})) → (as_settings m ≡ ok tt) ↔ (m ≡ ok tt)
as_settings-ok (ok _) = (λ e. refl, λ e. refl)
as_settings-ok (err e) = (λ e. absurd cc, λ e. absurd cc)
as_settings-ok panic = (λ e. absurd cc, λ e. absurd cc)

module _ (to_uppercase : String → String) where
  as_settings-InBounds :
      (request : ControlRequest)
      → (as_settings (validate to_uppercase request) ≡ ok tt) ↔ InBounds to_uppercase request
  as_settings-InBounds request =
      ground
        (arith, as_settings-ok (validate to_uppercase request), validate_iff to_uppercase request)

  normalised_entry-IsEntry :
      (entry entry' : ScheduleEntry)
      → normalised_entry to_uppercase entry ≡ ok entry'
      → IsEntry to_uppercase entry'
  unfolding normalised_entry
  normalised_entry-IsEntry entry entry' e = elim (Option-cases (find (λ d. ltb 6 d) entry.days)) [
    | inr (bad, found) ↦ absurd (ground (arith, found, e))
    | inl none_bad ↦ elim (Bool-cases (valid_hhmm entry.time)) [
      | inr wrong ↦ absurd (ground (arith, none_bad, wrong, e))
      | inl time ↦
          let sorted : ScheduleEntry = record entry { days = dedup (sort entry.days) } in
          let e' : (as_settings (validate to_uppercase entry.settings) >> ok sorted) ≡ ok entry' =
            ground (arith, none_bad, time, e) in
          let (_, settled, same) =
            >>=-ok (as_settings (validate to_uppercase entry.settings)) (λ _. ok sorted) entry'
              e' in
          subst (IsEntry to_uppercase) (ok-injective sorted entry' same) (
            any-sorted (λ d. ltb 6 d) entry.days ∙ find-none (λ d. ltb 6 d) entry.days none_bad,
            sorted-IsAscending entry.days,
            time,
            (as_settings-InBounds entry.settings).0 settled,
          )
    ]
  ]

  normalised_entries-IsEntry :
      (entries entries' : List ScheduleEntry)
      → normalised_entries to_uppercase entries ≡ ok entries'
      → All (IsEntry to_uppercase) entries'
  unfolding normalised_entries
  normalised_entries-IsEntry [] entries' e =
      subst (All (IsEntry to_uppercase)) (ok-injective [] entries' e) tt
  normalised_entries-IsEntry (entry ∷ entries) entries' e =
      let (entry', first, e1) = >>=-ok (normalised_entry to_uppercase entry) _ entries' e in
      let (rest, later, e2) =
        >>=-ok (normalised_entries to_uppercase entries) (λ rest. ok (entry' ∷ rest)) entries' e1 in
      subst (All (IsEntry to_uppercase)) (ok-injective (entry' ∷ rest) entries' e2)
        (normalised_entry-IsEntry entry entry' first, normalised_entries-IsEntry entries rest later)

two_guards :
    {P : Type 0} (a b : Bool) (x y : ProgramError) (rest : Checked (Unit {0}))
    → (rest ≡ ok tt) ↔ P
    → ((if not a then err x else if not b then err y else rest) ≡ ok tt)
      ↔ (((a ≡ true) × (b ≡ true)) × P)
two_guards true true x y rest h = (λ e. ((refl, refl), h.0 e), λ p. h.1 p.1)
two_guards true false x y rest h = (λ e. absurd cc, λ p. absurd cc)
two_guards false b x y rest h = (λ e. absurd cc, λ p. absurd cc)

check_points_iff : (points : List CurvePoint) → (check_points points ≡ ok tt) ↔ All IsPoint points
unfolding check_points
check_points_iff [] = (λ _. tt, λ _. refl)
check_points_iff (point ∷ points) =
    two_guards (valid_hhmm point.time) (in_range point.temperature) (bad_time point.time)
      (temperature_out_of_range point.temperature) (check_points points) (check_points_iff points)

-- The three checks of a curve whose mode is in capital letters.
three_guards :
    {P : Type 0} (a b : Bool) (x y : ProgramError) (rest : Checked (Unit {0}))
    (curve' : CurveConfig) (stored : Option CurveConfig)
    → (rest ≡ ok tt) ↔ P
    → ((if not a then err x else if not b then err y else (rest >> ok (some curve'))) ≡ ok stored)
    → ((a ≡ true) × (b ≡ true)) × P × (some curve' ≡ stored)
three_guards true true x y rest curve' stored h e =
    let (_, passed, same) = >>=-ok rest (λ _. ok (some curve')) stored e in
    ((refl, refl), h.0 passed, ok-injective (some curve') stored same)
three_guards true false x y rest curve' stored h e = absurd cc
three_guards false b x y rest curve' stored h e = absurd cc

normalised_curve-IsCurve :
    (to_uppercase : String → String) (curve stored : Option CurveConfig)
    → normalised_curve to_uppercase curve ≡ ok stored
    → Present IsCurve stored
unfolding normalised_curve
normalised_curve-IsCurve to_uppercase none stored e =
    subst (Present IsCurve) (ok-injective none stored e) tt
normalised_curve-IsCurve to_uppercase (some curve) stored e =
    let mode = to_uppercase curve.operational_mode in
    let ((known, allowed), points, same) =
      three_guards (contains operational_modes mode) (is_allowed_fan curve.fan_speed)
        (unknown_mode mode) (unknown_fan_speed curve.fan_speed) (check_points curve.points)
        (record curve { operational_mode = mode }) stored (check_points_iff curve.points) e in
    subst (Present IsCurve) same (known, allowed, points)

module _ (to_uppercase : String → String) where
  entry-again :
      (entry : ScheduleEntry)
      → IsEntry to_uppercase entry
      → normalised_entry to_uppercase entry ≡ ok entry
  unfolding normalised_entry
  entry-again entry (days, ascending, time, bounds) = ground (
    arith,
    none-find (λ d. ltb 6 d) entry.days days,
    sorted-same entry.days ascending,
    (as_settings-InBounds to_uppercase entry.settings).1 bounds,
  )

  entries-again :
      (entries : List ScheduleEntry)
      → All (IsEntry to_uppercase) entries
      → normalised_entries to_uppercase entries ≡ ok entries
  unfolding normalised_entries
  entries-again [] h = refl
  entries-again (entry ∷ entries) h = rw (entry-again entry h.0, entries-again entries h.1) refl

favourite-InBounds :
    (to_uppercase : String → String) (favourite : Option ControlRequest)
    → (check_favourite to_uppercase favourite ≡ ok tt) ↔ Present (InBounds to_uppercase) favourite
favourite-InBounds to_uppercase none = (λ _. tt, λ _. refl)
favourite-InBounds to_uppercase (some request) = as_settings-InBounds to_uppercase request

curve-again :
    (to_uppercase : String → String) (curve : Option CurveConfig)
    → ((m : String) → contains operational_modes m ≡ true → to_uppercase m ≡ m)
    → Present IsCurve curve
    → normalised_curve to_uppercase curve ≡ ok curve
unfolding normalised_curve
curve-again to_uppercase none fixed h = refl
curve-again to_uppercase (some curve) fixed (known, allowed, points) =
    rw
      (fixed curve.operational_mode known, known, allowed, (check_points_iff curve.points).1 points)
      refl

-- What was sent, of a stored program.
abbrev pub spec_of : Program → ProgramSpec
spec_of p = record {
  name = p.name;
  enabled = p.enabled;
  unit_ids = p.unit_ids;
  kind = p.kind;
  favourite = p.favourite;
  schedule = p.schedule;
  curve = p.curve;
}

parts-IsProgram :
    (to_uppercase : String → String) (spec : ProgramSpec) (id : String) (p : Program)
    → 1 ≤ length (codes spec.name)
    → length (codes spec.name) ≤ name_max_chars
    → contains program_kinds spec.kind ≡ true
    → checked_parts to_uppercase spec id ≡ ok p
    → IsProgram to_uppercase p
unfolding checked_parts
parts-IsProgram to_uppercase spec id p named short known e =
    let (_, favourite, e1) = >>=-ok (check_favourite to_uppercase spec.favourite) _ p e in
    let (entries, schedule, e2) = >>=-ok (normalised_entries to_uppercase spec.schedule) _ p e1 in
    let (stored, curve, e3) = >>=-ok (normalised_curve to_uppercase spec.curve) _ p e2 in
    subst (IsProgram to_uppercase) (ok-injective (stored_as spec entries stored id) p e3) (
      named,
      short,
      known,
      (favourite-InBounds to_uppercase spec.favourite).0 favourite,
      normalised_entries-IsEntry to_uppercase spec.schedule entries schedule,
      normalised_curve-IsCurve to_uppercase spec.curve stored curve,
    )

-- Every program that is stored has a name of 1 to 64 characters and a known kind; its favourite's and
-- its entries' settings are in their bounds; each entry has a time of day and days from 0 to 6, in
-- ascending order and each once; its curve has one of the modes as it is written, an allowed fan speed
-- and points with a time of day and a temperature from 16 to 30 degrees.
pub into_program_sound :
    (to_uppercase : String → String) (spec : ProgramSpec) (id : String) (p : Program)
    → into_program to_uppercase spec id ≡ ok p
    → IsProgram to_uppercase p
unfolding into_program
into_program_sound to_uppercase spec id p e = elim (Bool-cases (length (codes spec.name) == 0)) [
  | inl empty ↦ absurd (ground (arith, empty, e))
  | inr named ↦ elim (Bool-cases (ltb name_max_chars (length (codes spec.name)))) [
    | inl long ↦ absurd (ground (arith, named, long, e))
    | inr short ↦ elim (Bool-cases (contains program_kinds spec.kind)) [
      | inr unknown ↦ absurd (ground (arith, named, short, unknown, e))
      | inl known ↦
          parts-IsProgram to_uppercase spec id p (ground arith) (ground arith) known
            (ground (arith, named, short, known, e))
    ]
  ]
]

-- A program that may be stored is accepted as it is: what is read back from the file and sent again
-- is stored unchanged, where `to_uppercase` leaves the names of the modes as they are.
pub into_program_again :
    (to_uppercase : String → String) (p : Program)
    → ((m : String) → contains operational_modes m ≡ true → to_uppercase m ≡ m)
    → IsProgram to_uppercase p
    → into_program to_uppercase (spec_of p) p.id ≡ ok p
unfolding into_program checked_parts
into_program_again to_uppercase p fixed (named, short, known, favourite, schedule, curve) =
    let name1 : (length (codes p.name) == 0) ≡ false = ground arith in
    let name2 : ltb name_max_chars (length (codes p.name)) ≡ false = ground arith in
    rw
      (
        name1,
        name2,
        known,
        (favourite-InBounds to_uppercase p.favourite).1 favourite,
        entries-again to_uppercase p.schedule schedule,
        curve-again to_uppercase p.curve fixed curve,
      )
      refl
