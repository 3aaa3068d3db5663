-- ===== src/Store/Programs/Ingest.antt =====
-- crates/breeze-store/src/programs.rs and src/models.rs: stored programs, and what is checked and
-- normalised before one is stored. `to_uppercase` is a parameter, as in Store/Control.antt.
use breeze_core_native.Common.{
  ℕ, suc, Bool, true, false, not, ◌||◌, ◌&&◌, Option, none, some, String, List, [], ◌∷◌, ltb, leb,
  ◌==◌, if◌then◌else◌, find, any, retain, length, Outcome, ok, err, panic, ◌>>=◌, ◌>>◌,
}
use breeze_core_native.Common.Int.{ℤ}
use breeze_core_native.Common.Texts.{str_eq, codes}
use breeze_core_native.Auth.Clock.{F64}
use breeze_core_native.Store.Control.{
  ControlRequest, ValidationError, operational_modes, contains, is_allowed_fan, in_range, validate,
}
use breeze_core_native.Store.Programs.{valid_hhmm}

pub record ScheduleEntry : Type 0 where
  pub days : List ℕ
  pub time : String
  pub settings : ControlRequest

pub record CurvePoint : Type 0 where
  pub time : String
  pub temperature : F64

pub record CurveConfig : Type 0 where
  pub operational_mode : String
  pub fan_speed : ℤ
  pub points : List CurvePoint

pub record Program : Type 0 where
  pub name : String
  pub enabled : Bool
  pub unit_ids : List String
  pub kind : String
  pub favourite : Option ControlRequest
  pub schedule : List ScheduleEntry
  pub curve : Option CurveConfig
  pub id : String

pub record ProgramsDoc : Type 0 where
  pub programs : List Program

-- What a client sends: a program without its id.
pub record ProgramSpec : Type 0 where
  pub name : String
  pub enabled : Bool
  pub unit_ids : List String
  pub kind : String
  pub favourite : Option ControlRequest
  pub schedule : List ScheduleEntry
  pub curve : Option CurveConfig

pub data ProgramError : Type 0 where
  empty_name : ProgramError
  name_too_long : ℕ → ProgramError
  unknown_kind : String → ProgramError
  bad_time : String → ProgramError
  bad_day : ℕ → ProgramError
  temperature_out_of_range : F64 → ProgramError
  unknown_mode : String → ProgramError
  unknown_fan_speed : ℤ → ProgramError
  settings : ValidationError → ProgramError

abbrev pub program_kinds : List String
program_kinds = "favourite" ∷ "schedule" ∷ "curve" ∷ []

abbrev pub name_max_chars : ℕ
name_max_chars = 64

-- `targets`: a program without units is for all of them.
unfoldable pub targets : Program → List String → List String
targets p all = if length p.unit_ids == 0 then all else p.unit_ids

-- `sort_unstable`: the numbers in ascending order.
abbrev pub insert_day : ℕ → List ℕ → List ℕ
insert_day d [] = d ∷ []
insert_day d (x ∷ xs) = let rest = insert_day d xs in if leb d x then d ∷ x ∷ xs else x ∷ rest

abbrev pub sort : List ℕ → List ℕ
sort [] = []
sort (d ∷ ds) = insert_day d (sort ds)

-- `dedup`: of equal numbers that stand side by side the first.
abbrev pub dedup_after : ℕ → List ℕ → List ℕ
dedup_after last [] = []
dedup_after last (d ∷ ds) = let rest = dedup_after d ds in if last == d then rest else d ∷ rest

abbrev pub dedup : List ℕ → List ℕ
dedup [] = []
dedup (d ∷ ds) = d ∷ dedup_after d ds

abbrev pub Checked : Type 0 → Type 0
Checked A = Outcome ProgramError A

-- `map_err(ProgramError::Settings)`.
abbrev pub as_settings : Outcome ValidationError (Unit {0}) → Checked (Unit {0})
as_settings (ok _) = ok tt
as_settings (err e) = err (settings e)
as_settings panic = panic

abbrev pub check_favourite : (String → String) → Option ControlRequest → Checked (Unit {0})
check_favourite to_uppercase none = ok tt
check_favourite to_uppercase (some request) = as_settings (validate to_uppercase request)

unfoldable pub normalised_entry : (String → String) → ScheduleEntry → Checked ScheduleEntry
normalised_entry to_uppercase entry = elim (find (λ d. ltb 6 d) entry.days) [
  | some bad ↦ err (bad_day bad)
  | none ↦ if not (valid_hhmm entry.time) then err (bad_time entry.time) else do
    as_settings (validate to_uppercase entry.settings)
    ok (record entry { days = dedup (sort entry.days) })
]

unfoldable pub normalised_entries :
    (String → String) → List ScheduleEntry → Checked (List ScheduleEntry)
normalised_entries to_uppercase [] = ok []
normalised_entries to_uppercase (entry ∷ entries) = do
  entry' ← normalised_entry to_uppercase entry
  entries' ← normalised_entries to_uppercase entries
  ok (entry' ∷ entries')

unfoldable pub check_points : List CurvePoint → Checked (Unit {0})
check_points [] = ok tt
check_points (point ∷ points) =
    let rest = check_points points in
    if not (valid_hhmm point.time)
    then err (bad_time point.time)
    else if not (in_range point.temperature)
    then err (temperature_out_of_range point.temperature)
    else rest

unfoldable pub normalised_curve :
    (String → String) → Option CurveConfig → Checked (Option CurveConfig)
normalised_curve to_uppercase none = ok none
normalised_curve to_uppercase (some curve) =
    let mode = to_uppercase curve.operational_mode in
    if not (contains operational_modes mode)
    then err (unknown_mode mode)
    else if not (is_allowed_fan curve.fan_speed)
    then err (unknown_fan_speed curve.fan_speed)
    else do check_points curve.points; ok (some (record curve { operational_mode = mode }))

abbrev pub stored_as : ProgramSpec → List ScheduleEntry → Option CurveConfig → String → Program
stored_as spec schedule curve id = record {
  name = spec.name;
  enabled = spec.enabled;
  unit_ids = spec.unit_ids;
  kind = spec.kind;
  favourite = spec.favourite;
  schedule = schedule;
  curve = curve;
  id = id;
}

-- What is checked of a program with a good name and a known kind.
unfoldable pub checked_parts : (String → String) → ProgramSpec → String → Checked Program
checked_parts to_uppercase spec id = do
  check_favourite to_uppercase spec.favourite
  schedule ← normalised_entries to_uppercase spec.schedule
  curve ← normalised_curve to_uppercase spec.curve
  ok (stored_as spec schedule curve id)

unfoldable pub into_program : (String → String) → ProgramSpec → String → Checked Program
into_program to_uppercase spec id =
    let chars = length (codes spec.name) in
    if chars == 0
    then err empty_name
    else if ltb name_max_chars chars
    then err (name_too_long chars)
    else if not (contains program_kinds spec.kind)
    then err (unknown_kind spec.kind)
    else checked_parts to_uppercase spec id

-- The entries' indices that are due, from the one of the first on. The day of the week, Monday first,
-- and the text of the clock are those of `now`.
abbrev pub due_from : ℕ → List ScheduleEntry → ℕ → String → List ℕ
due_from i [] weekday hhmm = []
due_from i (entry ∷ entries) weekday hhmm =
    let rest = due_from (suc i) entries weekday hhmm in
    let on_day = length entry.days == 0 || any (λ d. d == weekday) entry.days in
    if on_day && str_eq entry.time hhmm then i ∷ rest else rest

unfoldable pub due_entries : List ScheduleEntry → ℕ → String → List ℕ
due_entries entries weekday hhmm = due_from 0 entries weekday hhmm

unfoldable pub get : ProgramsDoc → String → Option Program
get doc program_id = find (λ p. str_eq p.id program_id) doc.programs

abbrev pub replaced : List Program → String → Program → List Program × Bool
replaced [] program_id updated = ([], false)
replaced (p ∷ ps) program_id updated =
    let (rest, found) = replaced ps program_id updated in
    if str_eq p.id program_id then (updated ∷ ps, true) else (p ∷ rest, found)

unfoldable pub replace : ProgramsDoc → String → Program → ProgramsDoc × Bool
replace doc program_id updated =
    let (programs, found) = replaced doc.programs program_id updated in
    (record { programs = programs }, found)

unfoldable pub remove : ProgramsDoc → String → ProgramsDoc × Bool
remove doc program_id =
    let kept = retain (λ p. not (str_eq p.id program_id)) doc.programs in
    (record { programs = kept }, not (length kept == length doc.programs))
