-- ===== src/Store/Tests/Stored.antt =====
-- Programs of crates/breeze-store on concrete values.
use breeze_core_native.Common.{ℕ, ◌*◌, ◌≡◌, refl, true, some, none, [], ◌∷◌, ok, String, arith}
use breeze_core_native.Common.Int.{pos}
use breeze_core_native.Common.Texts.{split_once}
use breeze_core_native.Auth.Clock.{finite, infinity}
use breeze_core_native.Store.Control.{validate, power_on}
use breeze_core_native.Store.Timers.{parse_u32}
use breeze_core_native.Store.Programs.{valid_hhmm, round_half, round_ratio}
use breeze_core_native.Store.Programs.Ingest.{
  ScheduleEntry, CurvePoint, CurveConfig, Program, ProgramSpec, normalised_entry,
  normalised_entries, normalised_curve, check_points, checked_parts, into_program, due_entries,
}
use breeze_core_native.Store.Programs.Accepted.{
  IsProgram, spec_of, into_program_sound, into_program_again,
}
use breeze_core_native.Store.Programs.Curve.{
  parse_i64, minutes_of_day, readable, sort_points, segment_at, curve_setpoint, curve_request,
}
use breeze_core_native.Store.Programs.Segments.{IsOnLine, curve_setpoint-IsOnLine}
use breeze_core_native.Store.Programs.Request.{curve_request-validate}

abbrev point : String → ℕ → CurvePoint
point time t = record { time = time; temperature = finite (pos (t * 1_000_000)) }

abbrev night : CurveConfig
night = record {
  operational_mode = "COOL";
  fan_speed = pos 60;
  points = point "22:00" 20 ∷ point "08:00" 24 ∷ [];
}

abbrev weekend : ScheduleEntry
weekend = record { days = 6 ∷ 5 ∷ 6 ∷ []; time = "07:30"; settings = power_on }

abbrev spec : ProgramSpec
spec = record {
  name = "night";
  enabled = true;
  unit_ids = [];
  kind = "curve";
  favourite = none;
  schedule = weekend ∷ [];
  curve = some night;
}

abbrev stored : Program
stored = record {
  name = "night";
  enabled = true;
  unit_ids = [];
  kind = "curve";
  favourite = none;
  schedule = record weekend { days = 5 ∷ 6 ∷ [] } ∷ [];
  curve = some night;
  id = "p1";
}

into_program_test : into_program (λ text. text) spec "p1" ≡ ok stored
unfolding into_program checked_parts normalised_entries normalised_entry normalised_curve
    check_points valid_hhmm validate
into_program_test = refl

into_program_sound_example : IsProgram (λ text. text) stored
into_program_sound_example = into_program_sound (λ text. text) spec "p1" stored into_program_test

into_program_again_example : into_program (λ text. text) (spec_of stored) "p1" ≡ ok stored
into_program_again_example =
    into_program_again (λ text. text) stored (λ m known. refl) into_program_sound_example

-- At 03:00 the clock is on the segment from 22:00 to 08:00.
curve_setpoint-IsOnLine_example :
    IsOnLine (sort_points (readable night.points)) 180 (curve_setpoint night.points 180)
unfolding readable minutes_of_day parse_i64 parse_u32 split_once
curve_setpoint-IsOnLine_example =
    curve_setpoint-IsOnLine night.points 180 (omega arith) into_program_sound_example.5.2
      (ground arith)

curve_setpoint_test :
    curve_setpoint (point "08:00" 24 ∷ point "22:00" 20 ∷ []) 180 ≡ some (finite (pos 22_000_000))
unfolding curve_setpoint segment_at round_ratio readable minutes_of_day parse_i64 parse_u32
    split_once
curve_setpoint_test = refl

-- Two points of the same minute take the whole day: at 23:00 the answer is of the segment between
-- them, not of the one that begins at 22:00.
doubled_test :
    curve_setpoint (point "08:00" 24 ∷ point "08:00" 25 ∷ point "22:00" 20 ∷ []) 1380
    ≡ some (finite (pos 24_500_000))
unfolding curve_setpoint segment_at round_ratio readable minutes_of_day parse_i64 parse_u32
    split_once
doubled_test = refl

infinity_test : round_half infinity ≡ finite (pos 30_000_000)
unfolding round_half
infinity_test = refl

curve_request-validate_example : validate (λ text. text) (curve_request night 180) ≡ ok tt
curve_request-validate_example =
    curve_request-validate (λ text. text) night 180 (λ m known. refl) into_program_sound_example.5

due_entries_test : due_entries (weekend ∷ record weekend { days = [] } ∷ []) 2 "07:30" ≡ 1 ∷ []
unfolding due_entries
due_entries_test = refl
