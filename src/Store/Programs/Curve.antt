-- ===== src/Store/Programs/Curve.antt =====
-- crates/breeze-store/src/programs.rs: the temperature that a curve asks for, `minutes_of_day` and
-- `curve_setpoint`. Temperatures are millionths of a degree and the arithmetic on them is exact, where
-- the program's is that of `f64`.
use breeze_core_native.Common.{
  ℕ, ◌+◌, ◌-◌, ◌*◌, ◌%◌, Bool, ◌&&◌, Option, none, some, String, List, [], ◌∷◌, ltb, leb, ◌==◌,
  if◌then◌else◌, find,
}
use breeze_core_native.Common.Texts.{codes, split_once}
use breeze_core_native.Auth.Clock.{F64, finite, infinity, neg_infinity, nan}
use breeze_core_native.Common.Int.{pos, ◌+ℤ◌, ◌-ℤ◌, times_ℕ}
use breeze_core_native.Store.Timers.{parse_u32, some_digits}
use breeze_core_native.Store.Control.{ControlRequest, power_on}
use breeze_core_native.Store.Programs.{round_ratio, round_half}
use breeze_core_native.Store.Programs.Ingest.{CurvePoint, CurveConfig}

abbrev minutes_per_day : ℕ
minutes_per_day = 1440

abbrev unless_negative : Option ℕ → Option ℕ
unless_negative none = none
unless_negative (some n) = if n == 0 then some 0 else none

-- `i64::from_str`, where it is not negative; a number that overflows is out of range as well.
unfoldable pub parse_i64 : List ℕ → Option ℕ
parse_i64 [] = none
parse_i64 (c ∷ cs) = if c == b'-' then unless_negative (some_digits cs) else parse_u32 (c ∷ cs)

abbrev pub in_day : Option ℕ → Option ℕ → Option ℕ
in_day (some h) (some m) = if ltb h 24 && ltb m 60 then some (h * 60 + m) else none
in_day _ _ = none

abbrev pub of_parts : Option (List ℕ × List ℕ) → Option ℕ
of_parts none = none
of_parts (some (h, m)) = in_day (parse_i64 h) (parse_i64 m)

unfoldable pub minutes_of_day : String → Option ℕ
minutes_of_day hhmm = of_parts (split_once b':' (codes hhmm))

-- A point whose time can be read: its minute and its temperature.
abbrev pub Point : Type 0
Point = ℕ × F64

abbrev pub with_minutes : Option ℕ → F64 → List Point → List Point
with_minutes none t points = points
with_minutes (some m) t points = (m, t) ∷ points

unfoldable pub readable : List CurvePoint → List Point
readable [] = []
readable (p ∷ ps) = with_minutes (minutes_of_day p.time) p.temperature (readable ps)

-- `sort_by_key`: by the minute, points of the same minute in their order.
abbrev pub insert_point : Point → List Point → List Point
insert_point p [] = p ∷ []
insert_point p (q ∷ qs) =
    let rest = insert_point p qs in if leb p.0 q.0 then p ∷ q ∷ qs else q ∷ rest

abbrev pub sort_points : List Point → List Point
sort_points [] = []
sort_points (p ∷ ps) = insert_point p (sort_points ps)

-- `rem_euclid` of a difference of two minutes of a day.
abbrev pub minutes_from : ℕ → ℕ → ℕ
minutes_from a b = (b + minutes_per_day - a) % minutes_per_day

abbrev pub span_of : ℕ → ℕ → ℕ
span_of a b = let s = minutes_from a b in if s == 0 then minutes_per_day else s

abbrev pub covers : ℕ → Point × Point → Bool
covers mins (a, b) = ltb (minutes_from a.0 mins) (span_of a.0 b.0)

abbrev pub next_point : Point → List Point → Point
next_point first [] = first
next_point first (q ∷ qs) = q

-- Each point with the one behind it, the last with the first.
abbrev pub segments : Point → List Point → List (Point × Point)
segments first [] = []
segments first (p ∷ ps) = (p, next_point first ps) ∷ segments first ps

unfoldable pub segment_at : ℕ → Point → List Point → Option (Point × Point)
segment_at mins first points = find (covers mins) (segments first points)

-- `round_half(at + (bt - at) * frac)` with the fraction `off / span` of the way. Where a temperature is
-- not finite this is the arithmetic of `f64`: an infinity less an infinity, and one times 0, is no number.
abbrev pub between : F64 → F64 → ℕ → ℕ → F64
between (finite a) (finite b) off span =
    finite (pos (round_ratio (times_ℕ a span +ℤ times_ℕ (b -ℤ a) off) span))
between (finite a) infinity off span = round_half (if off == 0 then nan else infinity)
between (finite a) neg_infinity off span = round_half (if off == 0 then nan else neg_infinity)
between _ _ off span = round_half nan

abbrev pub on_segment : ℕ → Point → Option (Point × Point) → Option F64
on_segment mins first none = some (round_half first.1)
on_segment mins first (some (a, b)) =
    some (between a.1 b.1 (minutes_from a.0 mins) (span_of a.0 b.0))

abbrev pub sorted_setpoint : ℕ → List Point → Option F64
sorted_setpoint mins [] = none
sorted_setpoint mins (p ∷ []) = some (round_half p.1)
sorted_setpoint mins (p ∷ q ∷ ps) = on_segment mins p (segment_at mins p (p ∷ q ∷ ps))

-- `mins` is the minute of the day of `now`.
unfoldable pub curve_setpoint : List CurvePoint → ℕ → Option F64
curve_setpoint points mins = sorted_setpoint mins (sort_points (readable points))

unfoldable pub curve_request : CurveConfig → ℕ → ControlRequest
curve_request curve mins = record power_on {
  operational_mode = some curve.operational_mode;
  fan_speed = some curve.fan_speed;
  target_temperature = curve_setpoint curve.points mins;
}
