-- ===== src/Store/Timers/Moments.antt =====
-- When the timers of crates/breeze-store/src/timers.rs fire.
use breeze_core_native.Common.{
  ℕ, ◌+◌, ◌*◌, ◌/◌, ◌≤◌, ◌<◌, ◌≡◌, ◌↔◌, true, false, Option, some, String, List, arith, length, ok,
  is_ok, ltb,
}
use breeze_core_native.Store.Control.{ControlRequest, power_on}
use breeze_core_native.Store.Timers.{
  second, minute, day, LocalTime, Timer, parse_hhmm, build_timer, build_start_timer,
  seconds_remaining, is_due, missed,
}

-- A time written with whole seconds and read back.
abbrev pub ReadsBack : LocalTime → ℕ → Type 0
ReadsBack local t = local.parse_from_str (local.format t) ≡ some (t / second * second)

module _ (local : LocalTime) where
  -- A sleep timer is built exactly for 1 to 1440 minutes and at most 64 units.
  pub build_timer_iff :
      (id : String) (unit_ids : List String) (minutes : ℕ) (settings : Option ControlRequest)
      (label : String) (now : ℕ)
      → (is_ok (build_timer local id unit_ids minutes settings label now) ≡ true)
        ↔ ((1 ≤ minutes) × (minutes ≤ 1440) × (length unit_ids ≤ 64))
  unfolding build_timer
  build_timer_iff id unit_ids minutes settings label now = (λ e. ground arith, λ h. ground arith)

  -- A sleep timer that was asked for at `now` is due exactly when less than a second is left until the
  -- whole second of its moment, or none; at `now` it has its minutes left to count down, or one second
  -- less; and it is never missed. The time that was written is read back with whole seconds.
  pub build_timer-fires :
      (id : String) (unit_ids : List String) (minutes : ℕ) (settings : Option ControlRequest)
      (label : String) (now later : ℕ) (t : Timer)
      → ReadsBack local (now + minutes * minute)
      → build_timer local id unit_ids minutes settings label now ≡ ok t
      → (is_due local t later ≡ ltb ((now + minutes * minute) / second * second) (later + second))
        × (seconds_remaining local t now ≤ minutes * 60)
        × (minutes * 60 ≤ seconds_remaining local t now + 1)
        × (missed local t later ≡ false)
  unfolding build_timer is_due seconds_remaining missed
  build_timer-fires id unit_ids minutes settings label now later t reads e =
      (ground arith, ground arith, ground arith, ground arith)

  -- A scheduled start that is built is at the given time of day, at most 30 days after the day of
  -- `now`, and after `now`; it switches the unit on; and it is missed exactly after 15 minutes from
  -- the whole second of its moment.
  pub build_start_timer-fires :
      (id : String) (unit_ids : List String) (days time : ℕ) (at label : String) (now later : ℕ)
      (t : Timer)
      → parse_hhmm at ≡ some time
      → ReadsBack local ((now / day + days) * day + time)
      → build_start_timer local id unit_ids days at label now ≡ ok t
      → (days ≤ 30)
        × (now < (now / day + days) * day + time)
        × (t.settings ≡ power_on)
        × (missed local t later
            ≡ ltb (((now / day + days) * day + time) / second * second + 15 * minute) later)
  unfolding build_start_timer missed
  build_start_timer-fires id unit_ids days time at label now later t parsed reads e =
      (ground arith, ground arith, ground arith, ground arith)

-- A parsed time of day is before midnight and a whole number of minutes.
pub parse_hhmm-bound :
    (at : String) (time : ℕ)
    → parse_hhmm at ≡ some time
    → (time < day) × (time / minute * minute ≡ time)
unfolding parse_hhmm
parse_hhmm-bound at time e = ground arith
