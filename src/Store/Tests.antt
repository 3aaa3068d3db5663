-- ===== src/Store/Tests.antt =====
-- The stored documents on concrete values.
pub mod Stored
use breeze_core_native.Common.{
  ℕ, ◌+◌, ◌*◌, ◌≤◌, ◌<◌, ◌≡◌, ◌↔◌, ◌⊎◌, refl, true, false, some, none, [], ◌∷◌, ok, err, ltb,
  if◌then◌else◌, is_ok,
}
use breeze_core_native.Common.Int.{pos}
use breeze_core_native.Common.Texts.{trim, split_once}
use breeze_core_native.Auth.Clock.{finite}
use breeze_core_native.Store.Control.{
  IsSettable, ControlRequest, power_off, power_on, validate, temperature_not_half_degree, InBounds,
  validate_iff,
}
use breeze_core_native.Store.Config.{
  UnitConfig, AppConfig, add_or_update, add_or_update_unit, find_id, same_id, updated,
  add_or_update_unit-finds,
}
use breeze_core_native.Store.Timers.{
  LocalTime, Timer, sleep, start, second, minute, hour, day, parse_hhmm, parse_u32, build_timer,
  build_start_timer, seconds_remaining, is_due, missed,
}
use breeze_core_native.Store.Programs.{round_half, round_ratio, valid_hhmm}
use breeze_core_native.Store.Timers.Moments.{
  build_timer_iff, build_timer-fires, build_start_timer-fires,
}

abbrev eco : ControlRequest
eco = record power_on { target_temperature = some (finite (pos 22_500_000)) }

validate_test :
    validate (λ text. text) (record eco { target_temperature = some (finite (pos 22_400_000)) })
    ≡ err temperature_not_half_degree
unfolding validate
validate_test = refl

abbrev bedroom : UnitConfig
bedroom = record {
  name = "bedroom";
  ip = "192.0.2.1";
  port = 6444;
  id = pos 7;
  token = some "t";
  key = some "k";
}

abbrev config : AppConfig
config = record { api_key = none; units = bedroom ∷ [] }

-- Found again on the network, without its credentials.
abbrev found : UnitConfig
found = record bedroom { ip = "192.0.2.9"; token = none; key = none }

add_or_update_unit_test :
    add_or_update_unit config found
    ≡ (record config { units = record bedroom { ip = "192.0.2.9" } ∷ [] }, false)
unfolding add_or_update_unit add_or_update
add_or_update_unit_test = refl

parse_hhmm_test : parse_hhmm " 7:30 " ≡ some (7 * hour + 30 * minute)
unfolding parse_hhmm trim split_once parse_u32
parse_hhmm_test = refl

-- A sign is read as part of the number.
parse_hhmm_sign_test : parse_hhmm "+7:+5" ≡ some (7 * hour + 5 * minute)
unfolding parse_hhmm trim split_once parse_u32
parse_hhmm_sign_test = refl

-- Half to even.
round_half_test : round_half (finite (pos 20_250_000)) ≡ finite (pos 20_000_000)
unfolding round_half round_ratio
round_half_test = refl

valid_hhmm_test : valid_hhmm "7:30" ≡ false
unfolding valid_hhmm
valid_hhmm_test = refl

-- A stand-in for chrono that reads each text as the same moment.
abbrev reads : ℕ → LocalTime
reads moment = record { format = λ t. "then"; parse_from_str = λ text. some moment }

abbrev asleep : Timer
asleep = record {
  id = "t1";
  unit_ids = [];
  minutes = 30;
  created_at = "then";
  fires_at = "then";
  settings = power_off;
  label = "";
  kind = sleep;
}

build_timer-fires_example :
    (is_due (reads (1800 * second)) asleep (1799 * second) ≡ ltb (1800 * second) (1800 * second))
    × (seconds_remaining (reads (1800 * second)) asleep 5 ≤ 1800)
    × (1800 ≤ seconds_remaining (reads (1800 * second)) asleep 5 + 1)
    × (missed (reads (1800 * second)) asleep (1799 * second) ≡ false)
unfolding build_timer
build_timer-fires_example =
    build_timer-fires (reads (1800 * second)) "t1" [] 30 none "" 5 (1799 * second) asleep refl refl

abbrev homecoming : Timer
homecoming = record asleep { minutes = 1890; settings = power_on; kind = start }
