-- ===== src/Proto/Ac/Capabilities/Merge.antt =====
-- crates/breeze-proto/src/ac/capabilities.rs: the second page of a reply folded into the first.
use breeze_core_native.Common.{ℕ, ◌||◌, Option, none, some, List, foldl}
use breeze_core_native.Proto.Ac.Capabilities.{Capabilities, insert}

abbrev pub keep_or_take : Option ℕ → Option ℕ → Option ℕ
keep_or_take none theirs = theirs
keep_or_take (some mine) theirs = some mine

-- `BTreeSet::extend`.
abbrev pub extend : List ℕ → List ℕ → List ℕ
extend ids others = foldl (λ set id. insert id set) ids others

unfoldable pub merge : Capabilities → Capabilities → Capabilities
merge c other = record {
  cool_mode = c.cool_mode || other.cool_mode;
  heat_mode = c.heat_mode || other.heat_mode;
  dry_mode = c.dry_mode || other.dry_mode;
  auto_mode = c.auto_mode || other.auto_mode;
  aux_heat_mode = c.aux_heat_mode || other.aux_heat_mode;
  aux_mode = c.aux_mode || other.aux_mode;
  aux_electric_heat = c.aux_electric_heat || other.aux_electric_heat;
  swing_horizontal = c.swing_horizontal || other.swing_horizontal;
  swing_vertical = c.swing_vertical || other.swing_vertical;
  swing_horizontal_angle = c.swing_horizontal_angle || other.swing_horizontal_angle;
  swing_vertical_angle = c.swing_vertical_angle || other.swing_vertical_angle;
  fan_silent = c.fan_silent || other.fan_silent;
  fan_low = c.fan_low || other.fan_low;
  fan_medium = c.fan_medium || other.fan_medium;
  fan_high = c.fan_high || other.fan_high;
  fan_auto = c.fan_auto || other.fan_auto;
  fan_custom = c.fan_custom || other.fan_custom;
  saw_fan_capability = c.saw_fan_capability || other.saw_fan_capability;
  eco = c.eco || other.eco;
  turbo_cool = c.turbo_cool || other.turbo_cool;
  turbo_heat = c.turbo_heat || other.turbo_heat;
  freeze_protection = c.freeze_protection || other.freeze_protection;
  display_control = c.display_control || other.display_control;
  anion = c.anion || other.anion;
  filter_notice = c.filter_notice || other.filter_notice;
  filter_clean = c.filter_clean || other.filter_clean;
  humidity_auto_set = c.humidity_auto_set || other.humidity_auto_set;
  humidity_manual_set = c.humidity_manual_set || other.humidity_manual_set;
  self_clean = c.self_clean || other.self_clean;
  breeze_away = c.breeze_away || other.breeze_away;
  breeze_control = c.breeze_control || other.breeze_control;
  breezeless = c.breezeless || other.breezeless;
  buzzer = c.buzzer || other.buzzer;
  fahrenheit = c.fahrenheit || other.fahrenheit;
  energy_stats = c.energy_stats || other.energy_stats;
  smart_eye = c.smart_eye || other.smart_eye;
  wind_on_me = c.wind_on_me || other.wind_on_me;
  wind_off_me = c.wind_off_me || other.wind_off_me;
  fresh_air = c.fresh_air || other.fresh_air;
  cascade = c.cascade || other.cascade;
  flash = c.flash || other.flash;
  out_silent = c.out_silent || other.out_silent;
  aux_fan_speed = c.aux_fan_speed || other.aux_fan_speed;
  aux_heat_fan_speed = c.aux_heat_fan_speed || other.aux_heat_fan_speed;
  cool_min_temperature = keep_or_take c.cool_min_temperature other.cool_min_temperature;
  cool_max_temperature = keep_or_take c.cool_max_temperature other.cool_max_temperature;
  auto_min_temperature = keep_or_take c.auto_min_temperature other.auto_min_temperature;
  auto_max_temperature = keep_or_take c.auto_max_temperature other.auto_max_temperature;
  heat_min_temperature = keep_or_take c.heat_min_temperature other.heat_min_temperature;
  heat_max_temperature = keep_or_take c.heat_max_temperature other.heat_max_temperature;
  decimals = c.decimals || other.decimals;
  additional = other.additional;
  unknown_ids = extend c.unknown_ids other.unknown_ids;
}
