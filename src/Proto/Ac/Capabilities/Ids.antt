-- ===== src/Proto/Ac/Capabilities/Ids.antt =====
-- crates/breeze-proto/src/ac/capabilities.rs: the capability ids (`mod id`).
use breeze_core_native.Common.{ℕ}

abbrev pub swing_ud_angle : ℕ
swing_ud_angle = 0x0009

abbrev pub swing_lr_angle : ℕ
swing_lr_angle = 0x000A

abbrev pub breezeless : ℕ
breezeless = 0x0018

abbrev pub smart_eye : ℕ
smart_eye = 0x0030

abbrev pub wind_on_me : ℕ
wind_on_me = 0x0032

abbrev pub wind_off_me : ℕ
wind_off_me = 0x0033

abbrev pub self_clean : ℕ
self_clean = 0x0039

abbrev pub unknown_0040 : ℕ
unknown_0040 = 0x0040

abbrev pub breeze_away : ℕ
breeze_away = 0x0042

abbrev pub breeze_control : ℕ
breeze_control = 0x0043

abbrev pub fresh_air : ℕ
fresh_air = 0x004B

abbrev pub cascade : ℕ
cascade = 0x0059

abbrev pub flash : ℕ
flash = 0x0067

abbrev pub aux_fan_speed_control : ℕ
aux_fan_speed_control = 0x0093

abbrev pub aux_heat_fan_speed_control : ℕ
aux_heat_fan_speed_control = 0x0094

abbrev pub out_silent : ℕ
out_silent = 0x00CD

abbrev pub fan_speed_control : ℕ
fan_speed_control = 0x0210

abbrev pub preset_eco : ℕ
preset_eco = 0x0212

abbrev pub preset_freeze_protection : ℕ
preset_freeze_protection = 0x0213

abbrev pub modes : ℕ
modes = 0x0214

abbrev pub swing_modes : ℕ
swing_modes = 0x0215

abbrev pub energy : ℕ
energy = 0x0216

abbrev pub filter_remind : ℕ
filter_remind = 0x0217

abbrev pub aux_electric_heat : ℕ
aux_electric_heat = 0x0219

abbrev pub preset_turbo : ℕ
preset_turbo = 0x021A

abbrev pub anion : ℕ
anion = 0x021E

abbrev pub humidity : ℕ
humidity = 0x021F

abbrev pub fahrenheit : ℕ
fahrenheit = 0x0222

abbrev pub display_control : ℕ
display_control = 0x0224

abbrev pub temperatures : ℕ
temperatures = 0x0225

abbrev pub buzzer : ℕ
buzzer = 0x022C
