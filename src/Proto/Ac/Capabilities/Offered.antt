-- ===== src/Proto/Ac/Capabilities/Offered.antt =====
-- crates/breeze-proto/src/ac/capabilities.rs: what a client may offer for a unit. A temperature is a
-- number of half degrees.
use breeze_core_native.Common.{
  ℕ, min, max, Bool, true, false, ◌&&◌, ◌||◌, Option, none, some, String, List, [], ◌∷◌, map,
  if◌then◌else◌,
}
use breeze_core_native.Common.Texts.{str_eq}
use breeze_core_native.Proto.Ac.Capabilities.{Capabilities}

abbrev fan : Capabilities → Bool → Bool
fan c named = if c.saw_fan_capability then named || c.fan_custom else false

unfoldable pub supports_fan_silent : Capabilities → Bool
supports_fan_silent c = fan c c.fan_silent

unfoldable pub supports_fan_low : Capabilities → Bool
supports_fan_low c = if c.saw_fan_capability then fan c c.fan_low else true

unfoldable pub supports_fan_medium : Capabilities → Bool
supports_fan_medium c = if c.saw_fan_capability then fan c c.fan_medium else true

unfoldable pub supports_fan_high : Capabilities → Bool
supports_fan_high c = if c.saw_fan_capability then fan c c.fan_high else true

unfoldable pub supports_fan_auto : Capabilities → Bool
supports_fan_auto c = if c.saw_fan_capability then fan c c.fan_auto else true

abbrev pub swing_both : Capabilities → Bool
swing_both c = c.swing_horizontal && c.swing_vertical

abbrev pub turbo : Capabilities → Bool
turbo c = c.turbo_cool || c.turbo_heat

abbrev or_default : ℕ → Option ℕ → ℕ
or_default d none = d
or_default d (some t) = t

unfoldable pub min_temperature : Capabilities → ℕ
min_temperature c =
    min (or_default 32 c.cool_min_temperature)
      (min (or_default 32 c.auto_min_temperature) (or_default 32 c.heat_min_temperature))

unfoldable pub max_temperature : Capabilities → ℕ
max_temperature c =
    max (or_default 60 c.cool_max_temperature)
      (max (or_default 60 c.auto_max_temperature) (or_default 60 c.heat_max_temperature))

-- `if offered { list.push(name) }`, of a list that is built in order.
abbrev pub pushed : Bool → String → List String → List String
pushed offered name later = if offered then name ∷ later else later

unfoldable pub operational_modes : Capabilities → List String
operational_modes c =
    "FAN_ONLY"
    ∷ pushed c.dry_mode "DRY"
        (pushed c.cool_mode "COOL" (pushed c.heat_mode "HEAT" (pushed c.auto_mode "AUTO" [])))

unfoldable pub swing_modes : Capabilities → List String
swing_modes c =
    "OFF"
    ∷ pushed c.swing_horizontal "HORIZONTAL"
        (pushed c.swing_vertical "VERTICAL" (pushed (swing_both c) "BOTH" []))

unfoldable pub fan_speeds : Capabilities → List String
fan_speeds c = pushed (supports_fan_silent c) "SILENT" (
    pushed (supports_fan_low c) "LOW" (
      pushed (supports_fan_medium c) "MEDIUM" (
        pushed (supports_fan_high c) "HIGH"
          (pushed (supports_fan_auto c) "AUTO" (pushed c.fan_custom "MAX" [])))))

unfoldable pub fan_value : String → ℕ
fan_value name =
    if str_eq name "SILENT"
    then 20
    else if str_eq name "LOW"
    then 40
    else if str_eq name "MEDIUM"
    then 60
    else if str_eq name "HIGH"
    then 80
    else if str_eq name "MAX"
    then 100
    else 102

unfoldable pub fan_speed_values : Capabilities → List ℕ
fan_speed_values c = map fan_value (fan_speeds c)
