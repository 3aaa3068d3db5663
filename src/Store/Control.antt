-- ===== src/Store/Control.antt =====
-- crates/breeze-store/src/control.rs: the control payload and its bounds. A temperature (`f64`) is
-- a whole number of millionths of a degree or not finite (Auth/Clock.antt); the standard library's
-- `to_uppercase` is a parameter.
use breeze_core_native.Common.{
  ℕ, ◌+◌, ◌*◌, ◌/◌, ◌%◌, ◌≤◌, ap, Bool, true, false, not, ◌&&◌, Option, none, some, String, List,
  [], ◌∷◌, ◌==◌, leb, if◌then◌else◌, any, Outcome, ok, err, ◌>>◌, ◌≡◌, ◌↔◌, refl, arith,
}
use breeze_core_native.Common.Int.{ℤ, pos, negsuc}
use breeze_core_native.Common.Texts.{str_eq}
use breeze_core_native.Auth.Clock.{F64, finite, infinity, neg_infinity, nan}

abbrev pub temp_min : ℕ
temp_min = 16_000_000

abbrev pub temp_max : ℕ
temp_max = 30_000_000

abbrev pub allowed_fan_speeds : List ℕ
allowed_fan_speeds = 20 ∷ 40 ∷ 60 ∷ 80 ∷ 100 ∷ 102 ∷ []

abbrev pub operational_modes : List String
operational_modes = "AUTO" ∷ "COOL" ∷ "DRY" ∷ "HEAT" ∷ "FAN_ONLY" ∷ []

abbrev pub swing_modes : List String
swing_modes = "OFF" ∷ "VERTICAL" ∷ "HORIZONTAL" ∷ "BOTH" ∷ []

pub record ControlRequest : Type 0 where
  pub power_state : Option Bool
  pub operational_mode : Option String
  pub target_temperature : Option F64
  pub fan_speed : Option ℤ
  pub swing_mode : Option String
  pub eco : Option Bool
  pub turbo : Option Bool
  pub beep : Option Bool

pub data ValidationError : Type 0 where
  temperature_out_of_range temperature_not_half_degree : ValidationError
  unknown_fan_speed : ℤ → ValidationError
  unknown_mode : String → ValidationError
  unknown_swing_mode : String → ValidationError

unfoldable pub http_status : ValidationError → ℕ
http_status (unknown_mode v) = 400
http_status (unknown_swing_mode v) = 400
http_status _ = 422

abbrev pub in_range : F64 → Bool
in_range (finite (pos t)) = leb temp_min t && leb t temp_max
in_range _ = false

-- `(t * 2.0).fract() == 0.0`.
abbrev pub is_half_degree : F64 → Bool
is_half_degree (finite (pos t)) = t * 2 % 1_000_000 == 0
is_half_degree (finite (negsuc n)) = (n + 1) * 2 % 1_000_000 == 0
is_half_degree _ = false

abbrev pub is_allowed_fan : ℤ → Bool
is_allowed_fan (pos f) = any (λ a. a == f) allowed_fan_speeds
is_allowed_fan (negsuc n) = false

abbrev pub contains : List String → String → Bool
contains names name = any (λ n. str_eq n name) names

abbrev Checked : Type 0
Checked = Outcome ValidationError Unit

abbrev check_temperature : Option F64 → Checked
check_temperature none = ok tt
check_temperature (some t) =
    if not (in_range t)
    then err temperature_out_of_range
    else if not (is_half_degree t)
    then err temperature_not_half_degree
    else ok tt

abbrev check_fan : Option ℤ → Checked
check_fan none = ok tt
check_fan (some f) = if not (is_allowed_fan f) then err (unknown_fan_speed f) else ok tt

abbrev check_name :
    List String → (String → ValidationError) → (String → String) → Option String → Checked
check_name names unknown to_uppercase none = ok tt
check_name names unknown to_uppercase (some m) =
    if not (contains names (to_uppercase m)) then err (unknown m) else ok tt

unfoldable pub validate : (String → String) → ControlRequest → Checked
validate to_uppercase r = do
  check_temperature r.target_temperature
  check_fan r.fan_speed
  check_name operational_modes unknown_mode to_uppercase r.operational_mode
  check_name swing_modes unknown_swing_mode to_uppercase r.swing_mode

abbrev only_power : Bool → ControlRequest
only_power on = record {
  power_state = some on;
  operational_mode = none;
  target_temperature = none;
  fan_speed = none;
  swing_mode = none;
  eco = none;
  turbo = none;
  beep = none;
}

abbrev pub power_off : ControlRequest
power_off = only_power false

abbrev pub power_on : ControlRequest
power_on = only_power true

-- A whole number of half degrees from 16 to 30.
abbrev pub IsSettable : F64 → Type 0
IsSettable t = (k : ℕ) × (32 ≤ k) × (k ≤ 60) × (t ≡ finite (pos (k * 500_000)))

-- What a field holds, if it is there, has the property.
abbrev pub Present : {A : Type 0} → (A → Type 0) → Option A → Type 0
Present P none = Unit
Present P (some a) = P a

abbrev pub InBounds : (String → String) → ControlRequest → Type 0
InBounds to_uppercase r =
    Present IsSettable r.target_temperature
    × Present (λ f. is_allowed_fan f ≡ true) r.fan_speed
    × Present (λ m. contains operational_modes (to_uppercase m) ≡ true) r.operational_mode
    × Present (λ m. contains swing_modes (to_uppercase m) ≡ true) r.swing_mode

IsSettable-iff : (t : F64) → ((in_range t ≡ true) × (is_half_degree t ≡ true)) ↔ IsSettable t
IsSettable-iff infinity = (λ h. absurd (ground arith), λ h. absurd (ground arith))
IsSettable-iff neg_infinity = (λ h. absurd (ground arith), λ h. absurd (ground arith))
IsSettable-iff nan = (λ h. absurd (ground arith), λ h. absurd (ground arith))
IsSettable-iff (finite (negsuc n)) =
    (λ h. absurd (ground arith), λ (k, lo, hi, e). absurd (ground arith))
IsSettable-iff (finite (pos t)) = (
  λ h. (t / 500_000, ground arith, ground arith, ap (λ n. finite (pos n)) (ground arith)),
  λ (k, lo, hi, e). let e' : t ≡ k * 500_000 = cc e in (ground arith, ground arith),
)

check_temperature_iff : (o : Option F64) → (check_temperature o ≡ ok tt) ↔ Present IsSettable o
check_temperature_iff none = (λ _. tt, λ _. refl)
check_temperature_iff (some t) = ground (arith, IsSettable-iff t)

check_fan_iff : (o : Option ℤ) → (check_fan o ≡ ok tt) ↔ Present (λ f. is_allowed_fan f ≡ true) o
check_fan_iff none = (λ _. tt, λ _. refl)
check_fan_iff (some f) = ground arith

check_name_iff :
    (names : List String) (unknown : String → ValidationError) (to_uppercase : String → String)
    (o : Option String)
    → (check_name names unknown to_uppercase o ≡ ok tt)
      ↔ Present (λ m. contains names (to_uppercase m) ≡ true) o
check_name_iff names unknown to_uppercase none = (λ _. tt, λ _. refl)
check_name_iff names unknown to_uppercase (some m) = ground arith

-- `validate` accepts exactly the requests of which each field is absent or in its bounds: a
-- temperature from 16 to 30 in half degrees, a fan speed on the list, known names of modes.
pub validate_iff :
    (to_uppercase : String → String) (r : ControlRequest)
    → (validate to_uppercase r ≡ ok tt) ↔ InBounds to_uppercase r
unfolding validate
validate_iff to_uppercase r = ground (
  arith,
  check_temperature_iff r.target_temperature,
  check_fan_iff r.fan_speed,
  check_name_iff operational_modes unknown_mode to_uppercase r.operational_mode,
  check_name_iff swing_modes unknown_swing_mode to_uppercase r.swing_mode,
)
