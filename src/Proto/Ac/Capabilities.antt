-- ===== src/Proto/Ac/Capabilities.antt =====
-- crates/breeze-proto/src/ac/capabilities.rs: decoding a 0xB5 reply. A temperature is a number of half
-- degrees, the byte of the record; the set of unknown ids is an ascending list. An index out of
-- range does not occur behind the length checks.
mod Ids
pub mod Records
pub mod Merge
pub mod Offered
pub mod Choices
use breeze_core_native.Common.{
  ℕ, zero, suc, ◌+◌, ◌-◌, Bool, true, false, not, ◌&&◌, ◌||◌, Option, none, some, List, [], ◌∷◌,
  ltb, leb, ◌==◌, if◌then◌else◌, length, get_or, take, drop, any,
}
use breeze_core_native.Common.Bytes.{from_le}
use Ids.*

pub record Capabilities : Type 0 where
  pub cool_mode : Bool
  pub heat_mode : Bool
  pub dry_mode : Bool
  pub auto_mode : Bool
  pub aux_heat_mode : Bool
  pub aux_mode : Bool
  pub aux_electric_heat : Bool
  pub swing_horizontal : Bool
  pub swing_vertical : Bool
  pub swing_horizontal_angle : Bool
  pub swing_vertical_angle : Bool
  pub fan_silent : Bool
  pub fan_low : Bool
  pub fan_medium : Bool
  pub fan_high : Bool
  pub fan_auto : Bool
  pub fan_custom : Bool
  pub saw_fan_capability : Bool
  pub eco : Bool
  pub turbo_cool : Bool
  pub turbo_heat : Bool
  pub freeze_protection : Bool
  pub display_control : Bool
  pub anion : Bool
  pub filter_notice : Bool
  pub filter_clean : Bool
  pub humidity_auto_set : Bool
  pub humidity_manual_set : Bool
  pub self_clean : Bool
  pub breeze_away : Bool
  pub breeze_control : Bool
  pub breezeless : Bool
  pub buzzer : Bool
  pub fahrenheit : Bool
  pub energy_stats : Bool
  pub smart_eye : Bool
  pub wind_on_me : Bool
  pub wind_off_me : Bool
  pub fresh_air : Bool
  pub cascade : Bool
  pub flash : Bool
  pub out_silent : Bool
  pub aux_fan_speed : Bool
  pub aux_heat_fan_speed : Bool
  pub cool_min_temperature : Option ℕ
  pub cool_max_temperature : Option ℕ
  pub auto_min_temperature : Option ℕ
  pub auto_max_temperature : Option ℕ
  pub heat_min_temperature : Option ℕ
  pub heat_max_temperature : Option ℕ
  pub decimals : Bool
  pub additional : Bool
  pub unknown_ids : List ℕ

-- `Capabilities::default()`.
abbrev pub nothing : Capabilities
nothing = record {
  cool_mode = false;
  heat_mode = false;
  dry_mode = false;
  auto_mode = false;
  aux_heat_mode = false;
  aux_mode = false;
  aux_electric_heat = false;
  swing_horizontal = false;
  swing_vertical = false;
  swing_horizontal_angle = false;
  swing_vertical_angle = false;
  fan_silent = false;
  fan_low = false;
  fan_medium = false;
  fan_high = false;
  fan_auto = false;
  fan_custom = false;
  saw_fan_capability = false;
  eco = false;
  turbo_cool = false;
  turbo_heat = false;
  freeze_protection = false;
  display_control = false;
  anion = false;
  filter_notice = false;
  filter_clean = false;
  humidity_auto_set = false;
  humidity_manual_set = false;
  self_clean = false;
  breeze_away = false;
  breeze_control = false;
  breezeless = false;
  buzzer = false;
  fahrenheit = false;
  energy_stats = false;
  smart_eye = false;
  wind_on_me = false;
  wind_off_me = false;
  fresh_air = false;
  cascade = false;
  flash = false;
  out_silent = false;
  aux_fan_speed = false;
  aux_heat_fan_speed = false;
  cool_min_temperature = none;
  cool_max_temperature = none;
  auto_min_temperature = none;
  auto_max_temperature = none;
  heat_min_temperature = none;
  heat_max_temperature = none;
  decimals = false;
  additional = false;
  unknown_ids = [];
}

-- `BTreeSet::insert`.
unfoldable pub insert : ℕ → List ℕ → List ℕ
insert id [] = id ∷ []
insert id (x ∷ xs) =
    let rest = insert id xs in
    if ltb id x then id ∷ x ∷ xs else if id == x then x ∷ xs else x ∷ rest

unfoldable pub one_of : List ℕ → List ℕ → Bool
one_of [] accepted = false
one_of (v ∷ value) accepted = any (λ a. a == v) accepted

-- The record of temperature limits. `rest` is all that is left of the payload, header first.
unfoldable pub apply_temperatures : List ℕ → List ℕ → Capabilities → Capabilities
apply_temperatures value rest c =
    if ltb (length rest) 9 || ltb (length value) 6 then c else record c {
      cool_min_temperature = some (get_or rest 3 0);
      cool_max_temperature = some (get_or rest 4 0);
      auto_min_temperature = some (get_or rest 5 0);
      auto_max_temperature = some (get_or rest 6 0);
      heat_min_temperature = some (get_or rest 7 0);
      heat_max_temperature = some (get_or rest 8 0);
      decimals =
          if ltb 6 (length value) && ltb 9 (length rest)
          then not (get_or rest 9 0 == 0)
          else not (get_or rest 2 0 == 0);
    }

unfoldable pub apply : ℕ → List ℕ → List ℕ → Capabilities → Capabilities
apply id value rest c =
    if id == modes
    then record c {
      heat_mode = one_of value (1 ∷ 2 ∷ 4 ∷ 6 ∷ 7 ∷ 9 ∷ 10 ∷ 11 ∷ 12 ∷ 13 ∷ []);
      cool_mode = one_of value (0 ∷ 1 ∷ 3 ∷ 4 ∷ 5 ∷ 6 ∷ 7 ∷ 8 ∷ 9 ∷ 11 ∷ 13 ∷ 14 ∷ 15 ∷ []);
      dry_mode = one_of value (0 ∷ 1 ∷ 5 ∷ 6 ∷ 9 ∷ 11 ∷ 13 ∷ 14 ∷ 15 ∷ []);
      auto_mode = one_of value (0 ∷ 1 ∷ 2 ∷ 7 ∷ 8 ∷ 9 ∷ 13 ∷ 14 ∷ []);
      aux_heat_mode = one_of value (9 ∷ []);
      aux_mode = one_of value (9 ∷ 10 ∷ 11 ∷ 13 ∷ 14 ∷ 15 ∷ []);
    }
    else if id == swing_modes
    then record c {
      swing_horizontal = one_of value (1 ∷ 3 ∷ []);
      swing_vertical = one_of value (0 ∷ 1 ∷ []);
    }
    else if id == swing_ud_angle
    then record c { swing_vertical_angle = one_of value (1 ∷ []) }
    else if id == swing_lr_angle
    then record c { swing_horizontal_angle = one_of value (1 ∷ []) }
    else if id == fan_speed_control
    then record c {
      saw_fan_capability = true;
      fan_silent = one_of value (6 ∷ 9 ∷ []);
      fan_low = one_of value (3 ∷ 4 ∷ 5 ∷ 6 ∷ 7 ∷ 9 ∷ []);
      fan_medium = one_of value (5 ∷ 6 ∷ 7 ∷ []);
      fan_high = one_of value (3 ∷ 4 ∷ 5 ∷ 6 ∷ 7 ∷ 9 ∷ []);
      fan_auto = one_of value (4 ∷ 5 ∷ 6 ∷ 9 ∷ []);
      fan_custom = one_of value (1 ∷ []);
    }
    else if id == preset_eco
    then record c { eco = one_of value (1 ∷ 2 ∷ []) }
    else if id == preset_turbo
    then record c { turbo_heat = one_of value (1 ∷ 3 ∷ []); turbo_cool = one_of value (0 ∷ 1 ∷ []) }
    else if id == preset_freeze_protection
    then record c { freeze_protection = one_of value (1 ∷ []) }
    else if id == display_control
    then record c { display_control = one_of value (1 ∷ 2 ∷ 100 ∷ []) }
    else if id == anion
    then record c { anion = one_of value (1 ∷ []) }
    else if id == filter_remind
    then record c {
      filter_notice = one_of value (1 ∷ 2 ∷ 4 ∷ []);
      filter_clean = one_of value (3 ∷ 4 ∷ []);
    }
    else if id == humidity
    then record c {
      humidity_auto_set = one_of value (1 ∷ 2 ∷ []);
      humidity_manual_set = one_of value (2 ∷ 3 ∷ []);
    }
    else if id == energy
    then record c { energy_stats = one_of value (2 ∷ 3 ∷ 4 ∷ 5 ∷ []) }
    else if id == fahrenheit
    then record c { fahrenheit = one_of value (0 ∷ []) }
    else if id == buzzer
    then record c { buzzer = one_of value (1 ∷ []) }
    else if id == self_clean
    then record c { self_clean = one_of value (1 ∷ []) }
    else if id == breeze_away
    then record c { breeze_away = one_of value (1 ∷ []) }
    else if id == breeze_control
    then record c { breeze_control = one_of value (1 ∷ []) }
    else if id == breezeless
    then record c { breezeless = one_of value (1 ∷ []) }
    else if id == smart_eye
    then record c { smart_eye = one_of value (1 ∷ []) }
    else if id == wind_on_me
    then record c { wind_on_me = one_of value (1 ∷ []) }
    else if id == wind_off_me
    then record c { wind_off_me = one_of value (1 ∷ []) }
    else if id == fresh_air
    then record c { fresh_air = one_of value (1 ∷ []) }
    else if id == cascade
    then record c { cascade = one_of value (1 ∷ []) }
    else if id == flash
    then record c { flash = one_of value (1 ∷ 2 ∷ 3 ∷ 4 ∷ []) }
    else if id == out_silent
    then record c { out_silent = one_of value (1 ∷ 3 ∷ []) }
    else if id == aux_electric_heat
    then record c { aux_electric_heat = one_of value (1 ∷ []) }
    else if id == aux_fan_speed_control
    then record c { aux_fan_speed = one_of value (1 ∷ []) }
    else if id == aux_heat_fan_speed_control
    then record c { aux_heat_fan_speed = one_of value (1 ∷ []) }
    else if id == temperatures
    then apply_temperatures value rest c
    else if id == unknown_0040
    then c
    else record c { unknown_ids = insert id c.unknown_ids }

-- One turn of the loop of `parse`: `none` where it breaks.
unfoldable pub next_record : List ℕ → Capabilities → Option (Capabilities × List ℕ)
next_record rest c =
    if ltb (length rest) 3
    then none
    else let size = get_or rest 2 0 in
      if size == 0
      then some (c, drop 3 rest)
      else if ltb (length rest) (3 + size)
      then none
      else some (
        apply (from_le (get_or rest 0 0) (get_or rest 1 0)) (take size (drop 3 rest)) rest c,
        drop (3 + size) rest,
      )

-- The loop: what is known after at most `count` records, and what is left.
unfoldable pub walk : ℕ → List ℕ → Capabilities → Capabilities × List ℕ
walk zero rest c = (c, rest)
walk (suc count) rest c = elim (next_record rest c) [
  | none ↦ (c, rest)
  | some (c', rest') ↦ walk count rest' c'
]

unfoldable pub with_additional : List ℕ → Capabilities → Capabilities
with_additional rest c =
    if ltb 1 (length rest)
    then record c { additional = not (get_or rest (length rest - 2) 0 == 0) }
    else c

unfoldable pub parse : List ℕ → Capabilities
parse payload =
    if ltb (length payload) 2
    then nothing
    else let (c, rest) = walk (get_or payload 1 0) (drop 2 payload) nothing in
      with_additional rest c
