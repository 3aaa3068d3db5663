-- ===== src/Proto/Ac/Command.antt =====
-- crates/breeze-proto/src/ac/command.rs: the commands. A target temperature is in tenths of a
-- degree, and not negative (Proto/Ac/Response.antt).
use Prim.Native.Nat.{bit_and, bit_or}
use breeze_core_native.Common.{
  ℕ, ◌+◌, ◌*◌, ◌/◌, ◌%◌, Bool, false, ◌&&◌, List, [], ◌∷◌, ◌++◌, Option, none, some, ltb, leb,
  if◌then◌else◌,
}
use breeze_core_native.Proto.Crc8.{calculate}
use breeze_core_native.Proto.Frame.{FrameType, control, query, air_conditioner, build}
use breeze_core_native.Proto.Ac.Types.{
  Mode, auto, SwingMode, off, mode_byte, swing_byte, TemperatureType, temperature_byte,
}
use breeze_core_native.Proto.Ac.Response.{State}

abbrev control_source : ℕ
control_source = 0x02

-- The payload with the message id and the CRC over both.
unfoldable pub command_body : List ℕ → ℕ → List ℕ
command_body payload message_id =
    let body = payload ++ (message_id ∷ []) in body ++ (calculate body ∷ [])

unfoldable pub finish : FrameType → List ℕ → ℕ → List ℕ
finish frame_type payload message_id =
    build air_conditioner frame_type (command_body payload message_id)

unfoldable pub get_state_payload : TemperatureType → List ℕ
get_state_payload temperature =
    0x41
    ∷ 0x81
    ∷ 0x00
    ∷ 0xFF
    ∷ 0x03
    ∷ 0xFF
    ∷ 0x00
    ∷ temperature_byte temperature
    ∷ 0x00
    ∷ 0x00
    ∷ 0x00
    ∷ 0x00
    ∷ 0x00
    ∷ 0x00
    ∷ 0x00
    ∷ 0x00
    ∷ 0x00
    ∷ 0x00
    ∷ 0x00
    ∷ 0x00
    ∷ 0x03
    ∷ []

unfoldable pub get_state : ℕ → TemperatureType → List ℕ
get_state message_id temperature = finish query (get_state_payload temperature) message_id

unfoldable pub get_capabilities : ℕ → List ℕ
get_capabilities message_id = finish query (0xB5 ∷ 0x01 ∷ 0x00 ∷ []) message_id

unfoldable pub get_more_capabilities : ℕ → List ℕ
get_more_capabilities message_id = finish query (0xB5 ∷ 0x01 ∷ 0x01 ∷ 0x01 ∷ []) message_id

pub record Setpoint : Type 0 where
  pub power_on : Bool
  pub mode : Mode
  pub target_temperature : ℕ
  pub fan_speed : ℕ
  pub swing_mode : SwingMode
  pub eco : Bool
  pub turbo : Bool
  pub sleep : Bool
  pub fahrenheit : Bool
  pub purifier : Bool
  pub aux_heat : Bool
  pub independent_aux_heat : Bool
  pub follow_me : Bool
  pub freeze_protection : Bool
  pub target_humidity : ℕ
  pub beep : Bool

abbrev unwrap_or {ℓ} : {A : Type ℓ} → A → Option A → A
unwrap_or d none = d
unwrap_or d (some a) = a

unfoldable pub from_state : State → Setpoint
from_state state = record {
  power_on = state.power_on;
  mode = unwrap_or auto state.mode;
  target_temperature = state.target_temperature;
  fan_speed = state.fan_speed;
  swing_mode = unwrap_or off state.swing_mode;
  eco = state.eco;
  turbo = state.turbo;
  sleep = state.sleep;
  fahrenheit = state.fahrenheit;
  purifier = state.purifier;
  aux_heat = state.aux_heat;
  independent_aux_heat = state.independent_aux_heat;
  follow_me = state.follow_me;
  freeze_protection = unwrap_or false state.freeze_protection;
  target_humidity = unwrap_or 40 state.target_humidity;
  beep = false;
}

-- The primary and the alternate temperature byte. `as u8` of a difference that may be negative wraps.
unfoldable pub temperature_bytes : ℕ → ℕ × ℕ
temperature_bytes target =
    let integral = target / 10 in
    let half = if ltb 0 (target % 10) then 0x10 else 0 in
    if leb 17 integral && leb integral 30
    then (bit_or (bit_and ((integral + 240) % 256) 0xF) half, 0)
    else (bit_or 0 half, bit_and ((integral + 244) % 256) 0x1F)

abbrev pub bit_if : Bool → ℕ → ℕ
bit_if b mask = if b then mask else 0

unfoldable pub set_state_payload : Setpoint → List ℕ
unfolding temperature_bytes
set_state_payload s =
    let (temperature, temperature_alt) = temperature_bytes s.target_temperature in
    0x40
    ∷ bit_or (bit_or control_source (bit_if s.beep 0x40)) (bit_if s.power_on 0x01)
    ∷ bit_or temperature (bit_and (mode_byte s.mode) 0x7 * 32 % 256)
    ∷ s.fan_speed
    ∷ 0x7F
    ∷ 0x7F
    ∷ 0x00
    ∷ bit_or 0x30 (bit_and (swing_byte s.swing_mode) 0x3F)
    ∷ bit_or (bit_if s.follow_me 0x80) (bit_if s.turbo 0x20)
    ∷ bit_or (bit_or (bit_if s.eco 0x80) (bit_if s.purifier 0x20)) (bit_if s.aux_heat 0x08)
    ∷ bit_or (bit_or (bit_if s.sleep 0x01) (bit_if s.turbo 0x02)) (bit_if s.fahrenheit 0x04)
    ∷ 0x00
    ∷ 0x00
    ∷ 0x00
    ∷ 0x00
    ∷ 0x00
    ∷ 0x00
    ∷ 0x00
    ∷ temperature_alt
    ∷ bit_and s.target_humidity 0x7F
    ∷ 0x00
    ∷ bit_if s.freeze_protection 0x80
    ∷ bit_if s.independent_aux_heat 0x08
    ∷ 0x00
    ∷ []

unfoldable pub set_state : ℕ → Setpoint → List ℕ
set_state message_id s = finish control (set_state_payload s) message_id
