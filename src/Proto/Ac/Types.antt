-- ===== src/Proto/Ac/Types.antt =====
-- crates/breeze-proto/src/ac/types.rs: the wire enums.
use breeze_core_native.Common.{ℕ, Option, none, some, String, ◌==◌, if◌then◌else◌, ◌≡◌, ◌↔◌, arith}

pub data Mode : Type 0 where
  auto cool dry heat fan_only : Mode

abbrev pub mode_byte : Mode → ℕ
mode_byte auto = 1
mode_byte cool = 2
mode_byte dry = 3
mode_byte heat = 4
mode_byte fan_only = 5

unfoldable pub mode_from_wire : ℕ → Option Mode
mode_from_wire v =
    if v == 1
    then some auto
    else if v == 2
    then some cool
    else if v == 3
    then some dry
    else if v == 4
    then some heat
    else if v == 5
    then some fan_only
    else none

unfoldable pub mode_name : Mode → String
mode_name auto = "AUTO"
mode_name cool = "COOL"
mode_name dry = "DRY"
mode_name heat = "HEAT"
mode_name fan_only = "FAN_ONLY"

pub data SwingMode : Type 0 where
  off horizontal vertical both : SwingMode

abbrev pub swing_byte : SwingMode → ℕ
swing_byte off = 0x0
swing_byte horizontal = 0x3
swing_byte vertical = 0xC
swing_byte both = 0xF

unfoldable pub swing_from_wire : ℕ → Option SwingMode
swing_from_wire v =
    if v == 0x0
    then some off
    else if v == 0x3
    then some horizontal
    else if v == 0xC
    then some vertical
    else if v == 0xF
    then some both
    else none

unfoldable pub swing_name : SwingMode → String
swing_name off = "OFF"
swing_name horizontal = "HORIZONTAL"
swing_name vertical = "VERTICAL"
swing_name both = "BOTH"

-- `FanSpeed` is its byte.
abbrev pub fan_auto : ℕ
fan_auto = 102

pub data TemperatureType : Type 0 where
  indoor outdoor : TemperatureType

abbrev pub temperature_byte : TemperatureType → ℕ
temperature_byte indoor = 0x2
temperature_byte outdoor = 0x3

-- A wire value decodes to a mode exactly when it is that mode's byte.
pub mode_from_wire_iff : (v : ℕ) (m : Mode) → (mode_from_wire v ≡ some m) ↔ (v ≡ mode_byte m)
unfolding mode_from_wire
mode_from_wire_iff v auto = (λ e. ground arith, λ e. ground arith)
mode_from_wire_iff v _ = (λ e. ground arith, λ e. ground arith)

pub swing_from_wire_iff :
    (v : ℕ) (m : SwingMode) → (swing_from_wire v ≡ some m) ↔ (v ≡ swing_byte m)
unfolding swing_from_wire
swing_from_wire_iff v off = (λ e. ground arith, λ e. ground arith)
swing_from_wire_iff v _ = (λ e. ground arith, λ e. ground arith)
