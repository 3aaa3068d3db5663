-- ===== src/Proto/Ac/Capabilities/Choices.antt =====
-- crates/breeze-proto/src/ac/capabilities.rs against crates/breeze-store/src/control.rs: what is offered
-- for a unit, and what a control request may ask.
use breeze_core_native.Common.{ℕ, true, ◌||◌, ◌==◌, String, some, any, ok, ◌≡◌, arith}
use breeze_core_native.Common.Int.{pos}
use breeze_core_native.Store.Control.{
  ControlRequest, contains, is_allowed_fan, validate, power_on, allowed_fan_speeds,
}
use breeze_core_native.Store.Control
use breeze_core_native.Proto.Ac.Capabilities.{Capabilities}
use breeze_core_native.Proto.Ac.Capabilities.Merge.{merge}
use breeze_core_native.Proto.Ac.Capabilities.Offered.{
  operational_modes, swing_modes, fan_speed_values, fan_speeds, fan_value,
}

-- After a second page is merged in, a mode is offered exactly when one of the two pages offers it.
pub operational_modes-merge :
    (c other : Capabilities) (m : String)
    → contains (operational_modes (merge c other)) m
      ≡ contains (operational_modes c) m || contains (operational_modes other) m
unfolding operational_modes merge
operational_modes-merge c other m = ground arith

mode-allowed :
    (c : Capabilities) (m : String)
    → contains (operational_modes c) m ≡ true
    → contains Control.operational_modes m ≡ true
unfolding operational_modes
mode-allowed c m h = ground arith

swing-allowed :
    (c : Capabilities) (m : String)
    → contains (swing_modes c) m ≡ true
    → contains Control.swing_modes m ≡ true
unfolding swing_modes
swing-allowed c m h = ground arith

fan-allowed :
    (c : Capabilities) (f : ℕ)
    → any (λ v. v == f) (fan_speed_values c) ≡ true
    → is_allowed_fan (pos f) ≡ true
unfolding fan_speed_values fan_speeds fan_value
fan-allowed c f h = ground arith

-- Whatever a unit reports, a command with an offered mode, an offered swing mode and an offered fan
-- speed, and no temperature, passes the checks of the control payload, where `to_uppercase` leaves the
-- two names as they are. (The limits that are offered for the temperature can be outside of those checks.)
pub offered-validate :
    (to_uppercase : String → String) (c : Capabilities) (mode swing : String) (fan : ℕ)
    → to_uppercase mode ≡ mode
    → to_uppercase swing ≡ swing
    → contains (operational_modes c) mode ≡ true
    → contains (swing_modes c) swing ≡ true
    → any (λ v. v == fan) (fan_speed_values c) ≡ true
    → validate to_uppercase (record power_on {
      operational_mode = some mode;
      swing_mode = some swing;
      fan_speed = some (pos fan);
    })
      ≡ ok tt
unfolding validate
offered-validate to_uppercase c mode swing fan e e' m s f =
    rw (e, e', mode-allowed c mode m, swing-allowed c swing s, fan-allowed c fan f)
