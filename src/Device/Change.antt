-- ===== src/Device/Change.antt =====
-- `Change` of crates/breeze-device/src/manager.rs: the fields a control request sets, and how
-- requests are merged. A temperature is in tenths of a degree (Proto/Ac/Response.antt).
use breeze_core_native.Common.{ℕ, Bool, false, Option, none, some, List, foldl, ◌≡◌, refl}
use breeze_core_native.Proto.Ac.Types.{Mode, SwingMode}
use breeze_core_native.Proto.Ac.Command.{Setpoint}

pub record Change : Type 0 where
  pub power_on : Option Bool
  pub mode : Option Mode
  pub target_temperature : Option ℕ
  pub fan_speed : Option ℕ
  pub swing_mode : Option SwingMode
  pub eco : Option Bool
  pub turbo : Option Bool
  pub beep : Option Bool

abbrev pub no_change : Change
no_change = record {
  power_on = none;
  mode = none;
  target_temperature = none;
  fan_speed = none;
  swing_mode = none;
  eco = none;
  turbo = none;
  beep = none;
}

unfoldable pub take_later {ℓ} : {A : Type ℓ} → Option A → Option A → Option A
take_later slot none = slot
take_later slot (some v) = some v

unfoldable pub merge : Change → Change → Change
merge c later = record {
  power_on = take_later c.power_on later.power_on;
  mode = take_later c.mode later.mode;
  target_temperature = take_later c.target_temperature later.target_temperature;
  fan_speed = take_later c.fan_speed later.fan_speed;
  swing_mode = take_later c.swing_mode later.swing_mode;
  eco = take_later c.eco later.eco;
  turbo = take_later c.turbo later.turbo;
  beep = take_later c.beep later.beep;
}

unfoldable pub set_or_keep {ℓ} : {A : Type ℓ} → Option A → A → A
set_or_keep none old = old
set_or_keep (some v) old = v

unfoldable pub apply_to : Change → Setpoint → Setpoint
apply_to c s = record s {
  power_on = set_or_keep c.power_on s.power_on;
  mode = set_or_keep c.mode s.mode;
  target_temperature = set_or_keep c.target_temperature s.target_temperature;
  fan_speed = set_or_keep c.fan_speed s.fan_speed;
  swing_mode = set_or_keep c.swing_mode s.swing_mode;
  eco = set_or_keep c.eco s.eco;
  turbo = set_or_keep c.turbo s.turbo;
  beep = set_or_keep c.beep false;
}

-- Requests folded into one change, the oldest first.
abbrev pub merge_all : List Change → Change
merge_all changes = foldl merge no_change changes

module _ {ℓ} {A : Type ℓ} where
  set_or_keep-take_later :
      (slot later : Option A) (old : A)
      → set_or_keep (take_later slot later) old ≡ set_or_keep later (set_or_keep slot old)
  unfolding set_or_keep take_later
  set_or_keep-take_later slot none old = refl
  set_or_keep-take_later slot (some v) old = refl

  take_later_assoc :
      (a b c : Option A) → take_later (take_later a b) c ≡ take_later a (take_later b c)
  unfolding take_later
  take_later_assoc a b none = refl
  take_later_assoc a b (some v) = refl

-- Merging is associative.
pub merge_assoc : (a b c : Change) → merge (merge a b) c ≡ merge a (merge b c)
unfolding merge
merge_assoc a b c = rw (
  take_later_assoc a.power_on b.power_on c.power_on,
  take_later_assoc a.mode b.mode c.mode,
  take_later_assoc a.target_temperature b.target_temperature c.target_temperature,
  take_later_assoc a.fan_speed b.fan_speed c.fan_speed,
  take_later_assoc a.swing_mode b.swing_mode c.swing_mode,
  take_later_assoc a.eco b.eco c.eco,
  take_later_assoc a.turbo b.turbo c.turbo,
  take_later_assoc a.beep b.beep c.beep,
)

-- Applying two merged changes sets what applying the earlier and then the later sets, the beep
-- apart, which is the later one's, else the earlier one's, else off.
pub apply_to-merge :
    (earlier later : Change) (s : Setpoint)
    → apply_to (merge earlier later) s ≡ record (apply_to later (apply_to earlier s)) {
      beep = set_or_keep later.beep (set_or_keep earlier.beep false);
    }
unfolding apply_to merge
apply_to-merge a b s = rw (
  set_or_keep-take_later a.power_on b.power_on s.power_on,
  set_or_keep-take_later a.mode b.mode s.mode,
  set_or_keep-take_later a.target_temperature b.target_temperature s.target_temperature,
  set_or_keep-take_later a.fan_speed b.fan_speed s.fan_speed,
  set_or_keep-take_later a.swing_mode b.swing_mode s.swing_mode,
  set_or_keep-take_later a.eco b.eco s.eco,
  set_or_keep-take_later a.turbo b.turbo s.turbo,
  set_or_keep-take_later a.beep b.beep false,
)
