-- ===== src/Proto/Ac/Response.antt =====
-- crates/breeze-proto/src/ac/response.rs: decoding a 0xC0 state report. A temperature (`f32` in the
-- program) is a whole number of tenths of a degree, which every value that the code computes is.
use Prim.Native.Nat.{bit_and}
use breeze_core_native.Common.{
  ℕ, zero, suc, ◌+◌, ◌-◌, ◌*◌, ◌/◌, Bool, not, ◌&&◌, ◌||◌, List, Option, none, some, ltb, leb, ◌==◌,
  if◌then◌else◌, length, get_or, get_elem?, Outcome, ok, err,
}
use breeze_core_native.Common.Int.{ℤ, pos, negsuc}
use breeze_core_native.Proto.Ac.Types.{Mode, SwingMode, mode_from_wire, swing_from_wire}

pub record State : Type 0 where
  pub power_on : Bool
  pub target_temperature : ℕ
  pub mode : Option Mode
  pub mode_raw : ℕ
  pub fan_speed : ℕ
  pub swing_mode : Option SwingMode
  pub swing_raw : ℕ
  pub turbo : Bool
  pub eco : Bool
  pub sleep : Bool
  pub fahrenheit : Bool
  pub indoor_temperature : Option ℤ
  pub outdoor_temperature : Option ℤ
  pub filter_alert : Bool
  pub display_on : Bool
  pub aux_heat : Bool
  pub independent_aux_heat : Bool
  pub follow_me : Bool
  pub purifier : Bool
  pub error_code : ℕ
  pub target_humidity : Option ℕ
  pub freeze_protection : Option Bool

pub data ResponseError : Type 0 where
  too_short : ℕ → ResponseError
  not_a_state_report : ℕ → ResponseError

abbrev pub min_len : ℕ
min_len = 17

-- The number with this sign and magnitude.
abbrev negated : ℕ → ℤ
negated zero = pos 0
negated (suc n) = negsuc n

abbrev signed : Bool → ℕ → ℤ
signed negative n = if negative then negated n else pos n

-- `decimals` is in tenths. `trunc` drops the tenths of the magnitude.
unfoldable pub parse_temperature : ℕ → ℕ → Bool → Option ℤ
parse_temperature byte decimals fahrenheit =
    if byte == 0xFF
    then none
    else let negative = ltb byte 50 in
      let magnitude = if negative then (50 - byte) * 5 else (byte - 50) * 5 in
      let whole = magnitude / 10 * 10 in
      if not fahrenheit && not (decimals == 0)
      then some (signed negative (whole + decimals))
      else if leb 5 decimals
      then some (signed negative (whole + 5))
      else some (signed negative magnitude)

-- `b & mask != 0`.
abbrev pub has : ℕ → ℕ → Bool
has b mask = not (bit_and b mask == 0)

abbrev half : ℕ → ℕ
half b = if has b 0x10 then 5 else 0

abbrev pub target_of : ℕ → ℕ → ℕ
target_of b2 b13 =
    let alt = bit_and b13 0x1F in
    if alt == 0 then bit_and b2 0xF * 10 + 160 + half b2 else alt * 10 + 120 + half b2

abbrev masked : ℕ → Option ℕ → Option ℕ
masked mask none = none
masked mask (some b) = some (bit_and b mask)

abbrev flag : ℕ → Option ℕ → Option Bool
flag mask none = none
flag mask (some b) = some (has b mask)

unfoldable pub read_state : List ℕ → State
read_state p =
    let at = λ (i : ℕ). get_or p i 0 in
    let mode_raw = bit_and (at 2 / 32) 0x7 in
    let swing_raw = bit_and (at 7) 0xF in
    let fahrenheit = has (at 10) 0x04 in
    record {
      power_on = has (at 1) 0x1;
      target_temperature = target_of (at 2) (at 13);
      mode = mode_from_wire mode_raw;
      mode_raw = mode_raw;
      fan_speed = bit_and (at 3) 0x7F;
      swing_mode = swing_from_wire swing_raw;
      swing_raw = swing_raw;
      turbo = has (at 8) 0x20 || has (at 10) 0x02;
      eco = has (at 9) 0x10;
      sleep = has (at 10) 0x1;
      fahrenheit = fahrenheit;
      indoor_temperature = parse_temperature (at 11) (bit_and (at 15) 0xF) fahrenheit;
      outdoor_temperature = parse_temperature (at 12) (at 15 / 16) fahrenheit;
      filter_alert = has (at 13) 0x20;
      display_on = not (at 14 == 0x70);
      aux_heat = has (at 9) 0x08;
      independent_aux_heat = has (at 8) 0x40;
      follow_me = has (at 8) 0x80;
      purifier = has (at 9) 0x20;
      error_code = at 16;
      target_humidity = masked 0x7F (get_elem? p 19);
      freeze_protection = flag 0x80 (get_elem? p 21);
    }

unfoldable pub parse : List ℕ → Outcome ResponseError State
unfolding read_state
parse p =
    if ltb (length p) min_len
    then err (too_short (length p))
    else if not (get_or p 0 0 == 0xC0)
    then err (not_a_state_report (get_or p 0 0))
    else ok (read_state p)
