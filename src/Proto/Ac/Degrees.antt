-- ===== src/Proto/Ac/Degrees.antt =====
-- The commands of crates/breeze-proto/src/ac/command.rs as the appliance and the decoder of
-- crates/breeze-proto/src/ac/response.rs read them.
use Prim.Native.Nat.{bit_and, bit_or}
use breeze_core_native.Common.{
  ℕ, ◌+◌, ◌*◌, ◌/◌, ◌%◌, ◌≤◌, ◌<◌, ◌≡◌, refl, Bool, true, ◌&&◌, ◌||◌, some, List, [], ◌∷◌, ◌++◌,
  arith, ltb, ◌==◌, length, get_or, ok, length-append,
}
use breeze_core_native.Common.Bytes.{all_below, all_below_sound}
use breeze_core_native.Proto.Crc8.{calculate, calculate-append}
use breeze_core_native.Proto.Frame.{FrameType, air_conditioner, parse as parse_frame}
use breeze_core_native.Proto.Frame.RoundTrip.{parse-build}
use breeze_core_native.Proto.Ac.Types.{
  Mode, auto, cool, dry, heat, fan_only, mode_byte, mode_from_wire_iff,
}
use breeze_core_native.Proto.Ac.Response.{State, min_len, target_of, read_state, parse}
use breeze_core_native.Proto.Ac.Command.{
  Setpoint, temperature_bytes, set_state_payload, command_body, finish,
}

-- The temperature and the mode of a command for `k` half degrees, read as a report reads them.
reads_back : Mode → ℕ → Bool
reads_back mode k =
    let (temperature, alt) = temperature_bytes (k * 5) in
    let b2 = bit_or temperature (bit_and (mode_byte mode) 0x7 * 32 % 256) in
    ltb k 26 || (target_of b2 alt == k * 5 && bit_and (b2 / 32) 0x7 == mode_byte mode)

reads_back_all : (mode : Mode) → all_below 88 (reads_back mode) ≡ true
unfolding all_below reads_back temperature_bytes
reads_back_all auto = refl
reads_back_all cool = refl
reads_back_all dry = refl
reads_back_all heat = refl
reads_back_all fan_only = refl

reads_back-holds :
    (mode : Mode) (k t b2 alt : ℕ)
    → reads_back mode k ≡ true
    → 26 ≤ k
    → t ≡ k * 5
    → b2 ≡ bit_or (temperature_bytes t).0 (bit_and (mode_byte mode) 0x7 * 32 % 256)
    → alt ≡ (temperature_bytes t).1
    → (target_of b2 alt ≡ t) × (bit_and (b2 / 32) 0x7 ≡ mode_byte mode)
unfolding reads_back
reads_back-holds mode k t b2 alt h lo e e₁ e₂ = rw (e₁, e₂, e) (ground arith)

report-reads :
    (p : List ℕ) (mode : Mode) (t : ℕ)
    → min_len ≤ length p
    → get_or p 0 0 ≡ 0xC0
    → target_of (get_or p 2 0) (get_or p 13 0) ≡ t
    → bit_and (get_or p 2 0 / 32) 0x7 ≡ mode_byte mode
    → (r : State) × (parse p ≡ ok r) × (r.target_temperature ≡ t) × (r.mode ≡ some mode)
unfolding parse read_state
report-reads p mode t h c e m = (read_state p, ground arith, e, (mode_from_wire_iff _ mode).1 m)

-- A set-state command for a target of `k` half degrees from 13.0 to 43.5: a report that carries
-- the command's temperature bytes (2 and 18, in its bytes 2 and 13) decodes to the command's
-- target temperature and mode.
pub parse-set_state_payload :
    (s : Setpoint) (k : ℕ) (p : List ℕ)
    → s.target_temperature ≡ k * 5
    → 26 ≤ k
    → k < 88
    → min_len ≤ length p
    → get_or p 0 0 ≡ 0xC0
    → get_or p 2 0 ≡ get_or (set_state_payload s) 2 0
    → get_or p 13 0 ≡ get_or (set_state_payload s) 18 0
    → (r : State) × (parse p ≡ ok r)
      × (r.target_temperature ≡ s.target_temperature)
      × (r.mode ≡ some s.mode)
unfolding set_state_payload
parse-set_state_payload s k p e lo hi h c e₂ e₁₃ =
    let (same_target, same_mode) =
      reads_back-holds s.mode k s.target_temperature (get_or p 2 0) (get_or p 13 0)
        (all_below_sound 88 (reads_back s.mode) k (reads_back_all s.mode) hi) lo e e₂ e₁₃ in
    report-reads p s.mode s.target_temperature h c same_target same_mode

length-command_body :
    (payload : List ℕ) (id : ℕ) → length (command_body payload id) ≡ length payload + 2
unfolding command_body
length-command_body payload id = omega (
  arith,
  length-append (payload ++ (id ∷ [])) (calculate (payload ++ (id ∷ [])) ∷ []),
  length-append payload (id ∷ []),
)

-- The frame of a command of up to 243 bytes parses to the payload, the message id and a last byte
-- that makes the CRC-8 over the whole body 0.
pub parse-finish :
    (t : FrameType) (payload junk : List ℕ) (id : ℕ)
    → length payload ≤ 243
    → (crc : ℕ) × (parse_frame (finish t payload id ++ junk) air_conditioner
        ≡ ok ((payload ++ (id ∷ [])) ++ (crc ∷ [])))
      × (calculate ((payload ++ (id ∷ [])) ++ (crc ∷ [])) ≡ 0)
unfolding finish command_body
parse-finish t payload junk id h = (
  calculate (payload ++ (id ∷ [])),
  parse-build air_conditioner t (command_body payload id) junk
      (omega (arith, length-command_body payload id)),
  calculate-append (payload ++ (id ∷ [])),
)
