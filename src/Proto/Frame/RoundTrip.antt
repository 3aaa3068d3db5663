-- ===== src/Proto/Frame/RoundTrip.antt =====
-- `build` and `parse` of crates/breeze-proto/src/frame.rs against each other.
use mathlib.Core.List.{append_assoc}
use breeze_core_native.Common.{
  ℕ, ◌+◌, ◌-◌, ◌%◌, ◌≤◌, ◌≡◌, refl, ◌∙◌, List, [], ◌∷◌, ◌++◌, arith, length, get_or, ok,
  length-append, take-append, get_or-append, get_or-append_left, slice-middle,
}
use breeze_core_native.Common.Bytes.{AreBytes}
use breeze_core_native.Proto.Frame.{
  DeviceType, air_conditioner, device_byte, FrameType, control, frame_byte, checksum, build,
  parse_cut, parse,
}

-- `parse` cuts a frame to its declared length and goes on with that part alone.
pub parse-cut :
    (d : DeviceType) (cut junk : List ℕ)
    → get_or (cut ++ junk) 1 0 + 1 ≡ length cut
    → 10 ≤ length cut
    → parse (cut ++ junk) d ≡ parse_cut cut d
unfolding parse
parse-cut d cut junk e h =
    ground (arith, length-append cut junk, take-append (get_or (cut ++ junk) 1 0 + 1) cut junk)

-- What `parse_cut` answers on a frame of the first byte `x`, the body and the checksum byte `c`.
parse_cut-parts :
    (d : DeviceType) (x c : ℕ) (head payload : List ℕ)
    → length head ≡ 9
    → get_or head 1 0 ≡ device_byte d
    → checksum (head ++ payload) ≡ c
    → parse_cut (x ∷ ((head ++ payload) ++ (c ∷ []))) d ≡ ok payload
unfolding parse_cut
parse_cut-parts d x c head payload e g h = ground (
  arith,
  append_assoc head payload (c ∷ []),
  length-append head (payload ++ (c ∷ [])),
  length-append payload (c ∷ []),
  length-append head payload,
  slice-middle 1 (length (x ∷ ((head ++ payload) ++ (c ∷ []))) - 1) (x ∷ []) (head ++ payload)
      (c ∷ []),
  get_or-append (length (x ∷ ((head ++ payload) ++ (c ∷ []))) - 1) (x ∷ (head ++ payload)) c [] 0,
  get_or-append_left head (payload ++ (c ∷ [])) 1 0,
  slice-middle 10 (length (x ∷ ((head ++ payload) ++ (c ∷ []))) - 1) (x ∷ head) payload (c ∷ []),
)

-- What `build` puts between the start byte and the payload.
abbrev pub header_tail : DeviceType → FrameType → ℕ → List ℕ
header_tail d t n = ((n + 10) % 256) ∷ device_byte d ∷ 0 ∷ 0 ∷ 0 ∷ 0 ∷ 0 ∷ 0 ∷ frame_byte t ∷ []

pub length-build :
    (d : DeviceType) (t : FrameType) (payload : List ℕ)
    → length (build d t payload) ≡ length payload + 11
unfolding build
length-build d t payload =
    omega
      (arith, length-append payload (checksum (header_tail d t (length payload) ++ payload) ∷ []))

-- `parse` reads back the payload that `build` framed, up to 245 bytes, whatever follows the frame.
pub parse-build :
    (d : DeviceType) (t : FrameType) (payload junk : List ℕ)
    → length payload ≤ 245
    → parse (build d t payload ++ junk) d ≡ ok payload
unfolding build
parse-build d t payload junk h =
    parse-cut d (build d t payload) junk (omega (arith, length-build d t payload))
      (omega (arith, length-build d t payload))
    ∙ parse_cut-parts d 0xAA _ (header_tail d t (length payload)) payload refl refl refl

pub header_tail-AreBytes :
    (d : DeviceType) (t : FrameType) (n : ℕ) (payload : List ℕ)
    → AreBytes payload
    → AreBytes (header_tail d t n ++ payload)
header_tail-AreBytes air_conditioner control n payload h = ground arith
header_tail-AreBytes air_conditioner _ n payload h = ground arith
