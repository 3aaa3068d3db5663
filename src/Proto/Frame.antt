-- ===== src/Proto/Frame.antt =====
-- crates/breeze-proto/src/frame.rs: the 0xAA-framed appliance messages. A byte is a number below
-- 256; a slice or an index out of range is the outcome `panic`.
pub mod Checksum
pub mod RoundTrip
pub mod Received
use breeze_core_native.Common.{
  ℕ, ◌+◌, ◌-◌, ◌%◌, not, List, [], ◌∷◌, ◌++◌, Option, none, some, foldl, ltb, ◌==◌, if◌then◌else◌,
  length, get_or, set, take, drop, replicate, slice, Outcome, ok, err, panic, ◌>>=◌,
}
use breeze_core_native.Common.Bytes.{wrapping_add, complement}

abbrev pub header_len : ℕ
header_len = 10

pub data DeviceType : Type 0 where
  air_conditioner : DeviceType

abbrev pub device_byte : DeviceType → ℕ
device_byte air_conditioner = 0xAC

pub data FrameType : Type 0 where
  control query report abnormal_report : FrameType

abbrev pub frame_byte : FrameType → ℕ
frame_byte control = 0x02
frame_byte query = 0x03
frame_byte report = 0x04
frame_byte abnormal_report = 0x06

pub data FrameError : Type 0 where
  too_short : ℕ → FrameError
  length_mismatch : ℕ → ℕ → FrameError
  bad_checksum : ℕ → ℕ → FrameError
  wrong_device_type : ℕ → FrameError

-- The two's complement of the byte sum.
unfoldable pub checksum : List ℕ → ℕ
checksum bytes = wrapping_add (complement (foldl wrapping_add 0 bytes)) 1

header : DeviceType → FrameType → ℕ → List ℕ
header device frame_type payload_len =
    let frame = replicate header_len 0 in
    let frame = set frame 0 0xAA in
    let frame = set frame 1 ((payload_len + header_len) % 256) in
    let frame = set frame 2 (device_byte device) in set frame 9 (frame_byte frame_type)

unfoldable pub build : DeviceType → FrameType → List ℕ → List ℕ
unfolding header
build device frame_type payload =
    let frame = header device frame_type (length payload) ++ payload in
    frame ++ (checksum (drop 1 frame) ∷ [])

abbrev pub or_panic {ℓ} : {A : Type ℓ} → Option A → Outcome FrameError A
or_panic none = panic
or_panic (some a) = ok a

-- What is checked once the frame is cut to its declared length.
unfoldable pub parse_cut : List ℕ → DeviceType → Outcome FrameError (List ℕ)
parse_cut frame expected = do
  body ← or_panic (slice 1 (length frame - 1) frame)
  let found = get_or frame (length frame - 1) 0
  if not (checksum body == found)
      then err (bad_checksum (checksum body) found)
      else if not (get_or frame 2 0 == device_byte expected)
      then err (wrong_device_type (get_or frame 2 0))
      else or_panic (slice header_len (length frame - 1) frame)

unfoldable pub parse : List ℕ → DeviceType → Outcome FrameError (List ℕ)
unfolding parse_cut
parse frame expected =
    if ltb (length frame) header_len
    then err (too_short (length frame))
    else let declared = get_or frame 1 0 + 1 in
      if ltb (length frame) declared
      then err (length_mismatch declared (length frame))
      else parse_cut (take declared frame) expected
