-- ===== src/Device/Error.antt =====
-- crates/breeze-device/src/error.rs: what can go wrong with a unit. Of an `std::io::Error` its kind is
-- kept; the kinds that the code does not name are `other`.
use breeze_core_native.Common.{ℕ, Bool, true, false}
use breeze_core_native.Proto.Lan.{LanError, bad_signature, incomplete}
use breeze_core_native.Proto.Packet.{PacketError}
use breeze_core_native.Proto.Frame.{FrameError}
use breeze_core_native.Proto.Ac.Response.{ResponseError}

pub data ErrorKind : Type 0 where
  timed_out would_block connection_reset connection_aborted broken_pipe unexpected_eof : ErrorKind
  interrupted other : ErrorKind

pub data DeviceError : Type 0 where
  io : ErrorKind → DeviceError
  protocol : LanError → DeviceError
  packet : PacketError → DeviceError
  frame : FrameError → DeviceError
  response : ResponseError → DeviceError
  not_authenticated : DeviceError
  packet_too_large : ℕ → DeviceError
  missing_credentials : DeviceError
  unreachable : ℕ → DeviceError

abbrev retryable_kind : ErrorKind → Bool
retryable_kind interrupted = false
retryable_kind other = false
retryable_kind _ = true

abbrev retryable_lan : LanError → Bool
retryable_lan bad_signature = true
retryable_lan (incomplete need have) = true
retryable_lan _ = false

unfoldable pub is_retryable : DeviceError → Bool
is_retryable (io kind) = retryable_kind kind
is_retryable (protocol e) = retryable_lan e
is_retryable not_authenticated = true
is_retryable _ = false
