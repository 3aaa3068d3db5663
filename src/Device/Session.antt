-- ===== src/Device/Session.antt =====
-- crates/breeze-device/src/session.rs: a V3 session over a byte stream. The stream is what it will
-- answer: `reads` lists the answers of the coming reads, `writes` those of the coming writes, and
-- each read says how long it took. Behind the list of reads the peer has closed, behind the list of
-- writes they succeed. A deadline that cannot be set is a read that fails. Times are milliseconds.
pub mod Transfer
pub mod Requests
pub mod Framing
pub mod Reassembly
pub mod Waiting
pub mod Resending
pub mod Draining
use breeze_core_native.Common.{
  ℕ, zero, suc, ◌+◌, ◌-◌, ◌%◌, ◌*◌, Bool, true, false, not, ◌&&◌, Option, none, some, List, [], ◌∷◌,
  ◌++◌, ltb, leb, ◌==◌, if◌then◌else◌, length, get_or, take, drop, Outcome, ok, err, panic,
}
use breeze_core_native.Common.Bytes.{bytes_eq}
use breeze_core_native.Proto.Security.{Aes}
use breeze_core_native.Proto.Lan.{
  LanError, not_a_packet, unexpected_type, packet_len, type_byte, handshake_response,
  encrypted_response, Decoded, handshake, response, derive_session_key, encode_handshake,
  encode_request, decode,
}
use breeze_core_native.Device.Error.{
  ErrorKind, timed_out, would_block, unexpected_eof, interrupted, DeviceError, io, protocol,
  packet_too_large, not_authenticated,
}

abbrev session_lifetime : ℕ
session_lifetime = 12 * 60 * 60 * 1000

abbrev pub max_packet : ℕ
max_packet = 8192

pub record Timing : Type 0 where
  pub settle : ℕ
  pub reply_timeout : ℕ
  pub sends : ℕ
  pub linger : ℕ

abbrev pub default_timing : Timing
default_timing = record { settle = 1000; reply_timeout = 2000; sends = 3; linger = 1000 }

-- `bytes []` is `Ok(0)`.
pub data ReadResult : Type 0 where
  bytes : List ℕ → ReadResult
  failed : ErrorKind → ReadResult

pub record ReadAnswer : Type 0 where
  pub took : ℕ
  pub result : ReadResult

pub record Link : Type 0 where
  pub now : ℕ
  pub reads : List ReadAnswer
  pub writes : List (Option ErrorKind)
  pub sent : List (List ℕ)

pub record LinkStats : Type 0 where
  pub resends : ℕ
  pub discarded : ℕ

pub record Session : Type 0 where
  pub stream : Link
  pub session_key : Option (List ℕ)
  pub authenticated_at : Option ℕ
  pub packet_id : ℕ
  pub timing : Timing
  pub rx : List ℕ
  pub stats : LinkStats

abbrev pub new : Link → Session
new stream = record {
  stream = stream;
  session_key = none;
  authenticated_at = none;
  packet_id = 1;
  timing = default_timing;
  rx = [];
  stats = record { resends = 0; discarded = 0 };
}

unfoldable pub is_authenticated : Session → Bool
is_authenticated s = elim s.session_key [
  | none ↦ false
  | some key ↦ elim s.authenticated_at [
    | none ↦ false
    | some at ↦ ltb (s.stream.now - at) session_lifetime
  ]
]

-- What comes of the receive buffer `rx`: a packet, if one is whole, and the new buffer.
unfoldable pub take_packet : List ℕ → Outcome DeviceError (Option (List ℕ)) × List ℕ
take_packet rx =
    if leb 2 (length rx) && not (bytes_eq (take 2 rx) (0x83 ∷ 0x70 ∷ []))
    then (err (protocol (not_a_packet (get_or rx 0 0) (get_or rx 1 0))), [])
    else elim (packet_len rx) [
      | none ↦ (ok none, rx)
      | some total ↦
          if ltb max_packet total
          then (err (packet_too_large total), [])
          else if ltb (length rx) total
          then (ok none, rx)
          else (ok (some (take total rx)), drop total rx)
    ]

unfoldable pub bump_packet_id : Session → Session
bump_packet_id s = record s { packet_id = (s.packet_id + 1) % 0x1000 }
