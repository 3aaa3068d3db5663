-- ===== src/Device/Tests/Sessions.antt =====
-- Sessions of crates/breeze-device over a stream that is written out.
use breeze_core_native.Common.{
  ℕ, ◌+◌, ◌≤◌, ◌≡◌, inl, inr, refl, false, List, [], ◌∷◌, ◌++◌, ok, err, arith, length, max,
}
use breeze_core_native.Common.Bytes.{bytes_eq}
use breeze_core_native.Proto.Lan.{packet_len}
use breeze_core_native.Device.Error.{interrupted, timed_out, io}
use breeze_core_native.Device.Session.{
  Session, ReadAnswer, bytes, failed, new, take_packet, bump_packet_id,
}
use breeze_core_native.Device.Session.Transfer.{
  before_read, after_read, read_until, read_packet, joined, absorb, absorb_fuel,
  absorb_late_replies, read_waiting, take_all, finish_fragment, drain,
}
use breeze_core_native.Device.Session.Requests.{
  handshake_bytes, write_all, settle_send, send_until, send_and_wait,
}
use breeze_core_native.Device.Session.Framing.{Conserved, IsPacket, read_packet-Conserved}
use breeze_core_native.Device.Session.Reassembly.{read_packet-whole}
use breeze_core_native.Device.Session.Waiting.{panics, absorb_late_replies-ends}
use breeze_core_native.Device.Session.Resending.{send_and_wait-Bounded}
use breeze_core_native.Device.Session.Draining.{nothing_more, drain-whole}

abbrev packet : List ℕ
packet = 0x83 ∷ 0x70 ∷ 0 ∷ 1 ∷ 0x20 ∷ 3 ∷ 9 ∷ 8 ∷ 7 ∷ []

-- The packet in two reads with an interruption between them, and the front of another one.
abbrev cut_up : List ReadAnswer
cut_up =
    record { took = 300; result = bytes (0x83 ∷ []) }
    ∷ record { took = 0; result = failed interrupted }
    ∷ record { took = 5; result = bytes (0x70 ∷ 0 ∷ 1 ∷ 0x20 ∷ 3 ∷ 9 ∷ 8 ∷ 7 ∷ 0x83 ∷ []) }
    ∷ []

abbrev over : List ReadAnswer → Session
over reads = new (record { now = 0; reads = reads; writes = []; sent = [] })

abbrev received : Session
received = record (over []) {
  stream = record { now = 305; reads = []; writes = []; sent = [] };
  rx = 0x83 ∷ [];
}

read_packet_test : read_packet 2000 (over cut_up) ≡ (ok packet, received)
unfolding read_packet read_until before_read after_read take_packet packet_len bytes_eq
read_packet_test = refl

packet-IsPacket : IsPacket packet
unfolding packet_len
packet-IsPacket = (refl, refl, omega arith, omega arith)

read_packet-Conserved_example :
    Conserved
      (read_packet 2000 (over cut_up)).0
      ((read_packet 2000 (over cut_up)).1.rx
        ++ joined (read_packet 2000 (over cut_up)).1.stream.reads)
      (packet ++ (0x83 ∷ []))
read_packet-Conserved_example = read_packet-Conserved 2000 (over cut_up)

read_packet-whole_example :
    (s' : Session) × (read_packet 2000 (over cut_up) ≡ (ok packet, s'))
    × (s'.rx ++ joined s'.stream.reads ≡ 0x83 ∷ [])
read_packet-whole_example =
    read_packet-whole 2000 (over cut_up) packet (0x83 ∷ []) packet-IsPacket
      (inr (0x83, [], refl), (inl refl, (inr (0x70, _, refl), tt))) (omega arith) refl

abbrev token : List ℕ
token = 1 ∷ 2 ∷ []

-- Nobody answers: three sends, and a timeout.
abbrev silence : List ReadAnswer
silence =
    record { took = 2000; result = failed timed_out }
    ∷ record { took = 2000; result = failed timed_out }
    ∷ record { took = 2000; result = failed timed_out }
    ∷ []

send_and_wait_test : (send_and_wait (handshake_bytes token) (over silence)).0 ≡ err (io timed_out)
unfolding send_and_wait send_until handshake_bytes bump_packet_id write_all settle_send read_packet
    read_until before_read after_read take_packet packet_len bytes_eq
send_and_wait_test = refl

send_and_wait-Bounded_example :
    (panics (send_and_wait (handshake_bytes token) (over silence)).0 ≡ false)
    × (length (send_and_wait (handshake_bytes token) (over silence)).1.stream.sent ≤ 0 + max 1 3)
    × ((send_and_wait (handshake_bytes token) (over silence)).1.timing ≡ (over silence).timing)
unfolding handshake_bytes bump_packet_id
send_and_wait-Bounded_example =
    send_and_wait-Bounded (handshake_bytes token) (over silence) (λ s. (refl, refl, refl))

absorb_late_replies-ends_example :
    absorb (5 + absorb_fuel (over cut_up)) (0 + 1000) (over cut_up)
    ≡ absorb_late_replies (over cut_up)
absorb_late_replies-ends_example = absorb_late_replies-ends 5 (over cut_up)

-- Two stale replies wait, one of them in the buffer.
abbrev stale : Session
stale = record (over (record { took = 0; result = bytes packet } ∷ nothing_more 0 ∷ [])) {
  rx = packet;
}

drain-whole_example :
    ((drain stale).0 ≡ ok tt)
    × ((drain stale).1.rx ≡ [])
    × ((drain stale).1.stream.reads ≡ [])
    × ((drain stale).1.stats.discarded ≡ 0 + 2)
drain-whole_example =
    drain-whole stale (record { took = 0; result = bytes packet } ∷ []) [] 0 (packet ∷ packet ∷ [])
      refl (inr (0x83, _, refl), tt) refl (packet-IsPacket, (packet-IsPacket, tt))

-- A fragment waits, and the read that finishes it brings another stale packet: that one stays in the
-- buffer, where the next request finds it as its answer.
abbrev fragment : Session
fragment =
    record (over (
      nothing_more 0
      ∷ record { took = 10; result = bytes (0x70 ∷ 0 ∷ 1 ∷ 0x20 ∷ 3 ∷ 9 ∷ 8 ∷ 7 ∷ packet) }
      ∷ [])) { rx = 0x83 ∷ [] }

stale_reply_test : ((drain fragment).0 ≡ ok tt) × ((drain fragment).1.rx ≡ packet)
unfolding drain read_waiting take_all finish_fragment read_packet read_until before_read after_read
    take_packet packet_len bytes_eq
stale_reply_test = (refl, refl)
