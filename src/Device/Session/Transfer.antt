-- ===== src/Device/Session/Transfer.antt =====
-- crates/breeze-device/src/session.rs: reading a packet, clearing what nobody waits for, sending and
-- resending. `Instant::now()` is the link's clock. A loop that can turn without a read of its own has
-- fuel; Device/Session/Waiting.antt shows that it is enough.
use breeze_core_native.Common.{
  ℕ, zero, suc, ◌+◌, ◌-◌, Option, none, some, List, [], ◌∷◌, ◌++◌, ◌==◌, if◌then◌else◌, length,
  Outcome, ok, err, panic,
}
use breeze_core_native.Device.Error.{
  timed_out, would_block, unexpected_eof, interrupted, DeviceError, io,
}
use breeze_core_native.Device.Session.{Session, ReadAnswer, ReadResult, bytes, failed, take_packet}

-- What a step on the session gives, and the session behind it.
abbrev pub Ran : Type 0 → Type 0
Ran A = Outcome DeviceError A × Session

-- `?`: what follows a step that did not fail.
infixl 5 ◌and_then◌
abbrev pub ◌and_then◌ : {A B : Type 0} → Ran A → (A → Session → Ran B) → Ran B
(ok a, s) and_then f = f a s
(err e, s) and_then f = (err e, s)
(panic, s) and_then f = (panic, s)

abbrev pub closed : DeviceError
closed = io unexpected_eof

-- The part of the session that reading changes: the clock, the reads to come and the buffer.
pub record Reading : Type 0 where
  pub now : ℕ
  pub reads : List ReadAnswer
  pub rx : List ℕ

abbrev pub reading : Session → Reading
reading s = record { now = s.stream.now; reads = s.stream.reads; rx = s.rx }

abbrev pub with_reading : Session → Reading → Session
with_reading s r = record s { stream = record s.stream { now = r.now; reads = r.reads }; rx = r.rx }

-- The top of the loop of `read_packet`: what it returns there, if it does.
abbrev pub on_taken :
    ℕ
    → ℕ
    → Outcome DeviceError (Option (List ℕ))
    → List ℕ
    → Option (Outcome DeviceError (List ℕ)) × List ℕ
on_taken deadline now (err e) rx = (some (err e), rx)
on_taken deadline now panic rx = (some panic, rx)
on_taken deadline now (ok (some packet)) rx = (some (ok packet), rx)
on_taken deadline now (ok none) rx =
    if deadline - now == 0 then (some (err (io timed_out)), rx) else (none, rx)

unfoldable pub before_read : ℕ → ℕ → List ℕ → Option (Outcome DeviceError (List ℕ)) × List ℕ
before_read deadline now rx = let (taken, rx) = take_packet rx in on_taken deadline now taken rx

-- And what it returns for the answer of the read, if it does.
unfoldable pub after_read : ReadResult → List ℕ → Option (Outcome DeviceError (List ℕ)) × List ℕ
after_read (bytes []) rx = (some (err closed), rx)
after_read (bytes (b ∷ bs)) rx = (none, rx ++ (b ∷ bs))
after_read (failed interrupted) rx = (none, rx)
after_read (failed would_block) rx = (some (err (io timed_out)), rx)
after_read (failed timed_out) rx = (some (err (io timed_out)), rx)
after_read (failed kind) rx = (some (err (io kind)), rx)

abbrev pub return_or :
    Option (Outcome DeviceError (List ℕ))
    → Reading
    → Outcome DeviceError (List ℕ) × Reading
    → Outcome DeviceError (List ℕ) × Reading
return_or (some o) r later = (o, r)
return_or none r later = later

-- The loop of `read_packet`, by recursion on the reads.
unfoldable pub read_until :
    ℕ → ℕ → List ReadAnswer → List ℕ → Outcome DeviceError (List ℕ) × Reading
read_until deadline now [] rx =
    let (top, rx) = before_read deadline now rx in
    let r : Reading = record { now = now; reads = []; rx = rx } in return_or top r (err closed, r)
read_until deadline now (answer ∷ later) rx =
    let (top, rx) = before_read deadline now rx in
    let (bottom, rx') = after_read answer.result rx in
    let rest = read_until deadline (now + answer.took) later rx' in
    return_or top (record { now = now; reads = answer ∷ later; rx = rx })
      (return_or bottom (record { now = now + answer.took; reads = later; rx = rx' }) rest)

unfoldable pub read_packet : ℕ → Session → Ran (List ℕ)
read_packet timeout s =
    let (o, r) = read_until (s.stream.now + timeout) s.stream.now s.stream.reads s.rx in
    (o, with_reading s r)

abbrev pub discard_one : Session → Session
discard_one s = record s { stats = record s.stats { discarded = s.stats.discarded + 1 } }

-- What follows a read of `absorb_late_replies`; `again` is the next turn of its loop.
abbrev pub settle_absorb : Outcome DeviceError (List ℕ) → Session → Session → Session
settle_absorb (ok packet) s again = again
settle_absorb _ s again = s

unfoldable pub absorb : ℕ → ℕ → Session → Session
absorb zero deadline s = s
absorb (suc fuel) deadline s =
    let (o, s') = read_packet (deadline - s.stream.now) s in
    let again = absorb fuel deadline (discard_one s') in
    if deadline - s.stream.now == 0 then s else settle_absorb o s' again

-- All the bytes that are still to come.
abbrev pub joined : List ReadAnswer → List ℕ
joined [] = []
joined (answer ∷ later) = elim answer.result [
  | bytes bs ↦ bs ++ joined later
  | failed kind ↦ joined later
]

abbrev pub absorb_fuel : Session → ℕ
absorb_fuel s = suc (length (s.rx ++ joined s.stream.reads))

unfoldable pub absorb_late_replies : Session → Session
absorb_late_replies s = absorb (absorb_fuel s) (s.stream.now + s.timing.linger) s

-- The first loop of `drain`: what has already arrived is read until nothing is there.
unfoldable pub read_waiting :
    List ReadAnswer → ℕ → List ℕ → Outcome DeviceError (Unit {0}) × Reading
read_waiting [] now rx = (err closed, record { now = now; reads = []; rx = rx })
read_waiting (answer ∷ later) now rx =
    let now = now + answer.took in
    elim answer.result [
      | bytes [] ↦ (err closed, record { now = now; reads = later; rx = rx })
      | bytes (b ∷ bs) ↦ read_waiting later now (rx ++ (b ∷ bs))
      | failed would_block ↦ (ok tt, record { now = now; reads = later; rx = rx })
      | failed interrupted ↦ read_waiting later now rx
      | failed kind ↦ (err (io kind), record { now = now; reads = later; rx = rx })
    ]

-- The second: whole packets are taken off the buffer, and counted.
unfoldable pub take_all : ℕ → ℕ → List ℕ → Outcome DeviceError (Unit {0}) × (ℕ × List ℕ)
take_all zero discarded rx = (panic, (discarded, rx))
take_all (suc fuel) discarded rx =
    let (taken, rx) = take_packet rx in
    elim taken [
      | ok (some packet) ↦ take_all fuel (discarded + 1) rx
      | ok none ↦ (ok tt, (discarded, rx))
      | err e ↦ (err e, (discarded, rx))
      | panic ↦ (panic, (discarded, rx))
    ]

abbrev with_discarded : Session → ℕ → List ℕ → Session
with_discarded s discarded rx = record s {
  rx = rx;
  stats = record s.stats { discarded = discarded };
}

-- A fragment that is left is finished and thrown away.
unfoldable pub finish_fragment : Session → Ran (Unit {0})
finish_fragment s =
    if length s.rx == 0
    then (ok tt, s)
    else read_packet s.timing.reply_timeout s and_then λ packet s. (ok tt, discard_one s)

unfoldable pub drain : Session → Ran (Unit {0})
drain s =
    let (waited, r) = read_waiting s.stream.reads s.stream.now s.rx in
    (waited, with_reading s r) and_then λ _ s.
    let (taken, (discarded, rx)) = take_all (suc (length s.rx)) s.stats.discarded s.rx in
    (taken, with_discarded s discarded rx) and_then λ _ s. finish_fragment s
