-- ===== src/Device/Session/Draining.antt =====
-- crates/breeze-device/src/session.rs: what has arrived before a request is thrown away.
use mathlib.Core.List.{append_assoc, append-nil}
use breeze_core_native.Common.{
  ℕ, zero, suc, ◌+◌, ◌≤◌, ◌<◌, none, some, List, [], ◌∷◌, ◌++◌, length, Outcome, ok, inl, inr, All,
  length-append, drop-append, ◌≡◌, refl, sym, ap, ◌∙◌, arith,
}
use breeze_core_native.Proto.Lan.{packet_len}
use breeze_core_native.Device.Error.{would_block, DeviceError}
use breeze_core_native.Device.Session.{Session, ReadAnswer, failed, take_packet}
use breeze_core_native.Device.Session.Transfer.{
  Reading, joined, read_waiting, take_all, finish_fragment, drain,
}
use breeze_core_native.Device.Session.Framing.{IsPacket}
use breeze_core_native.Device.Session.Reassembly.{GoesOn, elapsed, take_packet-whole}

abbrev pub concat : List (List ℕ) → List ℕ
concat [] = []
concat (p ∷ ps) = p ++ concat ps

-- A read that finds nothing.
abbrev pub nothing_more : ℕ → ReadAnswer
nothing_more took = record { took = took; result = failed would_block }

read_waiting-step :
    (answer : ReadAnswer) (reads : List ReadAnswer) (now : ℕ) (rx : List ℕ)
    → GoesOn answer.result
    → (rx' : List ℕ) × (read_waiting (answer ∷ reads) now rx
        ≡ read_waiting reads (now + answer.took) rx')
      × ((later : List ReadAnswer) → rx' ++ joined later ≡ rx ++ joined (answer ∷ later))
unfolding read_waiting
read_waiting-step answer reads now rx (inl e) = (rx, rw e refl, λ later. rw e refl)
read_waiting-step answer reads now rx (inr (b, bs, e)) =
    (rx ++ (b ∷ bs), rw e refl, λ later. rw e (append_assoc rx (b ∷ bs) (joined later)))

abbrev waited : List ReadAnswer → ℕ → List ℕ → Outcome DeviceError (Unit {0}) × Reading
waited later now rx = (ok tt, record { now = now; reads = later; rx = rx })

waited-same :
    (later : List ReadAnswer) (now now' : ℕ) (rx rx' : List ℕ)
    → now ≡ now'
    → rx ≡ rx'
    → waited later now rx ≡ waited later now' rx'
waited-same later now now' rx rx' e e' = rw (e, e') refl

read_waiting_through :
    (waiting : List ReadAnswer) (took : ℕ) (later : List ReadAnswer) (now : ℕ) (rx : List ℕ)
    → All (λ answer. GoesOn answer.result) waiting
    → read_waiting (waiting ++ (nothing_more took ∷ later)) now rx
      ≡ waited later (now + elapsed waiting + took) (rx ++ joined waiting)
unfolding read_waiting
read_waiting_through [] took later now rx goes =
    waited-same later _ _ _ _ (omega arith) (sym (append-nil rx))
read_waiting_through (answer ∷ waiting) took later now rx goes =
    let (rx', step, same) =
      read_waiting-step answer (waiting ++ (nothing_more took ∷ later)) now rx goes.0 in
    step
    ∙ (read_waiting_through waiting took later (now + answer.took) rx' goes.1
        ∙ waited-same later _ _ _ _ (omega arith) (same waiting))

take_packet-empty : take_packet [] ≡ (ok none, [])
unfolding take_packet packet_len
take_packet-empty = ground arith

take_all-step :
    (fuel discarded : ℕ) (rx p rx' : List ℕ)
    → take_packet rx ≡ (ok (some p), rx')
    → take_all (suc fuel) discarded rx ≡ take_all fuel (discarded + 1) rx'
unfolding take_all
take_all-step fuel discarded rx p rx' e = ground (arith, e)

take_all-whole :
    (ps : List (List ℕ)) (fuel discarded : ℕ)
    → All IsPacket ps
    → length ps < fuel
    → take_all fuel discarded (concat ps) ≡ (ok tt, (discarded + length ps, []))
unfolding take_all
take_all-whole ps zero discarded packets h = absurd (omega arith)
take_all-whole [] (suc fuel) discarded packets h = ground (arith, take_packet-empty)
take_all-whole (p ∷ ps) (suc fuel) discarded packets h =
    let e : concat (p ∷ ps) ++ [] ≡ p ++ concat ps = append-nil (p ++ concat ps) in
    let front =
      take_packet-whole p (concat (p ∷ ps)) [] (concat ps) packets.0 e
        (omega (arith, length-append p (concat ps))) in
    let next = take_all-whole ps fuel (discarded + 1) packets.1 (omega arith) in
    take_all-step fuel discarded (concat (p ∷ ps)) p (concat ps)
      (front ∙ ap (λ t. (ok (some p), t)) (drop-append (length p) p (concat ps) refl))
    ∙ (next ∙ ap (λ n. (ok tt, (n, []))) (omega arith))

length-concat : (ps : List (List ℕ)) → All IsPacket ps → length ps ≤ length (concat ps)
length-concat [] packets = omega arith
length-concat (p ∷ ps) ((m, framed, lo, hi), packets) =
    omega (arith, length-append p (concat ps), length-concat ps packets)

-- Where all that waits is whole packets, up to a read that finds nothing more, `drain` throws every one
-- of them away, and counts them, and the next request starts with an empty buffer.
pub drain-whole :
    (s : Session) (waiting later : List ReadAnswer) (took : ℕ) (ps : List (List ℕ))
    → s.stream.reads ≡ waiting ++ (nothing_more took ∷ later)
    → All (λ answer. GoesOn answer.result) waiting
    → s.rx ++ joined waiting ≡ concat ps
    → All IsPacket ps
    → let (o, s') = drain s in
      (o ≡ ok tt)
      × (s'.rx ≡ [])
      × (s'.stream.reads ≡ later)
      × (s'.stats.discarded ≡ s.stats.discarded + length ps)
unfolding drain finish_fragment
drain-whole s waiting later took ps reads goes e packets =
    let first = read_waiting_through waiting took later s.stream.now s.rx goes in
    let second =
      take_all-whole ps (suc (length (concat ps))) s.stats.discarded packets
        (omega (arith, length-concat ps packets)) in
    rw (reads, first, e, second) (refl, refl, refl, refl)
