-- ===== src/Device/Session/Reassembly.antt =====
-- crates/breeze-device/src/session.rs: a packet is read whole, however the stream is cut into reads.
use mathlib.Core.Path.{subst}
use mathlib.Core.List.{append_assoc, append-nil, append_cancel_left}
use breeze_core_native.Common.{
  ℕ, ◌+◌, ◌-◌, ◌≤◌, ◌<◌, false, ◌==◌, none, some, List, [], ◌∷◌, ◌++◌, ltb, leb, if◌then◌else◌,
  length, get_or, take, drop, ok, Bool-cases, inl, inr, ◌⊎◌, length-append, take-append,
  get_or-append_left, take-append_left, ◌≡◌, refl, sym, ap, ◌∙◌, arith, All,
}
use breeze_core_native.Common.Bytes.{bytes_eq_refl}
use breeze_core_native.Proto.Lan.{packet_len}
use breeze_core_native.Device.Error.{interrupted}
use breeze_core_native.Device.Session.{Session, ReadAnswer, ReadResult, bytes, failed, take_packet}
use breeze_core_native.Device.Session.Transfer.{
  before_read, after_read, read_until, read_packet, with_reading, joined,
}
use breeze_core_native.Device.Session.Framing.{IsPacket, Conserved, read_until-Conserved, magic}

module _ (p rx later rest : List ℕ) (e : rx ++ later ≡ p ++ rest) where
  same_take : (n : ℕ) → n ≤ length rx → n ≤ length p → take n rx ≡ take n p
  same_take n h h' =
      sym (take-append_left n rx later h) ∙ (ap (λ t. take n t) e ∙ take-append_left n p rest h')

  same_get : (i : ℕ) → i < length rx → i < length p → get_or rx i 0 ≡ get_or p i 0
  same_get i h h' =
      sym (get_or-append_left rx later i 0 h)
      ∙ (ap (λ t. get_or t i 0) e ∙ get_or-append_left p rest i 0 h')

  same_packet_len : 6 ≤ length rx → 8 ≤ length p → packet_len rx ≡ packet_len p
  unfolding packet_len
  same_packet_len h h' = ground (arith, same_get 2, same_get 3)

-- What `take_packet` does once the header is there.
take_packet-header :
    (p rx : List ℕ)
    → take 2 rx ≡ magic
    → packet_len rx ≡ some (length p)
    → length p ≤ 8192
    → take_packet rx ≡ (
        if ltb (length rx) (length p)
        then (ok none, rx)
        else (ok (some (take (length p) rx)), drop (length p) rx))
unfolding take_packet
take_packet-header p rx m framed hi = ground (arith, bytes_eq_refl magic)

-- The front of a packet: the buffer is left for more to come.
take_packet-front :
    (p rx later rest : List ℕ)
    → IsPacket p
    → rx ++ later ≡ p ++ rest
    → length rx < length p
    → take_packet rx ≡ (ok none, rx)
unfolding take_packet packet_len
take_packet-front p rx later rest (m, framed, lo, hi) e short =
    elim (Bool-cases (leb 2 (length rx))) [
      | inr two ↦ ground arith
      | inl two ↦
          let start : take 2 rx ≡ magic =
            same_take p rx later rest e 2 (ground arith) (omega arith) ∙ m in
          elim (Bool-cases (leb 6 (length rx))) [
            | inr six ↦ ground (arith, bytes_eq_refl magic)
            | inl six ↦ ground (arith, take_packet-header p rx, same_packet_len p rx later rest e)
          ]
    ]

pub take_packet-whole :
    (p rx later rest : List ℕ)
    → IsPacket p
    → rx ++ later ≡ p ++ rest
    → length p ≤ length rx
    → take_packet rx ≡ (ok (some p), drop (length p) rx)
take_packet-whole p rx later rest (m, framed, lo, hi) e long =
    let start : take 2 rx ≡ magic = same_take p rx later rest e 2 (omega arith) (omega arith) ∙ m in
    let all : take (length p) rx ≡ p =
      same_take p rx later rest e (length p) long (omega arith)
      ∙ (ap (λ t. take (length p) t) (sym (append-nil p)) ∙ take-append (length p) p [] refl) in
    ground (arith, take_packet-header p rx, same_packet_len p rx later rest e)

abbrev pub elapsed : List ReadAnswer → ℕ
elapsed [] = 0
elapsed (answer ∷ later) = answer.took + elapsed later

-- A read that brings something, or that a signal interrupts.
abbrev pub GoesOn : ReadResult → Type 0
GoesOn result =
    (result ≡ failed interrupted) ⊎ ((b : ℕ) × (bs : List ℕ) × (result ≡ bytes (b ∷ bs)))

after_read-GoesOn :
    (result : ReadResult) (rx : List ℕ) (took : ℕ) (reads : List ReadAnswer)
    → GoesOn result
    → let answer : ReadAnswer = record { took = took; result = result } in
      let (o, rx') = after_read result rx in
      (o ≡ none) × (rx' ++ joined reads ≡ rx ++ joined (answer ∷ reads))
unfolding after_read
after_read-GoesOn result rx took reads (inl e) = rw e (refl, refl)
after_read-GoesOn result rx took reads (inr (b, bs, e)) =
    rw e (refl, append_assoc rx (b ∷ bs) (joined reads))

-- A packet at the front of all the bytes that come is what `read_packet` gives, however they are cut
-- into reads, where every read brings something or is interrupted, and all are in time.
pub read_until-whole :
    (p rest : List ℕ) (deadline now : ℕ) (reads : List ReadAnswer) (rx : List ℕ)
    → IsPacket p
    → All (λ answer. GoesOn answer.result) reads
    → now + elapsed reads < deadline
    → rx ++ joined reads ≡ p ++ rest
    → (read_until deadline now reads rx).0 ≡ ok p
unfolding read_until before_read
read_until-whole p rest deadline now [] rx packet goes time e =
    ground (arith, take_packet-whole p rx [] rest packet e, append-nil rx, length-append p rest)
read_until-whole p rest deadline now (answer ∷ later) rx packet goes time e =
    elim (Bool-cases (ltb (length rx) (length p))) [
      | inr whole ↦ ground (arith, take_packet-whole p rx (joined (answer ∷ later)) rest packet e)
      | inl short ↦
          let (goes_on, same) = after_read-GoesOn answer.result rx answer.took later goes.0 in
          let front =
            take_packet-front p rx (joined (answer ∷ later)) rest packet e (ground arith) in
          let left : (deadline - now == 0) ≡ false = ground arith in
          rw (front, left, goes_on)
            (read_until-whole p rest deadline (now + answer.took) later _ packet goes.1
              (omega arith) (same ∙ e))
    ]

-- The packets are read one by one: the first of all the bytes that come is what `read_packet` gives,
-- and the bytes behind it are all still there, in the buffer or to come, where every read brings
-- something or is interrupted, and all are in time.
pub read_packet-whole :
    (timeout : ℕ) (s : Session) (p rest : List ℕ)
    → IsPacket p
    → All (λ answer. GoesOn answer.result) s.stream.reads
    → elapsed s.stream.reads < timeout
    → s.rx ++ joined s.stream.reads ≡ p ++ rest
    → (s' : Session) × (read_packet timeout s ≡ (ok p, s'))
      × (s'.rx ++ joined s'.stream.reads ≡ rest)
unfolding read_packet Conserved
read_packet-whole timeout s p rest packet goes time e =
    let deadline = s.stream.now + timeout in
    let r = read_until deadline s.stream.now s.stream.reads s.rx in
    let found : r.0 ≡ ok p =
      read_until-whole p rest deadline s.stream.now s.stream.reads s.rx packet goes (omega arith)
        e in
    let kept : Conserved (ok p) (r.1.rx ++ joined r.1.reads) (s.rx ++ joined s.stream.reads) =
      subst (λ o. Conserved o (r.1.rx ++ joined r.1.reads) (s.rx ++ joined s.stream.reads)) found
        (read_until-Conserved deadline s.stream.now s.stream.reads s.rx) in
    (
      with_reading s r.1,
      ap (λ o. (o, with_reading s r.1)) found,
      append_cancel_left p _ _ (kept.0 ∙ e),
    )
