-- ===== src/Device/Session/Waiting.antt =====
-- crates/breeze-device/src/session.rs: the loops end, and a request is sent a bounded number of times.
use breeze_core_native.Common.{
  ℕ, zero, suc, ◌+◌, ◌-◌, ◌<◌, Bool, true, false, not, ◌==◌, Option, none, some, List, [], ◌∷◌,
  ◌++◌, length, Outcome, ok, err, panic, is_ok, Bool-cases, inl, inr, length-append, ◌≡◌, refl, ap,
  ◌∙◌, arith,
}
use breeze_core_native.Device.Error.{ErrorKind, timed_out, DeviceError}
use breeze_core_native.Device.Session.{Session, ReadAnswer, ReadResult, bytes, failed, take_packet}
use breeze_core_native.Device.Session.Transfer.{
  Reading, on_taken, before_read, after_read, return_or, read_until, read_packet, joined, absorb,
  settle_absorb, discard_one, absorb_fuel, absorb_late_replies,
}
use breeze_core_native.Device.Session.Framing.{Conserved, read_packet-Conserved}

abbrev pub panics : {A : Type 0} → Outcome DeviceError A → Bool
panics panic = true
panics _ = false

take_packet-no_panic : (rx : List ℕ) → panics (take_packet rx).0 ≡ false
unfolding take_packet
take_packet-no_panic rx = ground arith

-- What the loop returns, if it does, is no panic.
abbrev settles : Option (Outcome DeviceError (List ℕ)) → Bool
settles none = true
settles (some o) = not (panics o)

on_taken-settles :
    (deadline now : ℕ) (taken : Outcome DeviceError (Option (List ℕ))) (rx : List ℕ)
    → panics taken ≡ false
    → settles (on_taken deadline now taken rx).0 ≡ true
on_taken-settles deadline now (err e) rx h = refl
on_taken-settles deadline now panic rx h = cc
on_taken-settles deadline now (ok (some packet)) rx h = refl
on_taken-settles deadline now (ok none) rx h = ground arith

failed-settles : (kind : ErrorKind) (rx : List ℕ) → settles (after_read (failed kind) rx).0 ≡ true
unfolding after_read
failed-settles timed_out rx = refl
failed-settles _ rx = refl

after_read-settles : (result : ReadResult) (rx : List ℕ) → settles (after_read result rx).0 ≡ true
unfolding after_read
after_read-settles (bytes []) rx = refl
after_read-settles (bytes (b ∷ bs)) rx = refl
after_read-settles (failed kind) rx = failed-settles kind rx

return_or-no_panic :
    (o : Option (Outcome DeviceError (List ℕ))) (r : Reading)
    (next : Outcome DeviceError (List ℕ) × Reading)
    → settles o ≡ true
    → panics next.0 ≡ false
    → panics (return_or o r next).0 ≡ false
return_or-no_panic none r next h later = later
return_or-no_panic (some panic) r next h later = cc
return_or-no_panic (some (ok packet)) r next h later = refl
return_or-no_panic (some (err e)) r next h later = refl

read_until-no_panic :
    (deadline now : ℕ) (reads : List ReadAnswer) (rx : List ℕ)
    → panics (read_until deadline now reads rx).0 ≡ false
unfolding read_until before_read
read_until-no_panic deadline now [] rx =
    return_or-no_panic _ _ _ (on_taken-settles deadline now _ _ (take_packet-no_panic rx)) refl
read_until-no_panic deadline now (answer ∷ later) rx =
    let rx1 = (before_read deadline now rx).1 in
    let bottom = after_read answer.result rx1 in
    return_or-no_panic _ _ _ (on_taken-settles deadline now _ _ (take_packet-no_panic rx)) (
      return_or-no_panic _ _ _ (after_read-settles answer.result rx1)
        (read_until-no_panic deadline (now + answer.took) later bottom.1))

pub read_packet-no_panic : (timeout : ℕ) (s : Session) → panics (read_packet timeout s).0 ≡ false
unfolding read_packet
read_packet-no_panic timeout s = read_until-no_panic _ _ _ _

-- A packet that is given leaves fewer bytes.
Conserved-shrinks :
    (o : Outcome DeviceError (List ℕ)) (left all : List ℕ)
    → Conserved o left all
    → is_ok o ≡ true
    → length left < length all
unfolding Conserved
Conserved-shrinks (ok p) left all (e, packet) h = ground (arith, length-append p left, packet)
Conserved-shrinks (err e) left all h t = cc
Conserved-shrinks panic left all h t = cc

settle_absorb-same :
    (o : Outcome DeviceError (List ℕ)) (s a b : Session)
    → (is_ok o ≡ true → a ≡ b)
    → settle_absorb o s a ≡ settle_absorb o s b
settle_absorb-same (ok p) s a b h = h refl
settle_absorb-same _ s a b h = refl

-- While it has more fuel than there are bytes, one more turn changes nothing.
absorb-more :
    (fuel deadline : ℕ) (s : Session)
    → length (s.rx ++ joined s.stream.reads) < fuel
    → absorb (suc fuel) deadline s ≡ absorb fuel deadline s
unfolding absorb
absorb-more zero deadline s h = absurd (omega arith)
absorb-more (suc fuel) deadline s h = elim (Bool-cases (deadline - s.stream.now == 0)) [
  | inl late ↦ rw late refl
  | inr early ↦
      let (o, s') = read_packet (deadline - s.stream.now) s in
      let kept = read_packet-Conserved (deadline - s.stream.now) s in
      rw early (
        settle_absorb-same o s' _ _ (λ t.
          absorb-more fuel deadline (discard_one s')
            (omega (arith, Conserved-shrinks _ _ _ kept t))))
]

absorb-extra :
    (extra fuel deadline : ℕ) (s : Session)
    → length (s.rx ++ joined s.stream.reads) < fuel
    → absorb (extra + fuel) deadline s ≡ absorb fuel deadline s
absorb-extra zero fuel deadline s h = ap (λ n. absorb n deadline s) (omega arith)
absorb-extra (suc extra) fuel deadline s h =
    ap (λ n. absorb n deadline s) (omega arith)
    ∙ (absorb-more (extra + fuel) deadline s (omega arith) ∙ absorb-extra extra fuel deadline s h)

-- The loop of `absorb_late_replies` ends: whatever more fuel it has, it does the same.
pub absorb_late_replies-ends :
    (extra : ℕ) (s : Session)
    → absorb (extra + absorb_fuel s) (s.stream.now + s.timing.linger) s ≡ absorb_late_replies s
unfolding absorb_late_replies
absorb_late_replies-ends extra s = absorb-extra extra (absorb_fuel s) _ s (omega arith)
