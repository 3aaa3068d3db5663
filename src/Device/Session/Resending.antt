-- ===== src/Device/Session/Resending.antt =====
-- crates/breeze-device/src/session.rs: a request is sent a bounded number of times, and the wait for
-- its answer ends.
use breeze_core_native.Common.{
  ℕ, zero, suc, ◌+◌, ◌-◌, ◌≤◌, ◌<◌, max, true, false, ◌&&◌, ◌==◌, Option, none, some, List, [], ◌∷◌,
  ltb, length, Outcome, ok, err, panic, Bool-cases, inl, inr, length-append, ◌≡◌, refl, ap, ◌∙◌,
  arith,
}
use breeze_core_native.Device.Error.{ErrorKind, DeviceError}
use breeze_core_native.Device.Session.{Session, Timing}
use breeze_core_native.Device.Session.Transfer.{
  Ran, ◌and_then◌, read_packet, settle_absorb, discard_one, absorb, absorb_late_replies,
}
use breeze_core_native.Device.Session.Requests.{
  write_with, write_all, answered, settle_send, send_until, send_and_wait, is_timeout, send_fuel,
}
use breeze_core_native.Device.Session.Waiting.{panics, read_packet-no_panic}

-- What the link was sent in all, at most `n` byte strings, with no panic; the timing is `t`.
abbrev pub Bounded : {A : Type 0} → ℕ → Timing → Ran A → Type 0
Bounded n t (o, s) = (panics o ≡ false) × (length s.stream.sent ≤ n) × (s.timing ≡ t)

-- What makes the bytes of a send neither panics nor sends, and keeps the timing.
abbrev pub IsEncoder : (Session → Ran (List ℕ)) → Type 0
IsEncoder encode =
    (s : Session)
    → let (o, s') = encode s in (panics o ≡ false) × (s'.stream ≡ s.stream) × (s'.timing ≡ s.timing)

and_then-Bounded :
    {A B : Type 0} (n : ℕ) (t : Timing) (m : Ran A) (f : A → Session → Ran B)
    → Bounded n t m
    → ((a : A) → Bounded n t (f a m.1))
    → Bounded n t (m and_then f)
and_then-Bounded n t (ok a, s) f h later = later a
and_then-Bounded n t (err e, s) f h later = h
and_then-Bounded n t (panic, s) f h later = h

-- Nothing was sent, and the timing is the same.
abbrev Kept : Session → Session → Type 0
Kept s s' = (s'.stream.sent ≡ s.stream.sent) × (s'.timing ≡ s.timing)

settle_absorb-Kept :
    (o : Outcome DeviceError (List ℕ)) (s s' again : Session)
    → Kept s s'
    → Kept s again
    → Kept s (settle_absorb o s' again)
settle_absorb-Kept (ok packet) s s' again h later = later
settle_absorb-Kept _ s s' again h later = h

absorb-Kept : (fuel deadline : ℕ) (s : Session) → Kept s (absorb fuel deadline s)
unfolding absorb read_packet
absorb-Kept zero deadline s = (refl, refl)
absorb-Kept (suc fuel) deadline s = elim (Bool-cases (deadline - s.stream.now == 0)) [
  | inl late ↦ rw late (refl, refl)
  | inr early ↦
      let (o, s') = read_packet (deadline - s.stream.now) s in
      rw early
        (settle_absorb-Kept o s s' _ (refl, refl) (absorb-Kept fuel deadline (discard_one s')))
]

answered-Kept :
    (sent : ℕ) (packet : List ℕ) (s : Session)
    → (panics (answered sent packet s).0 ≡ false) × Kept s (answered sent packet s).1
unfolding answered absorb_late_replies
answered-Kept sent packet s = elim (Bool-cases (ltb 1 sent)) [
  | inl resent ↦ rw resent (refl, absorb-Kept _ _ _)
  | inr first ↦ rw first (refl, (refl, refl))
]

write_with-Bounded :
    (writes : List (Option ErrorKind)) (bytes : List ℕ) (s : Session)
    → Bounded (suc (length s.stream.sent)) s.timing (write_with writes bytes s)
write_with-Bounded [] bytes s =
    (refl, omega (arith, length-append s.stream.sent (bytes ∷ [])), refl)
write_with-Bounded (none ∷ later) bytes s =
    (refl, omega (arith, length-append s.stream.sent (bytes ∷ [])), refl)
write_with-Bounded (some kind ∷ later) bytes s = (refl, omega arith, refl)

settle_send-Bounded :
    (n sent : ℕ) (t : Timing) (o : Outcome DeviceError (List ℕ)) (s : Session)
    (again : Ran (List ℕ))
    → panics o ≡ false
    → length s.stream.sent ≤ n
    → s.timing ≡ t
    → (ltb sent t.sends ≡ true → Bounded n t again)
    → Bounded n t (settle_send sent o s again)
unfolding settle_send
settle_send-Bounded n sent t panic s again quiet h same later = absurd (ground arith)
settle_send-Bounded n sent t (ok packet) s again quiet h same later =
    let (calm, kept) = answered-Kept sent packet s in (calm, rw kept.0 h, kept.1 ∙ same)
settle_send-Bounded n sent t (err e) s again quiet h same later =
    elim (Bool-cases (is_timeout e && ltb sent s.timing.sends)) [
      | inl more ↦ rw more (later (ground arith))
      | inr over ↦ rw over (refl, h, same)
    ]

send_until-Bounded :
    (encode : Session → Ran (List ℕ)) (fuel sent n : ℕ) (t : Timing) (s : Session)
    → IsEncoder encode
    → s.timing ≡ t
    → 0 < fuel
    → t.sends < fuel + sent
    → length s.stream.sent + max 1 (t.sends - sent) ≤ n
    → Bounded n t (send_until encode fuel sent s)
unfolding send_until read_packet write_all
send_until-Bounded encode zero sent n t s quiet same pos enough room = absurd (omega arith)
send_until-Bounded encode (suc fuel) sent n t s quiet same pos enough room =
    let (calm, stream, timing) = quiet s in
    let s1 = (encode s).1 in
    let len : length s1.stream.sent ≡ length s.stream.sent = ap (λ l. length l.sent) stream in
    and_then-Bounded n t (encode s) _ (calm, omega arith, timing ∙ same)
      (λ bytes.
        let (calm2, sent2, timing2) = write_with-Bounded s1.stream.writes bytes s1 in
        let s2 = (write_all bytes s1).1 in
        let same2 : s2.timing ≡ t = timing2 ∙ (timing ∙ same) in
        and_then-Bounded n t (write_all bytes s1) _ (calm2, omega arith, same2)
          (λ _.
            let (o, s3) = read_packet s2.timing.reply_timeout s2 in
            settle_send-Bounded n (suc sent) t o s3 _ (read_packet-no_panic _ s2) (omega arith)
              same2
              (λ more.
                send_until-Bounded encode fuel (suc sent) n t s3 quiet same2 (ground arith)
                  (omega arith) (ground arith))))

-- However a unit answers, `send_and_wait` comes back, with an answer or an error, and has sent the
-- request at most `sends` times, or once if `sends` is 0.
pub send_and_wait-Bounded :
    (encode : Session → Ran (List ℕ)) (s : Session)
    → IsEncoder encode
    → let (o, s') = send_and_wait encode s in
      (panics o ≡ false)
      × (length s'.stream.sent ≤ length s.stream.sent + max 1 s.timing.sends)
      × (s'.timing ≡ s.timing)
unfolding send_and_wait
send_and_wait-Bounded encode s quiet =
    send_until-Bounded encode (send_fuel s) 0 _ s.timing s quiet refl (omega arith) (omega arith)
      (omega arith)
