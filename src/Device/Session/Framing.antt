-- ===== src/Device/Session/Framing.antt =====
-- crates/breeze-device/src/session.rs: packets cut from the stream.
use mathlib.Core.Path.{subst}
use mathlib.Core.List.{append_assoc, append-nil}
use breeze_core_native.Common.{
  ℕ, ◌+◌, ◌-◌, ◌≤◌, ◌<◌, false, not, ◌&&◌, ◌==◌, Option, none, some, List, [], ◌∷◌, ◌++◌, ltb, leb,
  length, take, Outcome, ok, err, panic, Option-cases, Bool-cases, inl, inr, length-take,
  take-append-drop, get_or-take, take-take, ◌≡◌, refl, sym, ap, ◌∙◌, arith,
}
use breeze_core_native.Common.Bytes.{bytes_eq, bytes_eq→eq}
use breeze_core_native.Proto.Lan.{packet_len, not_a_packet}
use breeze_core_native.Device.Error.{
  ErrorKind, DeviceError, io, protocol, packet_too_large, timed_out,
}
use breeze_core_native.Device.Session.{
  Session, ReadAnswer, ReadResult, bytes, failed, take_packet, max_packet,
}
use breeze_core_native.Device.Session.Transfer.{
  Reading, closed, on_taken, before_read, after_read, read_until, read_packet, joined, return_or,
}

-- A packet as the session cuts it: its length is the one that its header gives, and it is bounded.
abbrev pub magic : List ℕ
magic = 0x83 ∷ 0x70 ∷ []

abbrev pub IsPacket : List ℕ → Type 0
IsPacket p =
    (take 2 p ≡ magic) × (packet_len p ≡ some (length p)) × (8 ≤ length p) × (length p ≤ max_packet)

packet_len-take :
    (rx : List ℕ) (total : ℕ)
    → packet_len rx ≡ some total
    → total ≤ length rx
    → (8 ≤ total) × (packet_len (take total rx) ≡ some total)
unfolding packet_len
packet_len-take rx total e h =
    ground (arith, length-take total rx, get_or-take total rx 2 0, get_or-take total rx 3 0)

take-IsPacket :
    (rx : List ℕ) (total : ℕ)
    → take 2 rx ≡ magic
    → packet_len rx ≡ some total
    → total ≤ length rx
    → total ≤ max_packet
    → IsPacket (take total rx)
take-IsPacket rx total m e h small =
    let (lo, framed) = packet_len-take rx total e h in
    let n : length (take total rx) ≡ total = omega (arith, length-take total rx) in
    (take-take 2 total rx (omega arith) ∙ m, framed ∙ ap some (sym n), omega arith, omega arith)

-- What passes the check of the start, and is long enough for a header, starts like a packet.
begins :
    (rx : List ℕ) (total : ℕ)
    → (leb 2 (length rx) && not (bytes_eq (take 2 rx) magic)) ≡ false
    → packet_len rx ≡ some total
    → take 2 rx ≡ magic
unfolding packet_len
begins rx total found e = ground (arith, bytes_eq→eq (take 2 rx) magic)

-- Of a buffer, `take_packet` gives a packet at its front, or leaves it as it is, or throws its front away.
abbrev Taken : Outcome DeviceError (Option (List ℕ)) → List ℕ → List ℕ → Type 0
Taken (ok none) rx' rx = rx' ≡ rx
Taken (ok (some p)) rx' rx = (p ++ rx' ≡ rx) × IsPacket p
Taken (err (io kind)) rx' rx = rx' ≡ rx
Taken (err (protocol (not_a_packet x y))) rx' rx = (lost : List ℕ) × (lost ++ rx' ≡ rx)
Taken (err (packet_too_large total)) rx' rx =
    (max_packet < total) × (lost : List ℕ) × (lost ++ rx' ≡ rx)
Taken _ rx' rx = ⊥

take_packet-Taken : (rx : List ℕ) → let (o, rx') = take_packet rx in Taken o rx' rx
unfolding take_packet
take_packet-Taken rx =
    elim (Bool-cases (leb 2 (length rx) && not (bytes_eq (take 2 rx) (0x83 ∷ 0x70 ∷ [])))) [
      | inl lost ↦ rw lost (rx, append-nil rx)
      | inr found ↦ elim (Option-cases (packet_len rx)) [
        | inl e ↦ rw (found, e) refl
        | inr (total, e) ↦ elim (Bool-cases (ltb max_packet total)) [
          | inl large ↦ rw (found, e, large) (ground arith, rx, append-nil rx)
          | inr small ↦ elim (Bool-cases (ltb (length rx) total)) [
            | inl short ↦ rw (found, e, small, short) refl
            | inr whole ↦
                rw (found, e, small, whole)
                  (
                    take-append-drop total rx,
                    take-IsPacket rx total (begins rx total found e) e (ground arith)
                        (ground arith),
                  )
          ]
        ]
      ]
    ]

-- What a read can give, of all the bytes that there are: a packet and the bytes behind it; an error of
-- the link, and still all of them; or an error of framing, which throws a front of them away.
unfoldable pub Conserved : Outcome DeviceError (List ℕ) → List ℕ → List ℕ → Type 0
Conserved (ok p) left all = (p ++ left ≡ all) × IsPacket p
Conserved (err (io kind)) left all = left ≡ all
Conserved (err (protocol (not_a_packet x y))) left all = (lost : List ℕ) × (lost ++ left ≡ all)
Conserved (err (packet_too_large total)) left all =
    (max_packet < total) × (lost : List ℕ) × (lost ++ left ≡ all)
Conserved _ left all = ⊥

abbrev Returned : Option (Outcome DeviceError (List ℕ)) → List ℕ → List ℕ → List ℕ → Type 0
Returned none rx' rx later = rx' ++ later ≡ rx
Returned (some o) rx' rx later = Conserved o (rx' ++ later) rx

on_taken-Returned :
    (deadline now : ℕ) (taken : Outcome DeviceError (Option (List ℕ))) (rx' rx later : List ℕ)
    → Taken taken rx' rx
    → let (o, left) = on_taken deadline now taken rx' in Returned o left (rx ++ later) later
unfolding Conserved
on_taken-Returned deadline now (err (io kind)) rx' rx later h = ap (λ t. t ++ later) h
on_taken-Returned deadline now (err (protocol (not_a_packet x y))) rx' rx later (lost, e) =
    (lost, sym (append_assoc lost rx' later) ∙ ap (λ t. t ++ later) e)
on_taken-Returned deadline now (err (packet_too_large total)) rx' rx later (large, lost, e) =
    (large, lost, sym (append_assoc lost rx' later) ∙ ap (λ t. t ++ later) e)
on_taken-Returned deadline now (err (protocol _)) rx' rx later h = absurd h
on_taken-Returned deadline now (err _) rx' rx later h = absurd h
on_taken-Returned deadline now panic rx' rx later h = absurd h
on_taken-Returned deadline now (ok (some p)) rx' rx later h =
    (sym (append_assoc p rx' later) ∙ ap (λ t. t ++ later) h.0, h.1)
on_taken-Returned deadline now (ok none) rx' rx later h = elim (Bool-cases (deadline - now == 0)) [
  | inl late ↦ rw late (ap (λ t. t ++ later) h)
  | inr early ↦ rw early (ap (λ t. t ++ later) h)
]

failed-Returned :
    (kind : ErrorKind) (rx later : List ℕ)
    → let (o, left) = after_read (failed kind) rx in Returned o left (rx ++ later) later
unfolding after_read Conserved
failed-Returned timed_out rx later = refl
failed-Returned _ rx later = refl

after_read-Returned :
    (took : ℕ) (result : ReadResult) (rx : List ℕ) (later : List ReadAnswer)
    → let answer : ReadAnswer = record { took = took; result = result } in
      let (o, left) = after_read result rx in
      Returned o left (rx ++ joined (answer ∷ later)) (joined later)
unfolding after_read Conserved
after_read-Returned took (bytes []) rx later = refl
after_read-Returned took (bytes (b ∷ bs)) rx later = append_assoc rx (b ∷ bs) (joined later)
after_read-Returned took (failed kind) rx later = failed-Returned kind rx (joined later)

return_or-Conserved :
    (o : Option (Outcome DeviceError (List ℕ))) (r : Reading)
    (next : Outcome DeviceError (List ℕ) × Reading) (all : List ℕ)
    → Returned o r.rx all (joined r.reads)
    → (r.rx ++ joined r.reads ≡ all → Conserved next.0 (next.1.rx ++ joined next.1.reads) all)
    → let (o', r') = return_or o r next in Conserved o' (r'.rx ++ joined r'.reads) all
return_or-Conserved (some o) r next all h later = h
return_or-Conserved none r next all h later = later h

moved :
    (o : Outcome DeviceError (List ℕ)) (left all all' : List ℕ)
    → all ≡ all'
    → Conserved o left all
    → Conserved o left all'
moved o left all all' e = subst (λ t. Conserved o left t) e

closed-Conserved : (left all : List ℕ) → left ≡ all → Conserved (err closed) left all
unfolding Conserved
closed-Conserved left all e = e

pub read_until-Conserved :
    (deadline now : ℕ) (reads : List ReadAnswer) (rx : List ℕ)
    → let (o, r) = read_until deadline now reads rx in
      Conserved o (r.rx ++ joined r.reads) (rx ++ joined reads)
unfolding read_until before_read
read_until-Conserved deadline now [] rx =
    return_or-Conserved _ _ _ _ (on_taken-Returned deadline now _ _ rx [] (take_packet-Taken rx))
      (closed-Conserved _ _)
read_until-Conserved deadline now (answer ∷ later) rx =
    let rx1 = (before_read deadline now rx).1 in
    let bottom = after_read answer.result rx1 in
    let rest = read_until deadline (now + answer.took) later bottom.1 in
    let waited : Reading = record { now = now + answer.took; reads = later; rx = bottom.1 } in
    let whole = return_or bottom.0 waited rest in
    return_or-Conserved _ _ whole _
      (on_taken-Returned deadline now _ _ rx (joined (answer ∷ later)) (take_packet-Taken rx))
      (λ e. moved whole.0 (whole.1.rx ++ joined whole.1.reads) _ _ e (
        return_or-Conserved bottom.0 waited rest _
          (after_read-Returned answer.took answer.result rx1 later)
          (λ e'.
            moved rest.0 (rest.1.rx ++ joined rest.1.reads) _ _ e'
              (read_until-Conserved deadline (now + answer.took) later bottom.1))))

-- `read_packet` gives one of these three and nothing else. A packet: it starts like a packet, has the
-- length that its header names, up to 8192 bytes, and stood before all the bytes that are left, in the
-- buffer or to come. An error of the link, a timeout among them: all the bytes are left. Or lost framing,
-- or a packet that its header makes larger than 8192 bytes: a front of the bytes is thrown away and the
-- rest is left as it was.
pub read_packet-Conserved :
    (timeout : ℕ) (s : Session)
    → let (o, s') = read_packet timeout s in
      Conserved o (s'.rx ++ joined s'.stream.reads) (s.rx ++ joined s.stream.reads)
unfolding read_packet
read_packet-Conserved timeout s =
    read_until-Conserved (s.stream.now + timeout) s.stream.now s.stream.reads s.rx
