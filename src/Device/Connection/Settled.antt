-- ===== src/Device/Connection/Settled.antt =====
-- crates/breeze-device/src/device.rs: what an exchange leaves behind.
use breeze_core_native.Common.{
  ℕ, zero, suc, ◌+◌, ◌≤◌, true, false, ◌&&◌, Option, none, some, List, [], ◌∷◌, ltb, Outcome, ok,
  err, panic, Bool-cases, inl, inr, ◌≡◌, refl, ap, arith,
}
use breeze_core_native.Proto.Security.{Aes}
use breeze_core_native.Proto.Packet.{encode_at, decode}
use breeze_core_native.Proto.Frame.{air_conditioner, parse}
use breeze_core_native.Device.Error.{DeviceError, is_retryable}
use breeze_core_native.Device.Session.{Session, Link, new}
use breeze_core_native.Device.Session.Requests.{authenticate}
use breeze_core_native.Device.Connection.{
  Device, Network, Dial, fails, connects, Tried, ◌then_try◌, attempts, credentials, drop_session,
  count_connect, usable, keep_session, DeviceStats, add_counts, dialled, ensure_session, requested,
  from_packet, from_frame, try_exchange,
}
use breeze_core_native.Device.Connection.Exchange.{
  succeeded, given_up, settle_attempt, exchange_until, exchange,
}

-- At most `n` connections were opened.
abbrev Most : {A : Type 0} → ℕ → Tried A → Type 0
Most n (o, (d, net)) = d.stats.connects ≤ n

then_try-Most :
    {A B : Type 0} (n : ℕ) (m : Tried A) (f : A → Device → Network → Tried B)
    → Most n m
    → ((a : A) (d : Device) (net : Network) → d.stats.connects ≤ n → Most n (f a d net))
    → Most n (m then_try f)
then_try-Most n (ok a, (d, net)) f h later = later a d net h
then_try-Most n (err e, (d, net)) f h later = h
then_try-Most n (panic, (d, net)) f h later = h

keep_session-Most :
    (n : ℕ) (d : Device) (net : Network) (r : Outcome DeviceError (Unit {0}) × Session)
    → d.stats.connects ≤ n
    → Most n (keep_session d net r)
keep_session-Most n d net (ok _, s) h = h
keep_session-Most n d net (err e, s) h = h
keep_session-Most n d net (panic, s) h = h

module _ (sha256 md5 : List ℕ → List ℕ) (aes : Aes) (stamp : ℕ → List ℕ) where
  dialled-Most :
      (n : ℕ) (d : Device) (net : Network) (key : List ℕ × List ℕ) (dials : List Dial)
      → suc d.stats.connects ≤ n
      → Most n (dialled sha256 md5 aes stamp d net key dials)
  dialled-Most n d net key [] h = omega arith
  dialled-Most n d net key (fails took kind ∷ later) h = omega arith
  dialled-Most n d net (token, key) (connects took reads writes ∷ later) h =
      let link : Link = record {
        now = net.now + took;
        reads = reads;
        writes = writes;
        sent = [];
      } in
      keep_session-Most n (count_connect d) (record net { now = net.now + took; dials = later })
        (authenticate sha256 aes token key (record (new link) { timing = d.timing })) h

  requested-Most :
      (n : ℕ) (d : Device) (net : Network) (v2 : List ℕ) (s : Option Session)
      → d.stats.connects ≤ n
      → Most n (requested sha256 md5 aes stamp d net v2 s)
  requested-Most n d net v2 none h = h
  requested-Most n d net v2 (some s) h = h

  credentials-Most :
      (n : ℕ) (d : Device) (net : Network) (c : Outcome DeviceError (List ℕ × List ℕ))
      → suc d.stats.connects ≤ n
      → Most n
          ((c, (d, net)) then_try λ key d net. dialled sha256 md5 aes stamp d net key net.dials)
  credentials-Most n d net (ok key) h = dialled-Most n d net key net.dials h
  credentials-Most n d net (err e) h = omega arith
  credentials-Most n d net panic h = omega arith

  ensure_session-Most :
      (n : ℕ) (d : Device) (net : Network)
      → suc d.stats.connects ≤ n
      → Most n (ensure_session sha256 md5 aes stamp d net)
  unfolding ensure_session
  ensure_session-Most n d net h = elim (Bool-cases (usable d.session net.now)) [
    | inl open_still ↦ rw open_still (omega arith)
    | inr dead ↦ rw dead (credentials-Most n d net (credentials d.config) h)
  ]

  abbrev opened : List ℕ → Device → Network → Tried (List ℕ)
  opened reply d net = (from_packet (decode aes md5 reply), (d, net)) then_try λ inner d net.
      (from_frame (parse inner air_conditioner), (d, net))

  opened-Most :
      (n : ℕ) (reply : List ℕ) (d : Device) (net : Network)
      → d.stats.connects ≤ n
      → Most n (opened reply d net)
  opened-Most n reply d net h =
      then_try-Most n (from_packet (decode aes md5 reply), (d, net))
        (λ inner d net. (from_frame (parse inner air_conditioner), (d, net))) h (λ inner d net h. h)

  answered-Most :
      (n : ℕ) (command_frame : List ℕ) (d : Device) (net : Network)
      → d.stats.connects ≤ n
      → Most n (
          requested sha256 md5 aes stamp d net
            (encode_at aes md5 d.config.id command_frame (stamp net.now))
            d.session
          then_try opened)
  answered-Most n command_frame d net h =
      let v2 : List ℕ = encode_at aes md5 d.config.id command_frame (stamp net.now) in
      then_try-Most n (requested sha256 md5 aes stamp d net v2 d.session) opened
        (requested-Most n d net v2 d.session h) (opened-Most n)

  try_exchange-Most :
      (n : ℕ) (command_frame : List ℕ) (d : Device) (net : Network)
      → suc d.stats.connects ≤ n
      → Most n (try_exchange sha256 md5 aes stamp command_frame d net)
  unfolding try_exchange
  try_exchange-Most n command_frame d net h =
      then_try-Most n (ensure_session sha256 md5 aes stamp d net)
        (λ _ d net.
          requested sha256 md5 aes stamp d net
            (encode_at aes md5 d.config.id command_frame (stamp net.now)) d.session
          then_try opened)
        (ensure_session-Most n d net h) (λ _ d net h. answered-Most n command_frame d net h)

add_counts-connects :
    (stats : DeviceStats) (s : Option Session) → (add_counts stats s).connects ≡ stats.connects
add_counts-connects stats none = refl
add_counts-connects stats (some s) = refl

-- What is on record after an exchange, and at most how many connections were opened.
abbrev pub Settled : {A : Type 0} → ℕ → Tried A → Type 0
Settled n (ok value, (d, net)) =
    (d.online ≡ true) × ((d.last_failure ≡ none) × (d.stats.connects ≤ n))
Settled n (err e, (d, net)) =
    (d.online ≡ false)
    × ((d.session ≡ none) × ((d.last_failure ≡ some (net.now, e)) × (d.stats.connects ≤ n)))
Settled n (panic, (d, net)) = d.stats.connects ≤ n

settle_attempt-Settled :
    {A : Type 0} (n attempt : ℕ) (o : Outcome DeviceError A) (d : Device) (net : Network)
    (again : Tried A)
    → d.stats.connects ≤ n
    → (ltb attempt attempts ≡ true → Settled n again)
    → Settled n (settle_attempt attempt o d net again)
unfolding settle_attempt succeeded given_up drop_session
settle_attempt-Settled n attempt (ok value) d net again h rest = (refl, (refl, h))
settle_attempt-Settled n attempt panic d net again h rest = h
settle_attempt-Settled n attempt (err e) d net again h rest =
    elim (Bool-cases (is_retryable e && ltb attempt attempts)) [
      | inl retry ↦ rw retry (rest (ground arith))
      | inr over ↦ rw over (refl, (refl, (refl, rw (add_counts-connects d.stats d.session) h)))
    ]

drop_session-connects : (d : Device) → (drop_session d).stats.connects ≡ d.stats.connects
unfolding drop_session
drop_session-connects d = add_counts-connects d.stats d.session

-- The last attempt does not go round again.
settle_attempt_last :
    {A : Type 0} (o : Outcome DeviceError A) (d : Device) (net : Network) (one other : Tried A)
    → settle_attempt 2 o d net one ≡ settle_attempt 2 o d net other
unfolding settle_attempt
settle_attempt_last (ok value) d net one other = refl
settle_attempt_last panic d net one other = refl
settle_attempt_last (err e) d net one other = elim (Bool-cases (is_retryable e)) [
  | inl retry ↦ rw retry refl
  | inr final ↦ rw final refl
]

module _ (sha256 md5 : List ℕ → List ℕ) (aes : Aes) (stamp : ℕ → List ℕ) where
  abbrev attempted :
      {A : Type 0} → List ℕ → (List ℕ → Outcome DeviceError A) → Device → Network → Tried A
  attempted command_frame decoder d net =
      try_exchange sha256 md5 aes stamp command_frame d net then_try λ payload d net.
      (decoder payload, (d, net))

  attempted-Most :
      {A : Type 0} (command_frame : List ℕ) (decoder : List ℕ → Outcome DeviceError A) (d : Device)
      (net : Network)
      → Most (suc d.stats.connects) (attempted command_frame decoder d net)
  attempted-Most command_frame decoder d net =
      then_try-Most (suc d.stats.connects) (try_exchange sha256 md5 aes stamp command_frame d net)
        (λ payload d net. (decoder payload, (d, net)))
        (try_exchange-Most sha256 md5 aes stamp (suc d.stats.connects) command_frame d net
          (omega arith))
        (λ payload d net h. h)

  exchange_until-Settled :
      {A : Type 0} (n fuel attempt : ℕ) (command_frame : List ℕ)
      (decoder : List ℕ → Outcome DeviceError A) (d : Device) (net : Network)
      → d.stats.connects + fuel ≤ n
      → Settled n (exchange_until sha256 md5 aes stamp fuel attempt command_frame decoder d net)
  unfolding exchange_until
  exchange_until-Settled n zero attempt command_frame decoder d net h = omega arith
  exchange_until-Settled n (suc fuel) attempt command_frame decoder d net h =
      let (o, (later, after)) = attempted command_frame decoder d net in
      let most : later.stats.connects ≤ suc d.stats.connects =
        attempted-Most command_frame decoder d net in
      settle_attempt-Settled n (suc attempt) o later after _ (omega arith) (λ _.
        exchange_until-Settled n fuel (suc attempt) command_frame decoder (drop_session later) after
          (rw (drop_session-connects later) (omega arith)))

  exchange_until_fuel :
      {A : Type 0} (extra : ℕ) (command_frame : List ℕ) (decoder : List ℕ → Outcome DeviceError A)
      (d : Device) (net : Network)
      → exchange_until sha256 md5 aes stamp (suc (suc extra)) 0 command_frame decoder d net
        ≡ exchange_until sha256 md5 aes stamp 2 0 command_frame decoder d net
  unfolding exchange_until
  exchange_until_fuel extra command_frame decoder d net =
      let (o, (later, after)) = attempted command_frame decoder d net in
      let (p, (last, end)) = attempted command_frame decoder (drop_session later) after in
      ap (settle_attempt 1 o later after) (settle_attempt_last p last end _ _)

  -- After an exchange that succeeds the unit is online with no failure on record; after one that fails it
  -- is offline, without a session, and the error stands on record with its time. Unless the exchange panics
  -- one of these holds, in each case at most two connections were opened, and more fuel than the two
  -- attempts changes nothing.
  pub exchange-Settled :
      {A : Type 0} (extra : ℕ) (command_frame : List ℕ) (decoder : List ℕ → Outcome DeviceError A)
      (d : Device) (net : Network)
      → Settled (d.stats.connects + 2) (exchange sha256 md5 aes stamp command_frame decoder d net)
        × (exchange_until sha256 md5 aes stamp (suc (suc extra)) 0 command_frame decoder d net
            ≡ exchange sha256 md5 aes stamp command_frame decoder d net)
  unfolding exchange
  exchange-Settled extra command_frame decoder d net = (
    exchange_until-Settled (d.stats.connects + 2) 2 0 command_frame decoder d net (omega arith),
    exchange_until_fuel extra command_frame decoder d net,
  )
