-- ===== src/Device/Connection.antt =====
-- crates/breeze-device/src/device.rs: one unit and the connection to it. The network is what the coming
-- connections will do: `dials` lists them, and behind the list a connection times out. `Instant::now()`
-- is the clock of the network, in milliseconds; the V2 packet's timestamp is the parameter `stamp`.
pub mod Exchange
pub mod Settled
use breeze_core_native.Common.{
  ℕ, zero, suc, ◌+◌, ◌-◌, ◌%◌, ◌^◌, Bool, true, false, not, ◌&&◌, Option, none, some, String, List,
  [], ◌∷◌, ltb, leb, ◌==◌, if◌then◌else◌, length, Outcome, ok, err, panic,
}
use breeze_core_native.Auth.Net.{IpAddr}
use breeze_core_native.Proto.Security.{Aes}
use breeze_core_native.Proto.Packet.{PacketError, encode_at, decode}
use breeze_core_native.Proto.Frame.{FrameError, air_conditioner, parse}
use breeze_core_native.Proto.Ac.Types.{indoor}
use breeze_core_native.Proto.Ac.Response.{State, ResponseError, parse as parse_state}
use breeze_core_native.Proto.Ac.Command.{
  Setpoint, get_state, get_capabilities, get_more_capabilities, set_state,
}
use breeze_core_native.Proto.Ac.Capabilities.{Capabilities, parse as parse_capabilities}
use breeze_core_native.Proto.Ac.Capabilities.Merge.{merge}
use breeze_core_native.Device.Error.{
  ErrorKind, timed_out, DeviceError, io, packet, frame, response, missing_credentials, is_retryable,
}
use breeze_core_native.Device.Session.{
  Session, Timing, default_timing, ReadAnswer, Link, new, is_authenticated,
}
use breeze_core_native.Device.Session.Requests.{authenticate, request}

abbrev pub attempts : ℕ
attempts = 2

abbrev connect_timeout : ℕ
connect_timeout = 5000

abbrev warm_backoff : ℕ
warm_backoff = 300_000

pub record UnitConfig : Type 0 where
  pub id : ℕ
  pub name : String
  pub ip : IpAddr
  pub port : ℕ
  pub token : Option (List ℕ)
  pub key : Option (List ℕ)

pub record DeviceStats : Type 0 where
  pub connects : ℕ
  pub resends : ℕ
  pub discarded : ℕ

pub record Device : Type 0 where
  pub config : UnitConfig
  pub session : Option Session
  pub capabilities : Option Capabilities
  pub last_state : Option State
  pub last_state_at : Option ℕ
  pub last_exchange_at : Option ℕ
  pub last_failure : Option (ℕ × DeviceError)
  pub online : Bool
  pub timing : Timing
  pub stats : DeviceStats

-- `Device::new`.
abbrev pub new_device : UnitConfig → Device
new_device config = record {
  config = config;
  session = none;
  capabilities = none;
  last_state = none;
  last_state_at = none;
  last_exchange_at = none;
  last_failure = none;
  online = false;
  timing = default_timing;
  stats = record { connects = 0; resends = 0; discarded = 0 };
}

unfoldable pub with_timing : Device → Timing → Device
with_timing d timing = record d { timing = timing }

unfoldable pub set_name : Device → String → Device
set_name d name = record d { config = record d.config { name = name } }

unfoldable pub is_connected : Device → Bool
is_connected d = elim d.session [ none ↦ false | some s ↦ true ]

-- What a connection will do, after a time: fail, or answer reads and writes.
pub data Dial : Type 0 where
  fails : ℕ → ErrorKind → Dial
  connects : ℕ → List ReadAnswer → List (Option ErrorKind) → Dial

pub record Network : Type 0 where
  pub now : ℕ
  pub dials : List Dial
  -- the counter of `next_message_id`
  pub next_id : ℕ

abbrev pub Tried : Type 0 → Type 0
Tried A = Outcome DeviceError A × (Device × Network)

infixl 5 ◌then_try◌
abbrev pub ◌then_try◌ : {A B : Type 0} → Tried A → (A → Device → Network → Tried B) → Tried B
(ok a, (d, net)) then_try f = f a d net
(err e, dn) then_try f = (err e, dn)
(panic, dn) then_try f = (panic, dn)

unfoldable pub credentials : UnitConfig → Outcome DeviceError (List ℕ × List ℕ)
credentials config = elim config.token [
  | none ↦ err missing_credentials
  | some t ↦ elim config.key [
    | none ↦ err missing_credentials
    | some k ↦ if length t == 0 then err missing_credentials else ok (t, k)
  ]
]

-- The session's view of the clock.
abbrev pub at_time : ℕ → Session → Session
at_time now s = record s { stream = record s.stream { now = now } }

abbrev pub add_counts : DeviceStats → Option Session → DeviceStats
add_counts stats none = stats
add_counts stats (some s) = record stats {
  resends = stats.resends + s.stats.resends;
  discarded = stats.discarded + s.stats.discarded;
}

unfoldable pub stats_of : Device → DeviceStats
stats_of d = add_counts d.stats d.session

unfoldable pub drop_session : Device → Device
drop_session d = record d { session = none; stats = add_counts d.stats d.session }

unfoldable pub forget : Device → Device
unfolding drop_session
forget d = record (drop_session d) { online = false }

abbrev if_at : (ℕ → Bool) → Option ℕ → Option State → Option State
if_at test none state = none
if_at test (some at) state = if test at then state else none

unfoldable pub state_since : Device → ℕ → Option State
state_since d since = if_at (λ at. leb since at) d.last_state_at d.last_state

unfoldable pub fresh_state : Device → Network → ℕ → Option State
fresh_state d net max_age = if_at (λ at. leb (net.now - at) max_age) d.last_state_at d.last_state

unfoldable pub failure_since : Device → ℕ → Option DeviceError
failure_since d since = elim d.last_failure [
  | none ↦ none
  | some (at, e) ↦ if leb since at then some e else none
]

unfoldable pub idle_for : Device → Network → Option ℕ
idle_for d net = elim d.last_exchange_at [ none ↦ none | some at ↦ some (net.now - at) ]

unfoldable pub needs_warming : Device → Network → ℕ → Bool
needs_warming d net max_idle =
    let failed_lately : Bool = elim d.last_failure [
      | none ↦ false
      | some (at, e) ↦ ltb (net.now - at) warm_backoff
    ] in
    let configured : Bool = elim (credentials d.config) [ ok c ↦ true | _ ↦ false ] in
    let idle : Bool = elim d.last_exchange_at [
      | none ↦ true
      | some at ↦ leb max_idle (net.now - at)
    ] in
    not failed_lately && (configured && idle)

abbrev pub from_packet : Outcome PacketError (List ℕ) → Outcome DeviceError (List ℕ)
from_packet (ok a) = ok a
from_packet (err e) = err (packet e)
from_packet panic = panic

abbrev pub from_frame : Outcome FrameError (List ℕ) → Outcome DeviceError (List ℕ)
from_frame (ok a) = ok a
from_frame (err e) = err (frame e)
from_frame panic = panic

abbrev pub from_response : Outcome ResponseError State → Outcome DeviceError State
from_response (ok a) = ok a
from_response (err e) = err (response e)
from_response panic = panic

abbrev pub count_connect : Device → Device
count_connect d = record d { stats = record d.stats { connects = suc d.stats.connects } }

-- Whether the session can be used as it is.
abbrev pub usable : Option Session → ℕ → Bool
usable none now = false
usable (some s) now = is_authenticated (at_time now s)

abbrev pub keep_session :
    Device → Network → Outcome DeviceError (Unit {0}) × Session → Tried (Unit {0})
keep_session d net (ok _, s) =
    (ok tt, (record d { session = some s }, record net { now = s.stream.now }))
keep_session d net (err e, s) = (err e, (d, record net { now = s.stream.now }))
keep_session d net (panic, s) = (panic, (d, record net { now = s.stream.now }))

module _ (sha256 md5 : List ℕ → List ℕ) (aes : Aes) (stamp : ℕ → List ℕ) where
  abbrev pub dialled : Device → Network → List ℕ × List ℕ → List Dial → Tried (Unit {0})
  dialled d net key [] = (err (io timed_out), (d, record net { now = net.now + connect_timeout }))
  dialled d net key (fails took kind ∷ later) =
      (err (io kind), (d, record net { now = net.now + took; dials = later }))
  dialled d net (token, key) (connects took reads writes ∷ later) =
      let link : Link = record {
        now = net.now + took;
        reads = reads;
        writes = writes;
        sent = [];
      } in
      let s = record (new link) { timing = d.timing } in
      keep_session (count_connect d) (record net { now = net.now + took; dials = later })
        (authenticate sha256 aes token key s)

  unfoldable pub ensure_session : Device → Network → Tried (Unit {0})
  ensure_session d net =
      if usable d.session net.now
      then (ok tt, (d, net))
      else (credentials d.config, (d, net)) then_try λ key d net. dialled d net key net.dials

  -- `expect("ensure_session succeeded")`.
  abbrev pub requested : Device → Network → List ℕ → Option Session → Tried (List ℕ)
  requested d net v2 none = (panic, (d, net))
  requested d net v2 (some s) =
      let (reply, s) = request sha256 aes v2 (at_time net.now s) in
      (reply, (record d { session = some s }, record net { now = s.stream.now }))

  unfoldable pub try_exchange : List ℕ → Device → Network → Tried (List ℕ)
  try_exchange command_frame d net = ensure_session d net then_try λ _ d net.
      requested d net (encode_at aes md5 d.config.id command_frame (stamp net.now)) d.session
      then_try λ reply d net. (from_packet (decode aes md5 reply), (d, net)) then_try λ inner d net.
          (from_frame (parse inner air_conditioner), (d, net))
