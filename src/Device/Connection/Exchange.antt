-- ===== src/Device/Connection/Exchange.antt =====
-- crates/breeze-device/src/device.rs: a command and its reply, on a fresh connection if the first one
-- fails, and what is kept of it. `decode` is what the caller makes of the payload.
use breeze_core_native.Common.{
  ℕ, zero, suc, ◌+◌, ◌%◌, true, false, ◌&&◌, none, some, List, ltb, if◌then◌else◌, Outcome, ok, err,
  panic,
}
use breeze_core_native.Proto.Security.{Aes}
use breeze_core_native.Proto.Ac.Types.{indoor}
use breeze_core_native.Proto.Ac.Response.{State, parse as parse_state}
use breeze_core_native.Proto.Ac.Command.{
  Setpoint, from_state, get_state, get_capabilities, get_more_capabilities, set_state,
}
use breeze_core_native.Proto.Ac.Capabilities.{Capabilities, parse as parse_capabilities}
use breeze_core_native.Proto.Ac.Capabilities.Merge.{merge}
use breeze_core_native.Device.Error.{DeviceError, is_retryable}
use breeze_core_native.Device.Connection.{
  Device, Network, Tried, ◌then_try◌, attempts, drop_session, from_response, try_exchange,
}

abbrev Decoder : Type 0 → Type 0
Decoder A = List ℕ → Outcome DeviceError A

unfoldable pub succeeded : Device → Network → Device
succeeded d net = record d { online = true; last_exchange_at = some net.now; last_failure = none }

unfoldable pub given_up : Device → Network → DeviceError → Device
given_up d net e = record d { online = false; last_failure = some (net.now, e) }

-- What follows the attempt number `attempt`; `again` is the next turn of the loop.
unfoldable pub settle_attempt :
    {A : Type 0} → ℕ → Outcome DeviceError A → Device → Network → Tried A → Tried A
settle_attempt attempt (ok value) d net again = (ok value, (succeeded d net, net))
settle_attempt attempt panic d net again = (panic, (d, net))
settle_attempt attempt (err e) d net again =
    if is_retryable e && ltb attempt attempts
    then again
    else (err e, (given_up (drop_session d) net e, net))

abbrev pub remember : State → Device → Network → Device
remember state d net = record d { last_state = some state; last_state_at = some net.now }

abbrev pub take_id : Network → Network
take_id net = record net { next_id = (net.next_id + 1) % 256 }

abbrev pub parsed : List ℕ → Outcome DeviceError Capabilities
parsed payload = ok (parse_capabilities payload)

abbrev pub cache : Capabilities → Device → Network → Tried Capabilities
cache caps d net = (ok caps, (record d { capabilities = some caps }, net))

-- What the first page comes to with the answer to the second query: a failure is passed over.
abbrev pub add_page : Capabilities → Tried Capabilities → Tried Capabilities
add_page caps (ok more, (d, net)) = cache (merge caps more) d net
add_page caps (err e, (d, net)) = cache caps d net
add_page caps (panic, dn) = (panic, dn)

module _ (sha256 md5 : List ℕ → List ℕ) (aes : Aes) (stamp : ℕ → List ℕ) where
  unfoldable pub exchange_until :
      {A : Type 0} → ℕ → ℕ → List ℕ → Decoder A → Device → Network → Tried A
  exchange_until zero attempt command_frame decode d net = (panic, (d, net))
  exchange_until (suc fuel) attempt command_frame decode d net =
      let (o, (d, net)) =
        try_exchange sha256 md5 aes stamp command_frame d net then_try λ payload d net.
        (decode payload, (d, net)) in
      settle_attempt (suc attempt) o d net
        (exchange_until fuel (suc attempt) command_frame decode (drop_session d) net)

  unfoldable pub exchange : {A : Type 0} → List ℕ → Decoder A → Device → Network → Tried A
  exchange command_frame decode d net = exchange_until attempts 0 command_frame decode d net

  abbrev pub exchange_state : List ℕ → Device → Network → Tried State
  exchange_state command_frame d net =
      exchange command_frame (λ payload. from_response (parse_state payload)) d net
      then_try λ state d net. (ok state, (remember state d net, net))

  unfoldable pub refresh : Device → Network → Tried State
  refresh d net = exchange_state (get_state net.next_id indoor) d (take_id net)

  unfoldable pub apply : Setpoint → Device → Network → Tried State
  apply setpoint d net = exchange_state (set_state net.next_id setpoint) d (take_id net)

  unfoldable pub modify : (Setpoint → Setpoint) → Device → Network → Tried State
  modify change d net =
      refresh d net then_try λ current d net. apply (change (from_state current)) d net

  abbrev pub second_page : Capabilities → Device → Network → Tried Capabilities
  second_page caps d net = elim caps.additional [
    | false ↦ cache caps d net
    | true ↦ add_page caps (exchange (get_more_capabilities net.next_id) parsed d (take_id net))
  ]

  unfoldable pub capabilities : Device → Network → Tried Capabilities
  capabilities d net = elim d.capabilities [
    | some cached ↦ (ok cached, (d, net))
    | none ↦ exchange (get_capabilities net.next_id) parsed d (take_id net) then_try λ caps d net.
        second_page caps d net
  ]
