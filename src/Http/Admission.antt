-- ===== src/Http/Admission.antt =====
-- crates/breeze-http/src/server.rs: the guard of a route, `authorise`, and `handle` up to the handler's
-- call. Headers are read by the first one of a name. A poisoned lock does not occur: a panic ends the
-- process. The page for people, which answers what no route matches, and compression are left out.
pub mod Entitled
use breeze_core_native.Common.{
  ℕ, suc, ◌+◌, Bool, true, false, not, ◌&&◌, Option, none, some, String, List, [], ◌∷◌,
  if◌then◌else◌, find, length, Outcome, ok, err, panic,
}
use breeze_core_native.Common.Texts.{str_eq, is_empty, codes, split_once, trim}
use breeze_core_native.Store.Devices.{DeviceRecord, DevicesDoc}
use breeze_core_native.Auth.Clock.{F64}
use breeze_core_native.Auth.Nonce.{NonceCache}
use breeze_core_native.Auth.Reject.{Rejection}
use breeze_core_native.Auth.Signing.{Crypto}
use breeze_core_native.Auth.Net.{IpAddr, client_ip, is_private_ip}
use breeze_core_native.Auth.Verify.{
  Presented, Authenticated, Decision, allow, reject, upgrade_required, Verifier, verify_api_key,
  verify_device,
}
use breeze_core_native.Http.Routing.{
  Guard, open_to_all, api_key, full, admin_lan, Handler, Resolved, route, method_not_allowed,
  not_found, stream, resolve,
}

pub record Incoming : Type 0 where
  pub method : String
  pub path : String
  pub signed_path : String
  pub body : List ℕ
  pub api_key : Option String
  pub bearer : Option String
  pub auth_version : Option String
  pub key_id : Option String
  pub timestamp : Option String
  pub nonce : Option String
  pub signature : Option String
  pub peer : Option IpAddr
  pub forwarded_for : Option (List ℕ)
  pub device_token_id : Option String

unfoldable pub presented : Incoming → Presented
presented incoming = record {
  api_key = incoming.api_key;
  bearer = incoming.bearer;
  auth_version = incoming.auth_version;
  key_id = incoming.key_id;
  timestamp = incoming.timestamp;
  nonce = incoming.nonce;
  signature = incoming.signature;
  method = incoming.method;
  path = incoming.signed_path;
  body = incoming.body;
}

-- The value of a header: of those with the name, in small letters, the first.
abbrev pub header : List (String × String) → String → Option String
header [] name = none
header ((k, v) ∷ found) name = if str_eq k name then some v else header found name

pub record AppState : Type 0 where
  pub api_key : Option String
  pub verifier : Verifier
  pub devices : DevicesDoc
  pub nonces : NonceCache
  pub behind_proxy : Bool
  -- how often `activity.touch()` was called
  pub touched : ℕ

-- The answers of `authorise` that refuse: 401 with a reason, 403, and 426.
pub data Denied : Type 0 where
  rejected : Rejection → Denied
  not_local : Denied
  upgrade : ℕ → Denied

-- `find` and the write of `last_used`: the first record of the id.
abbrev pub used_at : ℕ → String → List DeviceRecord → List DeviceRecord
used_at now token_id [] = []
used_at now token_id (r ∷ rs) =
    let rest = used_at now token_id rs in
    if str_eq r.token_id token_id then record r { last_used = some now } ∷ rs else r ∷ rest

unfoldable pub mark_used : AppState → String → ℕ → AppState
mark_used state token_id now = record state {
  devices = record { devices = used_at now token_id state.devices.devices };
}

abbrev pub decided : AppState → ℕ → Decision → Outcome Denied (Option String) × AppState
decided state now (allow who) = (ok (some who.token_id), mark_used state who.token_id now)
decided state now (reject r) = (err (rejected r), state)
decided state now (upgrade_required floor) = (err (upgrade floor), state)

-- What `handle` comes to: a handler is called, with the device that was identified, or the stream is
-- handed over; or it is refused.
pub data Handled : Type 0 where
  answered : Handler → Option String → Handled
  streaming : Handled
  refused : Denied → Handled
  wrong_method : String → Handled
  unmatched : Handled

abbrev touch : AppState → AppState
touch state = record state { touched = suc state.touched }

abbrev pub admitted :
    (Option String → Handled) → Outcome Denied (Option String) × AppState → Handled × AppState
admitted call (ok who, state) = (call who, touch state)
admitted call (err denied, state) = (refused denied, state)
admitted call (panic, state) = (unmatched, state)

module _ (crypto : Crypto) (parse_f64 : String → Option F64)
    (parse_ip : List ℕ → Option IpAddr) where
  abbrev pub identify : AppState → Incoming → ℕ → Outcome Denied (Option String) × AppState
  identify state incoming now =
      let (nonces, decision) =
        verify_device crypto parse_f64 state.verifier state.devices (presented incoming)
          state.nonces now in
      decided (record state { nonces = nonces }) now decision

  abbrev pub behind_key :
      AppState → Incoming → Guard → ℕ → Outcome Denied (Option String) × AppState
  behind_key state incoming full now = identify state incoming now
  behind_key state incoming admin_lan now =
      if not
        (is_private_ip (client_ip parse_ip incoming.peer incoming.forwarded_for state.behind_proxy))
      then (err not_local, state)
      else (ok none, state)
  behind_key state incoming _ now = (ok none, state)

  abbrev pub key_checked :
      AppState → Incoming → Guard → ℕ → Option Rejection → Outcome Denied (Option String) × AppState
  key_checked state incoming guard now (some rejection) = (err (rejected rejection), state)
  key_checked state incoming guard now none = behind_key state incoming guard now

  unfoldable pub authorise :
      AppState → Incoming → Guard → ℕ → Outcome Denied (Option String) × AppState
  authorise state incoming open_to_all now = (ok none, state)
  authorise state incoming guard now =
      key_checked state incoming guard now (verify_api_key incoming.api_key state.api_key)

  abbrev pub handled : AppState → Incoming → ℕ → Resolved → Handled × AppState
  handled state incoming now (route guard handler) =
      admitted (answered handler) (authorise state incoming guard now)
  handled state incoming now (stream guard) =
      admitted (λ _. streaming) (authorise state incoming guard now)
  handled state incoming now (method_not_allowed allowed) = (wrong_method allowed, state)
  handled state incoming now not_found = (unmatched, state)

  unfoldable pub handle : AppState → Incoming → ℕ → Handled × AppState
  handle state incoming now = handled state incoming now (resolve incoming.method incoming.path)
