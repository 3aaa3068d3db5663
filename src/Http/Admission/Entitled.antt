-- ===== src/Http/Admission/Entitled.antt =====
-- crates/breeze-http/src/server.rs: whose requests reach a handler.
use mathlib.Core.Path.{subst}
use breeze_core_native.Common.{
  ℕ, Bool, true, false, not, ◌&&◌, Option, none, some, String, List, if◌then◌else◌, Outcome, ok,
  err, panic, Bool-cases, inl, inr, ◌≡◌, ◌≢◌, refl, ap, ◌∙◌, arith,
}
use breeze_core_native.Common.Texts.{str_eq, str_eq→eq, is_empty}
use breeze_core_native.Auth.Clock.{F64}
use breeze_core_native.Auth.Reject.{Rejection}
use breeze_core_native.Auth.Signing.{Crypto}
use breeze_core_native.Auth.Net.{IpAddr, client_ip, is_private_ip}
use breeze_core_native.Auth.Verify.{
  Authenticated, Decision, allow, reject, upgrade_required, verify_api_key, verify_device,
}
use breeze_core_native.Http.Routing.{
  Guard, open_to_all, api_key, full, admin_lan, Handler, Resolved, route, method_not_allowed,
  not_found, stream, resolve,
}
use breeze_core_native.Http.Routing.Guarded.{required, IsGuarded, resolve-IsGuarded}
use breeze_core_native.Http.Admission.{
  Incoming, presented, AppState, Denied, decided, Handled, answered, streaming, refused,
  wrong_method, unmatched, behind_key, key_checked, authorise, admitted, handled, handle,
}

-- The request shows the key of the server, which is not empty.
abbrev pub HoldsKey : AppState → Incoming → Type 0
HoldsKey state incoming =
    (k : String) × (state.api_key ≡ some k) × (incoming.api_key ≡ some k) × (is_empty k ≡ false)

passes :
    (a b : Bool) (r : Rejection)
    → (if a && not b then none else some r) ≡ none
    → (a ≡ true) × (b ≡ false)
passes a b r e = ground arith

key-HoldsKey :
    (presented expected : Option String)
    → verify_api_key presented expected ≡ none
    → (k : String) × (expected ≡ some k) × (presented ≡ some k) × (is_empty k ≡ false)
unfolding verify_api_key
key-HoldsKey none none e = absurd (ground arith)
key-HoldsKey (some p) none e =
    let (same, filled) = passes (str_eq p "") (is_empty "") _ e in absurd (ground arith)
key-HoldsKey none (some k) e =
    let (same, filled) = passes (str_eq "" k) (is_empty k) _ e in
    let empty : is_empty k ≡ true = subst (λ t. is_empty t ≡ true) (str_eq→eq "" k same) refl in
    absurd (ground arith)
key-HoldsKey (some p) (some k) e =
    let (same, filled) = passes (str_eq p k) (is_empty k) _ e in
    (k, refl, ap some (str_eq→eq p k same), filled)

module _ (crypto : Crypto) (parse_f64 : String → Option F64)
    (parse_ip : List ℕ → Option IpAddr) where
  -- The device that the request is identified as.
  abbrev pub Identified : AppState → Incoming → ℕ → Option String → Type 0
  Identified state incoming now who =
      (a : Authenticated) × ((verify_device crypto parse_f64 state.verifier state.devices
          (presented incoming) state.nonces now).1
        ≡ allow a)
      × (who ≡ some a.token_id)

  -- What a request that passes a guard has.
  abbrev pub Entitled : Guard → AppState → Incoming → ℕ → Option String → Type 0
  Entitled open_to_all state incoming now who = Unit
  Entitled api_key state incoming now who = HoldsKey state incoming
  Entitled admin_lan state incoming now who =
      HoldsKey state incoming
      × (is_private_ip (client_ip parse_ip incoming.peer incoming.forwarded_for state.behind_proxy)
          ≡ true)
  Entitled full state incoming now who = HoldsKey state incoming × Identified state incoming now who

  decided-ok :
      (state : AppState) (now : ℕ) (decision : Decision) (who : Option String)
      → (decided state now decision).0 ≡ ok who
      → (a : Authenticated) × (decision ≡ allow a) × (who ≡ some a.token_id)
  decided-ok state now (allow a) who e = (a, refl, cc)
  decided-ok state now (reject r) who e = absurd cc
  decided-ok state now (upgrade_required floor) who e = absurd cc

  behind_key-Entitled :
      (state : AppState) (incoming : Incoming) (guard : Guard) (now : ℕ) (who : Option String)
      → HoldsKey state incoming
      → (behind_key crypto parse_f64 parse_ip state incoming guard now).0 ≡ ok who
      → Entitled guard state incoming now who
  behind_key-Entitled state incoming open_to_all now who key e = tt
  behind_key-Entitled state incoming api_key now who key e = key
  behind_key-Entitled state incoming admin_lan now who key e =
      let ip = client_ip parse_ip incoming.peer incoming.forwarded_for state.behind_proxy in
      elim (Bool-cases (is_private_ip ip)) [
        | inl local ↦ (key, local)
        | inr foreign ↦ absurd (ground (arith, foreign, e))
      ]
  behind_key-Entitled state incoming full now who key e = (key, decided-ok _ now _ who e)

  key_checked-Entitled :
      (state : AppState) (incoming : Incoming) (guard : Guard) (now : ℕ) (who : Option String)
      (rejection : Option Rejection)
      → (rejection ≡ none → HoldsKey state incoming)
      → (key_checked crypto parse_f64 parse_ip state incoming guard now rejection).0 ≡ ok who
      → Entitled guard state incoming now who
  key_checked-Entitled state incoming guard now who none key e =
      behind_key-Entitled state incoming guard now who (key refl) e
  key_checked-Entitled state incoming guard now who (some r) key e = absurd cc

  authorise-Entitled :
      (state : AppState) (incoming : Incoming) (guard : Guard) (now : ℕ) (who : Option String)
      → (authorise crypto parse_f64 parse_ip state incoming guard now).0 ≡ ok who
      → Entitled guard state incoming now who
  unfolding authorise
  authorise-Entitled state incoming open_to_all now who e = tt
  authorise-Entitled state incoming api_key now who e =
      key_checked-Entitled state incoming api_key now who _
        (key-HoldsKey incoming.api_key state.api_key) e
  authorise-Entitled state incoming full now who e =
      key_checked-Entitled state incoming full now who _
        (key-HoldsKey incoming.api_key state.api_key) e
  authorise-Entitled state incoming admin_lan now who e =
      key_checked-Entitled state incoming admin_lan now who _
        (key-HoldsKey incoming.api_key state.api_key) e

  -- What a call is made for.
  admitted-ok :
      (call : Option String → Handled) (o : Outcome Denied (Option String)) (state : AppState)
      (handler : Handler) (who : Option String)
      → (admitted call (o, state)).0 ≡ answered handler who
      → (who' : Option String) × (o ≡ ok who') × (call who' ≡ answered handler who)
  admitted-ok call (ok w) state handler who e = (w, refl, e)
  admitted-ok call (err d) state handler who e = absurd cc
  admitted-ok call panic state handler who e = absurd cc

  not_streaming :
      (handler : Handler) (o : Outcome Denied (Option String)) (state : AppState)
      → (admitted (answered handler) (o, state)).0 ≢ streaming
  not_streaming handler (ok w) state e = cc
  not_streaming handler (err d) state e = cc
  not_streaming handler panic state e = cc

  streamed :
      (o : Outcome Denied (Option String)) (state : AppState)
      → (admitted (λ _. streaming) (o, state)).0 ≡ streaming
      → (who : Option String) × (o ≡ ok who)
  streamed (ok w) state e = (w, refl)
  streamed (err d) state e = absurd cc
  streamed panic state e = absurd cc

  handled-Entitled :
      (state : AppState) (incoming : Incoming) (now : ℕ) (r : Resolved) (handler : Handler)
      (who : Option String)
      → IsGuarded r
      → (handled crypto parse_f64 parse_ip state incoming now r).0 ≡ answered handler who
      → Entitled (required handler) state incoming now who
  handled-Entitled state incoming now (route guard h) handler who guarded e =
      let (who', passed, same) =
        admitted-ok (answered h) (authorise crypto parse_f64 parse_ip state incoming guard now).0
          (authorise crypto parse_f64 parse_ip state incoming guard now).1 handler who e in
      let same_handler : h ≡ handler = cc in
      let same_who : who' ≡ who = cc in
      subst (λ w. Entitled (required handler) state incoming now w) same_who
        (subst (λ g. Entitled g state incoming now who') (guarded ∙ ap required same_handler)
          (authorise-Entitled state incoming guard now who' passed))
  handled-Entitled state incoming now (stream guard) handler who guarded e =
      let (who', passed, same) =
        admitted-ok (λ _. streaming)
          (authorise crypto parse_f64 parse_ip state incoming guard now).0
          (authorise crypto parse_f64 parse_ip state incoming guard now).1 handler who e in
      absurd cc
  handled-Entitled state incoming now (method_not_allowed allowed) handler who guarded e = absurd cc
  handled-Entitled state incoming now not_found handler who guarded e = absurd cc

  streaming-Entitled :
      (state : AppState) (incoming : Incoming) (now : ℕ) (r : Resolved)
      → IsGuarded r
      → (handled crypto parse_f64 parse_ip state incoming now r).0 ≡ streaming
      → (who : Option String) × Entitled full state incoming now who
  streaming-Entitled state incoming now (route guard h) guarded e = absurd (
      not_streaming h (authorise crypto parse_f64 parse_ip state incoming guard now).0
        (authorise crypto parse_f64 parse_ip state incoming guard now).1 e)
  streaming-Entitled state incoming now (stream guard) guarded e =
      let (who, passed) =
        streamed (authorise crypto parse_f64 parse_ip state incoming guard now).0
          (authorise crypto parse_f64 parse_ip state incoming guard now).1 e in
      (
        who,
        subst (λ g. Entitled g state incoming now who) guarded
            (authorise-Entitled state incoming guard now who passed),
      )
  streaming-Entitled state incoming now (method_not_allowed allowed) guarded e = absurd cc
  streaming-Entitled state incoming now not_found guarded e = absurd cc

  -- What an outcome of `handle` says of the request: a handler that is called has what it has to be
  -- behind, and the stream of states is handed only to an identified device with the key.
  abbrev pub Deserved : AppState → Incoming → ℕ → Handled → Type 0
  Deserved state incoming now (answered handler who) =
      Entitled (required handler) state incoming now who
  Deserved state incoming now streaming =
      (who : Option String) × Entitled full state incoming now who
  Deserved state incoming now _ = Unit

  handled-Deserved :
      (state : AppState) (incoming : Incoming) (now : ℕ) (r : Resolved) (result : Handled)
      → IsGuarded r
      → (handled crypto parse_f64 parse_ip state incoming now r).0 ≡ result
      → Deserved state incoming now result
  handled-Deserved state incoming now r (answered handler who) guarded e =
      handled-Entitled state incoming now r handler who guarded e
  handled-Deserved state incoming now r streaming guarded e =
      streaming-Entitled state incoming now r guarded e
  handled-Deserved state incoming now r (refused d) guarded e = tt
  handled-Deserved state incoming now r (wrong_method m) guarded e = tt
  handled-Deserved state incoming now r unmatched guarded e = tt

  -- A handler is called, and the stream of states handed over, only for a request that has what this
  -- has to be behind. The check of life needs nothing. The version, the metrics and the start and the
  -- polls of a pairing need the server's key; the approval of a pairing and the list and the revoking of
  -- devices a client address on the local network as well. Every other handler and the stream need the
  -- key and a request that `verify_device` allows, and it is that device which the handler is told of.
  pub handle-Deserved :
      (state : AppState) (incoming : Incoming) (now : ℕ)
      → Deserved state incoming now (handle crypto parse_f64 parse_ip state incoming now).0
  unfolding handle
  handle-Deserved state incoming now =
      handled-Deserved state incoming now (resolve incoming.method incoming.path) _
        (resolve-IsGuarded incoming.method incoming.path) refl
