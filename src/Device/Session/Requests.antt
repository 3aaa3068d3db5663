-- ===== src/Device/Session/Requests.antt =====
-- crates/breeze-device/src/session.rs: sending and resending, the handshake and a request.
use breeze_core_native.Common.{
  ℕ, zero, suc, ◌+◌, ◌-◌, Bool, true, false, ◌&&◌, none, some, List, [], ◌∷◌, Option, ◌++◌, ltb,
  if◌then◌else◌, Outcome, ok, err, panic,
}
use breeze_core_native.Proto.Security.{Aes}
use breeze_core_native.Proto.Lan.{
  LanError, unexpected_type, type_byte, handshake_response, encrypted_response, Decoded, handshake,
  response, derive_session_key, encode_handshake, encode_request, decode,
}
use breeze_core_native.Device.Error.{
  ErrorKind, DeviceError, timed_out, io, protocol, not_authenticated,
}
use breeze_core_native.Device.Session.{Session, bump_packet_id}
use breeze_core_native.Device.Session.Transfer.{
  Ran, ◌and_then◌, read_packet, absorb_late_replies, drain,
}

-- `writes` says what comes of the write.
abbrev pub write_with : List (Option ErrorKind) → List ℕ → Session → Ran (Unit {0})
write_with [] data' s =
    (ok tt, record s { stream = record s.stream { sent = s.stream.sent ++ (data' ∷ []) } })
write_with (none ∷ later) data' s = (
  ok tt,
  record s { stream = record s.stream { sent = s.stream.sent ++ (data' ∷ []); writes = later } },
)
write_with (some kind ∷ later) data' s =
    (err (io kind), record s { stream = record s.stream { writes = later } })

unfoldable pub write_all : List ℕ → Session → Ran (Unit {0})
write_all data' s = write_with s.stream.writes data' s

abbrev pub is_timeout : DeviceError → Bool
is_timeout (io timed_out) = true
is_timeout _ = false

-- After the answer to the send number `sent`.
unfoldable pub answered : ℕ → List ℕ → Session → Ran (List ℕ)
answered sent packet s =
    if ltb 1 sent
    then (
      ok packet,
      absorb_late_replies
          (record s { stats = record s.stats { resends = s.stats.resends + (sent - 1) } }),
    )
    else (ok packet, s)

-- What comes after the wait for send number `sent`; `again` is the next turn of the loop.
unfoldable pub settle_send :
    ℕ → Outcome DeviceError (List ℕ) → Session → Ran (List ℕ) → Ran (List ℕ)
settle_send sent (ok packet) s again = answered sent packet s
settle_send sent panic s again = (panic, s)
settle_send sent (err e) s again =
    if is_timeout e && ltb sent s.timing.sends then again else (err e, s)

-- The loop of `send_and_wait`.
unfoldable pub send_until : (Session → Ran (List ℕ)) → ℕ → ℕ → Session → Ran (List ℕ)
send_until encode zero sent s = (panic, s)
send_until encode (suc fuel) sent s = encode s and_then λ data' s. write_all data' s and_then λ _ s.
    let (o, s) = read_packet s.timing.reply_timeout s in
    settle_send (suc sent) o s (send_until encode fuel (suc sent) s)

abbrev pub send_fuel : Session → ℕ
send_fuel s = suc s.timing.sends

unfoldable pub send_and_wait : (Session → Ran (List ℕ)) → Session → Ran (List ℕ)
send_and_wait encode s = send_until encode (send_fuel s) 0 s

-- `?` on a result of breeze-proto's session layer.
abbrev pub from_lan {ℓ} : {A : Type ℓ} → Outcome LanError A → Outcome DeviceError A
from_lan (ok a) = ok a
from_lan (err e) = err (protocol e)
from_lan panic = panic

unfoldable pub handshake_bytes : List ℕ → Session → Ran (List ℕ)
handshake_bytes token s = (ok (encode_handshake s.packet_id token), bump_packet_id s)

abbrev settled : Session → Session
settled s = record s { stream = record s.stream { now = s.stream.now + s.timing.settle } }

abbrev reply_of : Decoded → Outcome DeviceError (List ℕ)
reply_of (response v2) = ok v2
reply_of (handshake payload) = err (protocol (unexpected_type (type_byte handshake_response)))

module _ (sha256 : List ℕ → List ℕ) (aes : Aes) where
  unfoldable pub request_bytes : List ℕ → List ℕ → Session → Ran (List ℕ)
  request_bytes key packet s =
      (from_lan (encode_request sha256 aes key s.packet_id packet 0), s) and_then λ request s.
      (ok request, bump_packet_id s)

  unfoldable pub keep_key : List ℕ → Decoded → Session → Ran (Unit {0})
  keep_key key (response v2) s =
      (err (protocol (unexpected_type (type_byte encrypted_response))), s)
  keep_key key (handshake payload) s =
      (from_lan (derive_session_key sha256 aes key payload), s) and_then λ session_key s.
      (ok tt, record s { session_key = some session_key; authenticated_at = some s.stream.now })

  unfoldable pub authenticate : List ℕ → List ℕ → Session → Ran (Unit {0})
  authenticate token key s =
      send_and_wait (handshake_bytes token) (record s { rx = [] }) and_then λ packet s.
      (from_lan (decode sha256 aes packet none), s) and_then λ decoded s.
      keep_key key decoded s and_then λ _ s. (ok tt, settled s)

  unfoldable pub request_with : List ℕ → List ℕ → Session → Ran (List ℕ)
  request_with key packet s = drain s and_then λ _ s.
      send_and_wait (request_bytes key packet) s and_then λ reply s.
      (from_lan (decode sha256 aes reply (some key)), s) and_then λ decoded s. (reply_of decoded, s)

  unfoldable pub request : List ℕ → Session → Ran (List ℕ)
  request packet s = elim s.session_key [
    | none ↦ (err not_authenticated, s)
    | some key ↦ request_with key packet s
  ]
