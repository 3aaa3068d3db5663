-- ===== src/Proto/Tests.antt =====
-- The wire formats on concrete bytes: the units' frames of crates/breeze-proto.
pub mod Pages
use breeze_core_native.Common.{
  ℕ, ◌<◌, ◌≡◌, ◌≢◌, refl, true, false, List, [], ◌∷◌, ◌++◌, arith, ok, panic, some, replicate,
  slice, length,
}
use breeze_core_native.Common.Bytes.{AreBytes}
use breeze_core_native.Proto.Security.{Aes, enc_key, encrypt_aes_cbc, xor_bytes}
use breeze_core_native.Proto.Security.Cbc.{IsCipher}
use breeze_core_native.Proto.Packet.{encode_at, decode as decode_packet}
use breeze_core_native.Proto.Packet.RoundTrip.{decode-encode_at}
use breeze_core_native.Proto.Lan.{
  response, encrypted_response, encode_encrypted, decode, derive_session_key,
}
use breeze_core_native.Proto.Lan.Session.{decode-encode_encrypted}
use breeze_core_native.Proto.Lan.Handshake.{derive_session_key-answer}
use breeze_core_native.Proto.Layers.{layers-round_trip}
use breeze_core_native.Proto.Crc8.{calculate}
use breeze_core_native.Proto.Frame.{air_conditioner, query, checksum, build, parse}
use breeze_core_native.Proto.Frame.RoundTrip.{parse-build}
use breeze_core_native.Proto.Frame.Received.{Accepted, parse-ok, parse-ne-panic, parse_panics}
use breeze_core_native.Proto.Ac.Types.{cool, off}
use breeze_core_native.Proto.Ac.Response.{State, parse as parse_state}
use breeze_core_native.Proto.Ac.Command.{Setpoint, finish, set_state_payload}
use breeze_core_native.Proto.Ac.Degrees.{parse-set_state_payload, parse-finish}

abbrev payload : List ℕ
payload = 0x41 ∷ 0x81 ∷ 0x00 ∷ []

abbrev frame : List ℕ
frame = 0xAA ∷ 0x0D ∷ 0xAC ∷ 0 ∷ 0 ∷ 0 ∷ 0 ∷ 0 ∷ 0 ∷ 3 ∷ 0x41 ∷ 0x81 ∷ 0x00 ∷ 0x82 ∷ []

build_test : build air_conditioner query payload ≡ frame
unfolding build checksum
build_test = refl

parse_test : parse frame air_conditioner ≡ ok payload
unfolding parse slice checksum
parse_test = refl

parse-build_example :
    parse (build air_conditioner query payload ++ (7 ∷ 9 ∷ [])) air_conditioner ≡ ok payload
parse-build_example = parse-build air_conditioner query payload (7 ∷ 9 ∷ []) (omega arith)

-- Ten bytes of zeros, which anybody on the network can send.
parse_panics_example : parse (replicate 10 0) air_conditioner ≡ panic
parse_panics_example = parse_panics air_conditioner (replicate 10 0) (omega arith) refl

abbrev cool_to_22_and_a_half : Setpoint
cool_to_22_and_a_half = record {
  power_on = true;
  mode = cool;
  target_temperature = 225;
  fan_speed = 102;
  swing_mode = off;
  eco = false;
  turbo = false;
  sleep = false;
  fahrenheit = false;
  purifier = false;
  aux_heat = false;
  independent_aux_heat = false;
  follow_me = false;
  freeze_protection = false;
  target_humidity = 40;
  beep = false;
}

abbrev report : List ℕ
report = 0xC0 ∷ 1 ∷ 0x56 ∷ 102 ∷ 0 ∷ 0 ∷ 0 ∷ 0 ∷ 0 ∷ 0 ∷ 0 ∷ 94 ∷ 100 ∷ 0 ∷ 0 ∷ 0 ∷ 0 ∷ []

parse-set_state_payload_example :
    (r : State) × (parse_state report ≡ ok r) × (r.target_temperature ≡ 225) × (r.mode ≡ some cool)
unfolding set_state_payload
parse-set_state_payload_example =
    parse-set_state_payload cool_to_22_and_a_half 45 report refl (omega arith) (omega arith)
      (omega arith) refl refl refl

-- Stand-ins for the crates: a cipher that does nothing, and digests of zeros.
abbrev aes : Aes
aes = record { encrypt_block = λ key block. block; decrypt_block = λ key block. block }

abbrev sha256 : List ℕ → List ℕ
sha256 bytes = replicate 32 0

abbrev md5 : List ℕ → List ℕ
md5 bytes = replicate 16 0

abbrev session_key : List ℕ
session_key = replicate 32 1

aes-IsCipher : (key : List ℕ) → IsCipher aes key
aes-IsCipher key block h = (h, refl)

md5-digest : (bytes : List ℕ) → (length (md5 bytes) ≡ 16) × AreBytes (md5 bytes)
md5-digest bytes = (refl, omega arith)

abbrev time : List ℕ
time = 42 ∷ 7 ∷ 0 ∷ 21 ∷ 23 ∷ 8 ∷ 26 ∷ 20 ∷ []

layers-round_trip_example :
    (sealed : List ℕ) × (packet : List ℕ) × (inner : List ℕ) × (encode_encrypted sha256 aes
        session_key 3
        (encode_at aes md5 7 (build air_conditioner query payload) time)
        0xFF
        encrypted_response
      ≡ ok sealed)
    × (decode sha256 aes (sealed ++ (0x83 ∷ [])) (some session_key) ≡ ok (response packet))
    × (decode_packet aes md5 packet ≡ ok inner)
    × (parse inner air_conditioner ≡ ok payload)
layers-round_trip_example =
    layers-round_trip aes md5 sha256 session_key payload time (0x83 ∷ []) 7 3 0xFF air_conditioner
      query (aes-IsCipher (enc_key md5)) (aes-IsCipher session_key) md5-digest (λ bytes. refl)
      (omega arith) (omega arith) (omega arith) refl (omega arith) (omega arith)

derive_session_key-answer_example :
    (encrypted : List ℕ) × (encrypt_aes_cbc aes session_key (replicate 32 5) ≡ ok encrypted)
    × (derive_session_key sha256 aes session_key (encrypted ++ sha256 (replicate 32 5))
        ≡ ok (xor_bytes (replicate 32 5) session_key))
derive_session_key-answer_example =
    derive_session_key-answer sha256 aes session_key (replicate 32 5) (aes-IsCipher session_key)
      (λ bytes. refl) (omega arith) refl
