-- ===== src/Device/Tests/Connections.antt =====
-- Exchanges of crates/breeze-device with a unit whose connections are written out.
use breeze_core_native.Common.{
  ℕ, ◌+◌, ◌≡◌, Option, none, some, List, [], ◌∷◌, false, Outcome, ok, err, true, refl,
}
use breeze_core_native.Auth.Net.{v4}
use breeze_core_native.Proto.Security.{Aes}
use breeze_core_native.Device.Error.{DeviceError, missing_credentials}
use breeze_core_native.Device.Connection.{
  Device, Network, connects, credentials, new_device, set_name, forget, needs_warming, is_connected,
}
use breeze_core_native.Device.Connection.Exchange.{exchange, exchange_until}
use breeze_core_native.Device.Connection.Settled.{Settled, exchange-Settled}

abbrev digest : List ℕ → List ℕ
digest message = message

abbrev no_cipher : Aes
no_cipher = record { encrypt_block = λ key block. block; decrypt_block = λ key block. block }

abbrev unit : Option (List ℕ) → Device
unit token = new_device record {
  id = 7;
  name = "Fake";
  ip = v4 192 0 2 1;
  port = 6444;
  token = token;
  key = some (5 ∷ 6 ∷ []);
}

-- A unit that takes every connection and closes it.
abbrev closing : Network
closing = record { now = 40; dials = connects 10 [] [] ∷ connects 10 [] [] ∷ []; next_id = 1 }

abbrev same : List ℕ → Outcome DeviceError (List ℕ)
same payload = ok payload

exchange-Settled_example :
    Settled (0 + 2) (
      exchange digest digest no_cipher (λ now. []) (1 ∷ 2 ∷ []) same (unit (some (9 ∷ []))) closing)
    × (exchange_until digest digest no_cipher
          (λ now. [])
          5
          0
          (1 ∷ 2 ∷ [])
          same
          (unit (some (9 ∷ [])))
          closing
        ≡ exchange digest digest no_cipher
            (λ now. [])
            (1 ∷ 2 ∷ [])
            same
            (unit (some (9 ∷ [])))
            closing)
exchange-Settled_example =
    exchange-Settled digest digest no_cipher (λ now. []) 3 (1 ∷ 2 ∷ []) same (unit (some (9 ∷ [])))
      closing

empty_token_test : credentials (unit (some [])).config ≡ err missing_credentials
unfolding credentials
empty_token_test = refl

warming_test :
    (needs_warming (unit (some (9 ∷ []))) closing 60_000 ≡ true)
    × (is_connected (forget (set_name (unit none) "Attic")) ≡ false)
unfolding needs_warming credentials is_connected forget set_name
warming_test = (refl, refl)
