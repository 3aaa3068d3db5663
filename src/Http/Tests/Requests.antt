-- ===== src/Http/Tests/Requests.antt =====
-- Requests to crates/breeze-http on concrete values, with stand-ins for the cryptographic crates.
use breeze_core_native.Common.{
  ℕ, ◌≡◌, refl, true, false, Option, some, none, List, [], ◌∷◌, String, if◌then◌else◌,
}
use breeze_core_native.Common.Bytes.{bytes_eq}
use breeze_core_native.Common.Texts.{codes, trim, split_once}
use breeze_core_native.Auth.Tests.{crypto}
use breeze_core_native.Auth.Clock.{F64}
use breeze_core_native.Auth.Net.{IpAddr, v4, client_ip, is_private_ip}
use breeze_core_native.Auth.Nonce.{new as new_cache}
use breeze_core_native.Auth.Verify.{verify_api_key}
use breeze_core_native.Http.Routing.{route_enroll_approve, resolve}
use breeze_core_native.Http.Routing.Guarded.{IsGuarded, resolve-IsGuarded}
use breeze_core_native.Http.Routing.Allowed.{is_served, resolve-allowed}
use breeze_core_native.Http.Admission.{Incoming, AppState, answered, header, authorise, handle}
use breeze_core_native.Http.Admission.Entitled.{Deserved, handle-Deserved}

abbrev parse_f64 : String → Option F64
parse_f64 text = none

-- The router's address, and one that is not on the local network.
abbrev router : IpAddr
router = v4 192 168 1 1

abbrev foreign : IpAddr
foreign = v4 203 0 113 9

abbrev parse_ip : List ℕ → Option IpAddr
parse_ip text = if bytes_eq text (codes "192.168.1.1") then some router else some foreign

-- A proxy that adds a line of its own leaves the client's line in front, and that one is read.
abbrev sent : List (String × String)
sent = ("x-forwarded-for", "192.168.1.1") ∷ ("x-forwarded-for", "203.0.113.9") ∷ []

abbrev value_codes : Option String → Option (List ℕ)
value_codes none = none
value_codes (some v) = some (codes v)

spoofed_test :
    is_private_ip
      (client_ip parse_ip (some foreign) (value_codes (header sent "x-forwarded-for")) true)
    ≡ true
unfolding client_ip is_private_ip trim bytes_eq
spoofed_test = refl

resolve-IsGuarded_example : IsGuarded (resolve "POST" "/api/units/7/control")
resolve-IsGuarded_example = resolve-IsGuarded "POST" "/api/units/7/control"

resolve-allowed_example : is_served (resolve "POST" "/api/units/7/control") ≡ true
unfolding resolve split_once bytes_eq
resolve-allowed_example = resolve-allowed "GET" "POST" "/api/units/7/control" refl

abbrev approval : Incoming
approval = record {
  method = "POST";
  path = "/api/auth/enroll/approve";
  signed_path = "/api/auth/enroll/approve";
  body = [];
  api_key = some "secret";
  bearer = none;
  auth_version = none;
  key_id = none;
  timestamp = none;
  nonce = none;
  signature = none;
  peer = some router;
  forwarded_for = none;
  device_token_id = none;
}

abbrev state : AppState
state = record {
  api_key = some "secret";
  verifier = record { min_auth_version = 1 };
  devices = record { devices = [] };
  nonces = new_cache 60;
  behind_proxy = false;
  touched = 0;
}

handle-Deserved_example :
    Deserved crypto parse_f64 parse_ip state approval 0
      (handle crypto parse_f64 parse_ip state approval 0).0
handle-Deserved_example = handle-Deserved crypto parse_f64 parse_ip state approval 0

-- The handler is called.
approval_test :
    (handle crypto parse_f64 parse_ip state approval 0).0 ≡ answered route_enroll_approve none
unfolding handle authorise resolve verify_api_key client_ip is_private_ip
approval_test = refl
