-- ===== src/Store/Devices.antt =====
-- crates/breeze-store/src/models.rs: devices.json. Times are microseconds (Auth/Clock.antt).
use breeze_core_native.Common.{
  ℕ, Bool, true, false, Option, none, some, String, List, ◌==◌, if◌then◌else◌,
}

pub record DeviceRecord : Type 0 where
  pub token_id : String
  pub label : String
  pub auth_version : ℕ
  pub token_hash : Option String
  pub public_key : Option String
  pub created_at : ℕ
  -- `none` means non-expiring
  pub expires_at : Option ℕ
  pub last_used : Option ℕ

pub record DevicesDoc : Type 0 where
  pub devices : List DeviceRecord

abbrev pub is_some {ℓ} : {A : Type ℓ} → Option A → Bool
is_some none = false
is_some (some a) = true

unfoldable pub has_required_credential : DeviceRecord → Bool
has_required_credential r =
    if r.auth_version == 1
    then is_some r.token_hash
    else if r.auth_version == 2
    then is_some r.public_key
    else false
