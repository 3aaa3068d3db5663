-- ===== src/Auth/Nonce.antt =====
-- crates/breeze-auth/src/nonce.rs: the timestamp window and the single-use nonces. The standard
-- library's `f64::from_str` is the parameter `parse_f64`; times are microseconds (Auth/Clock.antt).
pub mod Window
use breeze_core_native.Common.{
  ℕ, ◌+◌, Bool, true, false, Option, none, some, String, [], leb, if◌then◌else◌, length,
}
use breeze_core_native.Common.Texts.{Dict, contains_key, insert, retain_values}
use breeze_core_native.Auth.Clock.{F64, finite, micros, within}

pub record NonceCache : Type 0 where
  pub skew_seconds : ℕ
  -- nonce -> the time after which it can be forgotten
  pub seen : Dict ℕ

abbrev pub default_skew_seconds : ℕ
default_skew_seconds = 60

abbrev pub new : ℕ → NonceCache
new skew = record { skew_seconds = skew; seen = [] }

abbrev pub is_in_window : NonceCache → Option F64 → ℕ → Bool
is_in_window cache none now = false
is_in_window cache (some (finite ts)) now = within now ts (micros cache.skew_seconds)
is_in_window cache (some _) now = false

unfoldable pub timestamp_in_window : (String → Option F64) → NonceCache → String → ℕ → Bool
timestamp_in_window parse_f64 cache timestamp now = is_in_window cache (parse_f64 timestamp) now

unfoldable pub sweep : NonceCache → ℕ → NonceCache
sweep cache now = record cache { seen = retain_values (λ expiry. leb now expiry) cache.seen }

-- The new cache, and whether the nonce was accepted.
unfoldable pub check_and_store : NonceCache → String → ℕ → NonceCache × Bool
check_and_store cache nonce now =
    let swept = sweep cache now in
    if contains_key nonce swept.seen
    then (swept, false)
    else (record swept { seen = insert nonce (now + micros swept.skew_seconds) swept.seen }, true)

unfoldable pub len : NonceCache → ℕ
len cache = length cache.seen
