-- ===== src/Auth/Verify/Bearer.antt =====
-- Which scheme of crates/breeze-auth/src/verify.rs a device can be let in by.
use mathlib.Core.Path.{subst}
use breeze_core_native.Common.{
  ℕ, ◌≤◌, ◌≡◌, ◌≢◌, ◌↔◌, ◌∙◌, inl, inr, true, false, Option, none, some, String, List, [], ◌∷◌, All,
  arith, Bool-cases, Option-cases, find-test, ◌==◌, ◌&&◌,
}
use breeze_core_native.Common.Texts.{str_eq, codes}
use breeze_core_native.Store.Devices.{DeviceRecord, DevicesDoc}
use breeze_core_native.Auth.Clock.{F64}
use breeze_core_native.Auth.Nonce.{NonceCache}
use breeze_core_native.Auth.Signing.{Crypto}
use breeze_core_native.Auth.Verify.{
  Presented, Authenticated, allow, Verifier, find_by_key_id, verify_device, verify_v1,
  find_by_secret, hash_secret, last_match, hash_matches, unwrap_or, is_expired, announces_v2,
}
use breeze_core_native.Auth.Verify.Passed.{verify_v2-Passed}

find_by_key_id-version :
    (doc : DevicesDoc) (key_id : String) (now : ℕ) (r : DeviceRecord)
    → find_by_key_id doc key_id now ≡ some r
    → (r.auth_version ≡ 2) × (is_expired r now ≡ false) × (str_eq r.token_id key_id ≡ true)
unfolding find_by_key_id
find_by_key_id-version doc key_id now r e =
    ground (arith, find-test (λ r. str_eq r.token_id key_id && r.auth_version == 2) doc.devices r)

last_match-matches :
    (candidate : String) (records : List DeviceRecord) (start : Option DeviceRecord)
    (P : DeviceRecord → Type 0) (r : DeviceRecord)
    → All P records
    → ((s : DeviceRecord) → start ≡ some s → P s × (hash_matches candidate s ≡ true))
    → last_match candidate records start ≡ some r
    → P r × (hash_matches candidate r ≡ true)
unfolding last_match
last_match-matches candidate [] start P r h hs e = hs r e
last_match-matches candidate (x ∷ rest) start P r h hs e =
    elim (Bool-cases (hash_matches candidate x)) [
      | inl t ↦
          last_match-matches candidate rest (some x) P r h.1
            (λ s es. subst (λ y. P y × (hash_matches candidate y ≡ true)) (cc es) (h.0, t))
            (rw t at e)
      | inr f ↦ last_match-matches candidate rest start P r h.1 hs (rw f at e)
    ]

-- A stored v2 record holds no token hash.
abbrev pub HoldsNoToken : DeviceRecord → Type 0
HoldsNoToken r = r.auth_version ≡ 2 → r.token_hash ≡ none

hash_matches-version :
    (candidate : String) (r : DeviceRecord)
    → HoldsNoToken r
    → hash_matches candidate r ≡ true
    → r.auth_version ≢ 2
hash_matches-version candidate r h m e = ground (arith, h e)

module _ (crypto : Crypto) (parse_f64 : String → Option F64) (verifier : Verifier) where
  -- A bearer token is let in only by a record that holds the token's hash, has not expired and is
  -- at or above the floor; the answer names that record.
  pub verify_v1-allow :
      (doc : DevicesDoc) (p : Presented) (now : ℕ) (a : Authenticated) (P : DeviceRecord → Type 0)
      → All P doc.devices
      → verify_v1 crypto parse_f64 verifier doc p now ≡ allow a
      → (r : DeviceRecord) × P r
        × (hash_matches (hash_secret crypto (codes (unwrap_or "" p.bearer))) r ≡ true)
        × (is_expired r now ≡ false)
        × (verifier.min_auth_version ≤ r.auth_version)
        × (a.token_id ≡ r.token_id)
        × (a.auth_version ≡ r.auth_version)
  unfolding verify_v1 find_by_secret
  verify_v1-allow doc p now a P h e = elim (Option-cases (last_match candidate doc.devices none)) [
    | inl missing ↦ absurd (ground arith)
    | inr (r, found) ↦
        let (holds, hit) =
          last_match-matches candidate doc.devices none P r h (λ s es. absurd (cc es)) found in
        (r, holds, hit, ground arith, ground arith, ground arith, ground arith)
  ]
    where
      candidate : String
      candidate = hash_secret crypto (codes (unwrap_or "" p.bearer))

  -- No downgrade: where no stored v2 record holds a token hash, an allowed request is answered as a
  -- v2 device exactly when it announced the v2 scheme.
  pub verify_device-scheme :
      (doc : DevicesDoc) (p : Presented) (nonces nonces' : NonceCache) (now : ℕ) (a : Authenticated)
      → All HoldsNoToken doc.devices
      → verify_device crypto parse_f64 verifier doc p nonces now ≡ (nonces', allow a)
      → (announces_v2 p.auth_version ≡ true) ↔ (a.auth_version ≡ 2)
  unfolding verify_device
  verify_device-scheme doc p nonces nonces' now a h e =
      elim (Bool-cases (announces_v2 p.auth_version)) [
        | inl v2 ↦
            let (headers, r, passed) =
              verify_v2-Passed crypto parse_f64 verifier doc p nonces nonces' now a
                (ground arith) in
            let (version, unexpired, named) =
              find_by_key_id-version doc headers.key_id now r passed.known in
            (λ _. passed.same_version ∙ version, λ _. v2)
        | inr v1 ↦
            let (r, holds, hit, unexpired, current, same_id, same_version) =
              verify_v1-allow doc p now a HoldsNoToken h (ground arith) in
            (
              λ v2. absurd (cc (v1, v2)),
              λ two. absurd (hash_matches-version _ r holds hit (ground arith)),
            )
      ]
