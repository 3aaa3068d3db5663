-- ===== src/Auth/Verify/Passed.antt =====
-- The v2 scheme of crates/breeze-auth/src/verify.rs: what an allowed request has passed, and what a
-- request does to the nonce cache.
use mathlib.Core.Path.{subst}
use breeze_core_native.Common.{
  ℕ, ◌≤◌, ◌≡◌, ◌⊎◌, inl, inr, Bool, true, false, ◌&&◌, Option, none, some, String, arith, leb,
  Bool-cases, Option-cases,
}
use breeze_core_native.Store.Devices.{DeviceRecord, DevicesDoc}
use breeze_core_native.Auth.Clock.{F64}
use breeze_core_native.Auth.Nonce.{NonceCache, timestamp_in_window, check_and_store}
use breeze_core_native.Auth.Signing.{Crypto, build_canonical, verify_signature}
use breeze_core_native.Auth.Verify.{
  Presented, Authenticated, allow, Verifier, unwrap_or, SignedHeaders, signed_headers,
  find_by_key_id, check_request, verify_v2, verify_device,
}

module _ (crypto : Crypto) (parse_f64 : String → Option F64) (verifier : Verifier) where
  -- What an allowed v2 request has passed.
  pub record Passed (doc : DevicesDoc) (p : Presented) (nonces nonces' : NonceCache) (now : ℕ)
      (a : Authenticated) (h : SignedHeaders) (r : DeviceRecord) : Type 0 where
    pub complete : signed_headers p ≡ some h
    pub known : find_by_key_id doc h.key_id now ≡ some r
    pub current : verifier.min_auth_version ≤ r.auth_version
    pub in_window : timestamp_in_window parse_f64 nonces h.timestamp now ≡ true
    pub signed :
        verify_signature crypto
          (unwrap_or "" r.public_key)
          (build_canonical crypto p.method p.path h.timestamp h.nonce p.body)
          h.signature
        ≡ true
    pub fresh : (check_and_store nonces h.nonce now).1 ≡ true
    pub spent : nonces' ≡ (check_and_store nonces h.nonce now).0
    pub same_id : a.token_id ≡ r.token_id
    pub same_version : a.auth_version ≡ r.auth_version

  check_request-Passed :
      (doc : DevicesDoc) (p : Presented) (nonces nonces' : NonceCache) (now : ℕ) (a : Authenticated)
      (h : SignedHeaders) (r : DeviceRecord)
      → signed_headers p ≡ some h
      → find_by_key_id doc h.key_id now ≡ some r
      → check_request crypto parse_f64 verifier p h nonces now (some r) ≡ (nonces', allow a)
      → Passed doc p nonces nonces' now a h r
  unfolding check_request
  check_request-Passed doc p nonces nonces' now a h r eh er e = ground arith

  -- A v2 request is allowed only after every check of `check_request`.
  pub verify_v2-Passed :
      (doc : DevicesDoc) (p : Presented) (nonces nonces' : NonceCache) (now : ℕ) (a : Authenticated)
      → verify_v2 crypto parse_f64 verifier doc p nonces now ≡ (nonces', allow a)
      → (h : SignedHeaders) × (r : DeviceRecord) × Passed doc p nonces nonces' now a h r
  unfolding verify_v2
  verify_v2-Passed doc p nonces nonces' now a e = elim (Option-cases (signed_headers p)) [
    | inl eh ↦ absurd (ground arith)
    | inr (h, eh) ↦ elim (Option-cases (find_by_key_id doc h.key_id now)) [
      | inl er ↦ absurd (ground arith)
      | inr (r, er) ↦
          (h, r, check_request-Passed doc p nonces nonces' now a h r eh er (ground arith))
    ]
  ]

  -- The cache after any request is the one before it, or the one after one call of
  -- `check_and_store`.
  abbrev pub Touched : NonceCache → ℕ → NonceCache → Type 0
  Touched nonces now nonces' =
      (nonces' ≡ nonces) ⊎ ((nonce : String) × (nonces' ≡ (check_and_store nonces nonce now).0))

  signature_reached : Presented → SignedHeaders → NonceCache → ℕ → Option DeviceRecord → Bool
  signature_reached p h nonces now none = false
  signature_reached p h nonces now (some r) =
      leb verifier.min_auth_version r.auth_version
      && (timestamp_in_window parse_f64 nonces h.timestamp now
          && verify_signature crypto (unwrap_or "" r.public_key)
              (build_canonical crypto p.method p.path h.timestamp h.nonce p.body) h.signature)

  check_request-Touched :
      (p : Presented) (h : SignedHeaders) (nonces : NonceCache) (now : ℕ)
      (found : Option DeviceRecord)
      → Touched nonces now (check_request crypto parse_f64 verifier p h nonces now found).0
  unfolding check_request signature_reached
  check_request-Touched p h nonces now found =
      elim (Bool-cases (signature_reached p h nonces now found)) [
        | inl e ↦ inr (h.nonce, ground arith)
        | inr e ↦ inl (ground arith)
      ]

  pub verify_device-Touched :
      (doc : DevicesDoc) (p : Presented) (nonces : NonceCache) (now : ℕ)
      → Touched nonces now (verify_device crypto parse_f64 verifier doc p nonces now).0
  unfolding verify_device verify_v2
  verify_device-Touched doc p nonces now = elim (Option-cases (signed_headers p)) [
    | inl eh ↦ inl (ground arith)
    | inr (h, eh) ↦
        ground (arith, check_request-Touched p h nonces now (find_by_key_id doc h.key_id now))
  ]

  pub Passed-headers :
      (doc : DevicesDoc) (p : Presented) (h : SignedHeaders) (nonces nonces' : NonceCache) (now : ℕ)
      (a : Authenticated)
      → signed_headers p ≡ some h
      → verify_v2 crypto parse_f64 verifier doc p nonces now ≡ (nonces', allow a)
      → (r : DeviceRecord) × Passed doc p nonces nonces' now a h r
  Passed-headers doc p h nonces nonces' now a eh e =
      let (h', r, passed) = verify_v2-Passed doc p nonces nonces' now a e in
      let same : h' ≡ h = cc (passed.complete, eh) in
      (r, subst (λ k. Passed doc p nonces nonces' now a k r) same passed)

  check_request-allow :
      (doc : DevicesDoc) (p : Presented) (nonces nonces' : NonceCache) (now : ℕ) (a : Authenticated)
      (h : SignedHeaders) (r : DeviceRecord)
      → Passed doc p nonces nonces' now a h r
      → check_request crypto parse_f64 verifier p h nonces now (some r) ≡ (nonces', allow a)
  unfolding check_request
  check_request-allow doc p nonces nonces' now a h r e = ground arith

  -- And all of that is enough.
  pub verify_v2-allow :
      (doc : DevicesDoc) (p : Presented) (nonces nonces' : NonceCache) (now : ℕ) (a : Authenticated)
      (h : SignedHeaders) (r : DeviceRecord)
      → Passed doc p nonces nonces' now a h r
      → verify_v2 crypto parse_f64 verifier doc p nonces now ≡ (nonces', allow a)
  unfolding verify_v2
  verify_v2-allow doc p nonces nonces' now a h r e =
      ground (arith, check_request-allow doc p nonces nonces' now a h r e)

  -- A request whose own signature does not verify, under the key of the record that its own key id
  -- names, leaves the nonce cache as it was, so a forged request cannot use up a nonce.
  pub verify_device-forged :
      (doc : DevicesDoc) (p : Presented) (nonces : NonceCache) (now : ℕ)
      → ((h : SignedHeaders) (r : DeviceRecord)
          → signed_headers p ≡ some h
          → find_by_key_id doc h.key_id now ≡ some r
          → verify_signature crypto
              (unwrap_or "" r.public_key)
              (build_canonical crypto p.method p.path h.timestamp h.nonce p.body)
              h.signature
            ≡ false)
      → (verify_device crypto parse_f64 verifier doc p nonces now).0 ≡ nonces
  unfolding verify_device verify_v2 check_request
  verify_device-forged doc p nonces now forged = elim (Option-cases (signed_headers p)) [
    | inl eh ↦ ground arith
    | inr (h, eh) ↦ elim (Option-cases (find_by_key_id doc h.key_id now)) [
      | inl er ↦ ground arith
      | inr (r, er) ↦ ground (arith, forged h r eh er)
    ]
  ]
