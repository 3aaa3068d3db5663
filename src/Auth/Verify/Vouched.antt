-- ===== src/Auth/Verify/Vouched.antt =====
-- The v2 scheme of crates/breeze-auth/src/verify.rs: what stands behind an allowed request.
use breeze_core_native.Common.{
  ℕ, ◌+◌, ◌≤◌, ◌<◌, ◌≡◌, inl, inr, ap, ◌∙◌, Bool, true, false, ◌&&◌, ◌==◌, Option, none, some,
  String, List, [], ◌∷◌, ◌++◌, arith, find, length, Bool-cases, Option-cases, find-test,
}
use breeze_core_native.Common.Int.{ℤ, pos, negsuc}
use breeze_core_native.Common.Texts.{str_eq, str_eq→eq, is_empty, lookup, codes}
use breeze_core_native.Store.Devices.{DeviceRecord, DevicesDoc}
use breeze_core_native.Auth.Clock.{F64, finite, infinity, neg_infinity, nan, micros, within}
use breeze_core_native.Auth.Nonce.{NonceCache, timestamp_in_window, check_and_store}
use breeze_core_native.Auth.Nonce.Window.{IsValid, check_and_store-accepts, check_and_store-stores}
use breeze_core_native.Auth.Signing.{
  Crypto, b64_decode, build_canonical, parse_public_key, verify_signature,
}
use breeze_core_native.Auth.Verify.{
  Presented, Authenticated, allow, Verifier, unwrap_or, SignedHeaders, all_four, signed_headers,
  unless_expired, is_expired, find_by_key_id, verify_v2,
}
use breeze_core_native.Auth.Verify.Passed.{Passed, verify_v2-Passed}

-- A header that was sent, and is not empty.
abbrev pub IsSent : Option String → String → Type 0
IsSent header text = (header ≡ some text) × (is_empty text ≡ false)

-- The two moments are at most `bound` apart.
abbrev pub IsNear : ℕ → ℕ → ℤ → Type 0
IsNear bound now (pos ts) = (now ≤ ts + bound) × (ts ≤ now + bound)
IsNear bound now (negsuc n) = now + (n + 1) ≤ bound

-- The bytes behind a header verify under the key.
abbrev pub IsSigned : (crypto : Crypto) → String → List ℕ → String → Type 0
IsSigned crypto public_key message signature =
    (key : crypto.VerifyingKey) × (bytes : List ℕ) × (parse_public_key crypto public_key ≡ some key)
    × (b64_decode crypto (codes signature) ≡ some bytes)
    × (length bytes ≡ 64)
    × (crypto.verify_strict key message bytes ≡ true)

-- What stands behind a request: an enrolled device that has not expired, a moment near the clock, a
-- signature of that device over this request, and a nonce that is not remembered before and is after.
pub record Vouched (crypto : Crypto) (parse_f64 : String → Option F64) (floor : ℕ)
    (doc : DevicesDoc) (p : Presented) (nonces nonces' : NonceCache) (now : ℕ) (h : SignedHeaders)
    (r : DeviceRecord) : Type 0 where
  pub key_id : IsSent p.key_id h.key_id
  pub timestamp : IsSent p.timestamp h.timestamp
  pub nonce : IsSent p.nonce h.nonce
  pub signature : IsSent p.signature h.signature
  pub enrolled :
      (before : List DeviceRecord) × (after : List DeviceRecord) × (doc.devices
        ≡ before ++ (r ∷ after))
  pub named : r.token_id ≡ h.key_id
  pub scheme : (r.auth_version ≡ 2) × (floor ≤ 2)
  pub live : (expiry : ℕ) → r.expires_at ≡ some expiry → now ≤ expiry
  pub near :
      (ts : ℤ) × (parse_f64 h.timestamp ≡ some (finite ts))
      × IsNear (micros nonces.skew_seconds) now ts
  pub signed :
      IsSigned crypto
        (unwrap_or "" r.public_key)
        (build_canonical crypto p.method p.path h.timestamp h.nonce p.body)
        h.signature
  pub fresh : (expiry : ℕ) → lookup h.nonce nonces.seen ≡ some expiry → expiry < now
  pub spent : lookup h.nonce nonces'.seen ≡ some (now + micros nonces.skew_seconds)

find-split :
    (test : DeviceRecord → Bool) (rs : List DeviceRecord) (r : DeviceRecord)
    → find test rs ≡ some r
    → (before : List DeviceRecord) × (after : List DeviceRecord) × (rs ≡ before ++ (r ∷ after))
find-split test [] r e = absurd (ground arith)
find-split test (x ∷ xs) r e = elim (Bool-cases (test x)) [
  | inl here ↦ ([], xs, ap (λ y. y ∷ xs) (ground (arith, e, here)))
  | inr elsewhere ↦
      let (before, after, split) = find-split test xs r (ground arith) in
      (x ∷ before, after, ap (λ ys. x ∷ ys) split)
]

found-live :
    (now : ℕ) (found : Option DeviceRecord) (r : DeviceRecord)
    → unless_expired now found ≡ some r
    → (found ≡ some r) × ((expiry : ℕ) → r.expires_at ≡ some expiry → now ≤ expiry)
found-live now none r e = absurd (ground arith)
found-live now (some r') r e = elim (Bool-cases (is_expired r' now)) [
  | inl late ↦ absurd (ground arith)
  | inr early ↦ (ground arith, λ expiry x. ground arith)
]

within-IsNear : (now : ℕ) (ts : ℤ) (bound : ℕ) → within now ts bound ≡ true → IsNear bound now ts
within-IsNear now (pos ts) bound h = (ground arith, ground arith)
within-IsNear now (negsuc n) bound h = ground arith

window-IsNear :
    (parse_f64 : String → Option F64) (nonces : NonceCache) (timestamp : String) (now : ℕ)
    → timestamp_in_window parse_f64 nonces timestamp now ≡ true
    → (ts : ℤ) × (parse_f64 timestamp ≡ some (finite ts))
      × IsNear (micros nonces.skew_seconds) now ts
unfolding timestamp_in_window
window-IsNear parse_f64 nonces timestamp now h = elim (Option-cases (parse_f64 timestamp)) [
  | inl e ↦ absurd (ground arith)
  | inr (finite ts, e) ↦ (ts, e, within-IsNear now ts (micros nonces.skew_seconds) (ground arith))
  | inr (infinity, e) ↦ absurd (ground arith)
  | inr (neg_infinity, e) ↦ absurd (ground arith)
  | inr (nan, e) ↦ absurd (ground arith)
]

verify_signature-IsSigned :
    (crypto : Crypto) (public_key : String) (message : List ℕ) (signature : String)
    → verify_signature crypto public_key message signature ≡ true
    → IsSigned crypto public_key message signature
unfolding verify_signature
verify_signature-IsSigned crypto public_key message signature h =
    elim (Option-cases (parse_public_key crypto public_key)) [
      | inl e ↦ absurd (ground arith)
      | inr (key, e) ↦ elim (Option-cases (b64_decode crypto (codes signature))) [
        | inl e' ↦ absurd (ground arith)
        | inr (bytes, e') ↦ (key, bytes, e, e', ground arith, ground arith)
      ]
    ]

abbrev AllSent : (k t n s : Option String) → SignedHeaders → Type 0
AllSent k t n s h =
    IsSent k h.key_id × IsSent t h.timestamp × IsSent n h.nonce × IsSent s h.signature

all_four-IsSent :
    (k t n s : Option String) (h : SignedHeaders) → all_four k t n s ≡ some h → AllSent k t n s h
all_four-IsSent (some k) (some t) (some n) (some s) h e = (
  (ground arith, ground arith),
  (ground arith, ground arith),
  (ground arith, ground arith),
  (ground arith, ground arith),
)
all_four-IsSent (some k) (some t) (some n) none h e = absurd cc
all_four-IsSent (some k) (some t) none s h e = absurd cc
all_four-IsSent (some k) none n s h e = absurd cc
all_four-IsSent none t n s h e = absurd cc

fresh-forgotten :
    (nonces : NonceCache) (nonce : String) (now expiry : ℕ)
    → IsValid nonces
    → (check_and_store nonces nonce now).1 ≡ true
    → lookup nonce nonces.seen ≡ some expiry
    → expiry < now
fresh-forgotten nonces nonce now expiry v fresh e =
    ground (arith, check_and_store-accepts nonces nonce now v)

module _ (crypto : Crypto) (parse_f64 : String → Option F64) (verifier : Verifier) where
  Passed-Vouched :
      (doc : DevicesDoc) (p : Presented) (nonces nonces' : NonceCache) (now : ℕ) (a : Authenticated)
      (h : SignedHeaders) (r : DeviceRecord)
      → IsValid nonces
      → Passed crypto parse_f64 verifier doc p nonces nonces' now a h r
      → Vouched crypto parse_f64 verifier.min_auth_version doc p nonces nonces' now h r
  unfolding find_by_key_id signed_headers
  Passed-Vouched doc p nonces nonces' now a h r v passed =
      let named : DeviceRecord → Bool = λ r. str_eq r.token_id h.key_id && r.auth_version == 2 in
      let (found, live) = found-live now (find named doc.devices) r passed.known in
      let (k, t, n, s) =
        all_four-IsSent p.key_id p.timestamp p.nonce p.signature h passed.complete in
      let test = find-test named doc.devices r found in
      let version : r.auth_version ≡ 2 = ground arith in
      record {
        key_id = k;
        timestamp = t;
        nonce = n;
        signature = s;
        enrolled = find-split named doc.devices r found;
        named = str_eq→eq r.token_id h.key_id (ground arith);
        scheme = (version, omega (arith, passed.current));
        live = live;
        near = window-IsNear parse_f64 nonces h.timestamp now passed.in_window;
        signed = verify_signature-IsSigned crypto _ _ h.signature passed.signed;
        fresh = λ expiry e. fresh-forgotten nonces h.nonce now expiry v passed.fresh e;
        spent = rw (passed.spent) (check_and_store-stores nonces h.nonce now passed.fresh);
      }

  -- A v2 request is allowed only if its four headers were sent and are not empty, and an enrolled v2
  -- device stands behind it: the record of its key id, which has not expired and is not below the
  -- floor; its timestamp is a number at most the skew away from the clock; 64 bytes of signature over its
  -- canonical string verify under the key of that record; its nonce was not remembered, or only past its
  -- expiry, and is remembered for the skew afterwards. The answer names that record. The nonce cache
  -- holds each nonce once.
  pub verify_v2-Vouched :
      (doc : DevicesDoc) (p : Presented) (nonces nonces' : NonceCache) (now : ℕ) (a : Authenticated)
      → IsValid nonces
      → verify_v2 crypto parse_f64 verifier doc p nonces now ≡ (nonces', allow a)
      → (h : SignedHeaders) × (r : DeviceRecord) × Vouched crypto parse_f64
          verifier.min_auth_version doc p nonces nonces' now h r
        × (a.token_id ≡ r.token_id)
        × (a.auth_version ≡ 2)
  verify_v2-Vouched doc p nonces nonces' now a v e =
      let (h, r, passed) =
        verify_v2-Passed crypto parse_f64 verifier doc p nonces nonces' now a e in
      let vouched = Passed-Vouched doc p nonces nonces' now a h r v passed in
      (h, r, vouched, passed.same_id, passed.same_version ∙ vouched.scheme.0)
