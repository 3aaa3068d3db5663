-- ===== src/Auth/Verify/Replay.antt =====
-- When a v2 request that crates/breeze-auth/src/verify.rs allowed once is refused or allowed again.
use breeze_core_native.Common.{
  ℕ, ◌+◌, ◌≤◌, ◌<◌, ◌≡◌, ◌≢◌, refl, ◌∙◌, ap, inl, inr, true, Option, some, String, List, [], ◌∷◌,
  All, arith,
}
use breeze_core_native.Common.Int.{pos}
use breeze_core_native.Common.Texts.{lookup}
use breeze_core_native.Store.Devices.{DeviceRecord, DevicesDoc}
use breeze_core_native.Auth.Clock.{F64, finite, micros}
use breeze_core_native.Auth.Nonce.{NonceCache, timestamp_in_window, check_and_store}
use breeze_core_native.Auth.Nonce.Window.{
  IsValid, check_and_store-IsValid, check_and_store-accepts, check_and_store-stores,
  check_and_store-remembers, check_and_store_skew,
}
use breeze_core_native.Auth.Signing.{Crypto}
use breeze_core_native.Auth.Verify.{
  Presented, Authenticated, allow, Verifier, SignedHeaders, signed_headers, find_by_key_id,
  verify_v2, verify_device,
}
use breeze_core_native.Auth.Verify.Passed.{
  Passed, Passed-headers, verify_v2-allow, Touched, verify_device-Touched,
}

module _ (crypto : Crypto) (parse_f64 : String → Option F64) (verifier : Verifier) where
  -- One request to the server, with the enrolled devices and the clock at that moment.
  pub record Request : Type 0 where
    pub doc : DevicesDoc
    pub presented : Presented
    pub now : ℕ

  -- The nonce cache after requests served in order.
  pub serve : NonceCache → List Request → NonceCache
  serve nonces [] = nonces
  serve nonces (q ∷ rest) =
      serve (verify_device crypto parse_f64 verifier q.doc q.presented nonces q.now).0 rest

  -- The cache is sound, keeps the skew, and knows a nonce with its expiry.
  record Knows (nonce : String) (expiry skew : ℕ) (nonces : NonceCache) : Type 0 where
    valid : IsValid nonces
    same_skew : nonces.skew_seconds ≡ skew
    found : lookup nonce nonces.seen ≡ some expiry

  Touched-Knows :
      (nonce : String) (expiry skew now : ℕ) (nonces nonces' : NonceCache)
      → now ≤ expiry
      → Knows nonce expiry skew nonces
      → Touched crypto parse_f64 verifier nonces now nonces'
      → Knows nonce expiry skew nonces'
  Touched-Knows nonce expiry skew now nonces nonces' h k (inl e) = rw e k
  Touched-Knows nonce expiry skew now nonces nonces' h k (inr (other, e)) = rw e (record {
    valid = check_and_store-IsValid nonces other now k.valid;
    same_skew = check_and_store_skew nonces other now ∙ k.same_skew;
    found = check_and_store-remembers nonces nonce other expiry now k.valid k.found h;
  })

  serve-Knows :
      (nonce : String) (expiry skew : ℕ) (nonces : NonceCache) (history : List Request)
      → All (λ q. q.now ≤ expiry) history
      → Knows nonce expiry skew nonces
      → Knows nonce expiry skew (serve nonces history)
  unfolding serve
  serve-Knows nonce expiry skew nonces [] h k = k
  serve-Knows nonce expiry skew nonces (q ∷ rest) h k =
      serve-Knows nonce expiry skew
        (verify_device crypto parse_f64 verifier q.doc q.presented nonces q.now).0 rest h.1
        (Touched-Knows nonce expiry skew q.now nonces _ h.0 k
          (verify_device-Touched crypto parse_f64 verifier q.doc q.presented nonces q.now))

  Touched-skew :
      (now : ℕ) (nonces nonces' : NonceCache)
      → Touched crypto parse_f64 verifier nonces now nonces'
      → nonces'.skew_seconds ≡ nonces.skew_seconds
  Touched-skew now nonces nonces' (inl e) = ap (λ c. c.skew_seconds) e
  Touched-skew now nonces nonces' (inr (other, e)) =
      ap (λ c. c.skew_seconds) e ∙ check_and_store_skew nonces other now

  serve_skew :
      (nonces : NonceCache) (history : List Request)
      → (serve nonces history).skew_seconds ≡ nonces.skew_seconds
  unfolding serve
  serve_skew nonces [] = refl
  serve_skew nonces (q ∷ rest) =
      serve_skew (verify_device crypto parse_f64 verifier q.doc q.presented nonces q.now).0 rest
      ∙ Touched-skew q.now nonces _
          (verify_device-Touched crypto parse_f64 verifier q.doc q.presented nonces q.now)

  -- What `timestamp_in_window` says of a finite timestamp of the past or the future.
  window_ends :
      (nonces : NonceCache) (timestamp : String) (ts now : ℕ)
      → parse_f64 timestamp ≡ some (finite (pos ts))
      → timestamp_in_window parse_f64 nonces timestamp now ≡ true
      → (now ≤ ts + micros nonces.skew_seconds) × (ts ≤ now + micros nonces.skew_seconds)
  unfolding timestamp_in_window
  window_ends nonces timestamp ts now e h = ground arith

  window_holds :
      (nonces : NonceCache) (timestamp : String) (ts now : ℕ)
      → parse_f64 timestamp ≡ some (finite (pos ts))
      → now ≤ ts + micros nonces.skew_seconds
      → ts ≤ now + micros nonces.skew_seconds
      → timestamp_in_window parse_f64 nonces timestamp now ≡ true
  unfolding timestamp_in_window
  window_holds nonces timestamp ts now e lo hi = ground arith

  All-mono :
      (m n : ℕ) (history : List Request)
      → m ≤ n
      → All (λ q. q.now ≤ m) history
      → All (λ q. q.now ≤ n) history
  All-mono m n [] le h = tt
  All-mono m n (q ∷ rest) le h = (omega arith, All-mono m n rest le h.1)

  stored-Knows :
      (doc : DevicesDoc) (p : Presented) (nonces nonces' : NonceCache) (now : ℕ) (a : Authenticated)
      (h : SignedHeaders) (r : DeviceRecord)
      → IsValid nonces
      → Passed crypto parse_f64 verifier doc p nonces nonces' now a h r
      → Knows h.nonce (now + micros nonces.skew_seconds) nonces.skew_seconds nonces'
  stored-Knows doc p nonces nonces' now a h r v passed = rw passed.spent (record {
    valid = check_and_store-IsValid nonces h.nonce now v;
    same_skew = check_and_store_skew nonces h.nonce now;
    found = check_and_store-stores nonces h.nonce now passed.fresh;
  })

  -- A v2 request that was allowed once, and whose timestamp was not ahead of the server's clock, is
  -- never allowed again: at no later time, whatever requests were served in between (none of them
  -- later than the replay), and whatever became of the enrolled devices.
  pub replay_refused :
      (doc doc' : DevicesDoc) (p : Presented) (h : SignedHeaders)
      (nonces nonces' nonces'' : NonceCache) (now later ts : ℕ) (a a' : Authenticated)
      (history : List Request)
      → IsValid nonces
      → signed_headers p ≡ some h
      → parse_f64 h.timestamp ≡ some (finite (pos ts))
      → ts ≤ now
      → verify_v2 crypto parse_f64 verifier doc p nonces now ≡ (nonces', allow a)
      → All (λ q. q.now ≤ later) history
      → verify_v2 crypto parse_f64 verifier doc' p (serve nonces' history) later
        ≢ (nonces'', allow a')
  replay_refused doc doc' p h nonces nonces' nonces'' now later ts a a' history v eh et ht first
        times again =
      let (r, passed) =
        Passed-headers crypto parse_f64 verifier doc p h nonces nonces' now a eh first in
      let (r', passed') =
        Passed-headers crypto parse_f64 verifier doc' p h (serve nonces' history) nonces'' later a'
          eh again in
      let (lo, hi) =
        window_ends (serve nonces' history) h.timestamp ts later et passed'.in_window in
      let stored = stored-Knows doc p nonces nonces' now a h r v passed in
      let soon : later ≤ now + micros nonces.skew_seconds =
        ground (arith, serve_skew nonces' history, stored.same_skew) in
      let known =
        serve-Knows h.nonce (now + micros nonces.skew_seconds) nonces.skew_seconds nonces' history
          (All-mono later (now + micros nonces.skew_seconds) history soon times) stored in
      ground (
        arith,
        known.found,
        passed'.fresh,
        check_and_store-accepts (serve nonces' history) h.nonce later known.valid,
      )

  -- A v2 request that was allowed once, and whose timestamp was ahead of the server's clock, is
  -- allowed a second time when it is sent again unchanged after the nonce has been forgotten (the
  -- skew after its first use) while its timestamp is still in the window, where the key id still
  -- names the same record.
  pub replay_allowed :
      (doc : DevicesDoc) (p : Presented) (h : SignedHeaders) (nonces nonces' : NonceCache)
      (now later ts : ℕ) (a : Authenticated)
      → IsValid nonces
      → signed_headers p ≡ some h
      → parse_f64 h.timestamp ≡ some (finite (pos ts))
      → now + micros nonces.skew_seconds < later
      → later ≤ ts + micros nonces.skew_seconds
      → find_by_key_id doc h.key_id later ≡ find_by_key_id doc h.key_id now
      → verify_v2 crypto parse_f64 verifier doc p nonces now ≡ (nonces', allow a)
      → (verify_v2 crypto parse_f64 verifier doc p nonces' later).1 ≡ allow a
  replay_allowed doc p h nonces nonces' now later ts a v eh et past still same first =
      let (r, passed) =
        Passed-headers crypto parse_f64 verifier doc p h nonces nonces' now a eh first in
      let stored = stored-Knows doc p nonces nonces' now a h r v passed in
      let (lo, hi) = window_ends nonces h.timestamp ts now et passed.in_window in
      let in_window : timestamp_in_window parse_f64 nonces' h.timestamp later ≡ true =
        window_holds nonces' h.timestamp ts later et (ground (arith, stored.same_skew))
          (ground (arith, stored.same_skew)) in
      ap (λ t. t.1)
        (verify_v2-allow crypto parse_f64 verifier doc p nonces'
          (check_and_store nonces' h.nonce later).0 later a h r
          (record {
            complete = eh;
            known = same ∙ passed.known;
            current = passed.current;
            in_window = in_window;
            signed = passed.signed;
            fresh =
                ground
                  (arith, stored.found, check_and_store-accepts nonces' h.nonce later stored.valid);
            spent = refl;
            same_id = passed.same_id;
            same_version = passed.same_version;
          }))
