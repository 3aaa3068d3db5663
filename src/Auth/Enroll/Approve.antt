-- ===== src/Auth/Enroll/Approve.antt =====
-- What `approve` of crates/breeze-auth/src/enroll.rs takes and gives.
use mathlib.Core.Path.{subst}
use text.Mathlib.TextEquality.{eq_iff}
use breeze_core_native.Common.{
  ℕ, ◌≤◌, ◌≡◌, ◌≢◌, ◌⊎◌, refl, ap, true, Option, none, some, String, List, arith, Option-cases, inl,
  inr, Bool-cases, ◌==◌,
}
use breeze_core_native.Common.Texts.{
  str_eq_refl, codes, lookup, insert, IsUnique, lookup-insert, insert-IsUnique,
}
use breeze_core_native.Store.Devices.{DeviceRecord}
use breeze_core_native.Auth.Signing.{Crypto}
use breeze_core_native.Auth.Verify.{hash_secret}
use breeze_core_native.Auth.Enroll.{
  Session, EnrollmentService, sweep, matching, finish, code_hash_of, credential_expiry, mint,
  approve, Random,
}
use breeze_core_native.Auth.Enroll.Sessions.{sweep-IsUnique, sweep-lookup, lookup-sweep, sweep-gone}
use breeze_core_native.Auth.Enroll.Matching.{Waits, matching_sound, matching_complete, found-Waits}

-- What a credential minted for a session consists of: for a v2 session the public key it came with
-- and no secret; for any other a bearer token, of which the record holds the hash.
abbrev pub IsCredential : Crypto → Session → DeviceRecord → Option String → Type 0
IsCredential crypto s r token =
    ((s.auth_version ≡ 2)
      × (r.auth_version ≡ 2)
      × (r.token_hash ≡ none)
      × (r.public_key ≡ s.public_key)
      × (token ≡ none))
    ⊎ ((s.auth_version ≢ 2)
        × (r.auth_version ≡ 1)
        × (r.public_key ≡ none)
        × (t : String) × (token ≡ some t)
        × (r.token_hash ≡ some (hash_secret crypto (codes t))))

finish-gone :
    (service : EnrollmentService) (other id : String) (s : Session)
    (minted : Option (DeviceRecord × Option String))
    → lookup id service.sessions ≡ none
    → lookup other service.sessions ≡ some s
    → lookup id (finish service other s minted).0.sessions ≡ none
finish-gone service other id s none e h = e
finish-gone service other id s (some (r, token)) e h = ground (
  arith,
  eq_iff other id,
  lookup-insert other id (record s { approved = true; token = token; minted = some r })
      service.sessions,
)

module _ (crypto : Crypto) (b64url : List ℕ → String) (trim : String → String) where
  -- What an approval has used: the session it found after the sweep, and what was minted for it.
  record Approved (service service' : EnrollmentService) (code : String) (now : ℕ)
      (token_random : Random) (r : DeviceRecord) (id : String) (s : Session) (id_bytes : List ℕ)
      (token : Option String) : Type 0 where
    chosen :
        matching (code_hash_of crypto b64url trim code) (sweep service now).sessions none ≡ some id
    held : lookup id (sweep service now).sessions ≡ some s
    minted_for :
        mint crypto b64url trim s id_bytes token_random
          (credential_expiry (sweep service now).ttl_days now)
          now
        ≡ some (r, token)
    result :
        service'.sessions
        ≡ insert id
            (record s { approved = true; token = token; minted = some r })
            (sweep service now).sessions

  approve-Approved :
      (service service' : EnrollmentService) (code : String) (now : ℕ)
      (id_random token_random : Random) (r : DeviceRecord)
      → approve crypto b64url trim service code now id_random token_random ≡ (service', some r)
      → (id : String) × (s : Session) × (id_bytes : List ℕ) × (token : Option String) × Approved
          service service' code now token_random r id s id_bytes token
  unfolding approve
  approve-Approved service service' code now id_random token_random r e =
      elim (Option-cases
        (matching (code_hash_of crypto b64url trim code) (sweep service now).sessions none)) [
          | inl no_match ↦ absurd (ground arith)
          | inr (id, chosen) ↦ elim (Option-cases (lookup id (sweep service now).sessions)) [
            | inl gone ↦ absurd (ground arith)
            | inr (s, held) ↦ elim (Option-cases id_random) [
              | inl no_bytes ↦ absurd (ground arith)
              | inr (id_bytes, given) ↦
                  elim (Option-cases (
                    mint crypto b64url trim s id_bytes token_random
                      (credential_expiry (sweep service now).ttl_days now) now)) [
                        | inl failed ↦ absurd (ground arith)
                        | inr ((r', token), done) ↦ (
                          id,
                          s,
                          id_bytes,
                          token,
                          record {
                            chosen = chosen;
                            held = held;
                            minted_for = ground arith;
                            result = ground arith;
                          },
                        )
                      ]
            ]
          ]
        ]

  mint-IsCredential :
      (s : Session) (id_bytes : List ℕ) (token_random : Random) (expires_at : Option ℕ) (now : ℕ)
      (r : DeviceRecord) (token : Option String)
      → mint crypto b64url trim s id_bytes token_random expires_at now ≡ some (r, token)
      → (r.label ≡ s.label) × IsCredential crypto s r token
  unfolding mint
  mint-IsCredential s id_bytes none expires_at now r token e = (ground arith, inl (ground arith))
  mint-IsCredential s id_bytes (some bytes) expires_at now r token e =
      elim (Bool-cases (s.auth_version == 2)) [
        | inl two ↦ (ground arith, inl (ground arith))
        | inr other ↦ (
          ground arith,
          inr (ground arith, ground arith, ground arith, b64url bytes, ground arith, ground arith),
        )
      ]

  -- An approval that succeeds has used a session that was pending, had not expired and carries the
  -- hash of the given code; it mints the credential for that session's scheme under its label, and
  -- leaves that session approved with the credential in it.
  pub approve_sound :
      (service service' : EnrollmentService) (code : String) (now : ℕ)
      (id_random token_random : Random) (r : DeviceRecord)
      → IsUnique service.sessions
      → approve crypto b64url trim service code now id_random token_random ≡ (service', some r)
      → (id : String) × (s : Session) × (token : Option String) × (lookup id service.sessions
          ≡ some s)
        × Waits (code_hash_of crypto b64url trim code) s
        × (now ≤ s.expires_at)
        × (r.label ≡ s.label)
        × IsCredential crypto s r token
        × IsUnique service'.sessions
        × (lookup id service'.sessions
            ≡ some (record s { approved = true; token = token; minted = some r }))
  approve_sound service service' code now id_random token_random r u e =
      let (id, s, id_bytes, token, a) =
        approve-Approved service service' code now id_random token_random r e in
      let swept = (sweep service now).sessions in
      let swept_unique = sweep-IsUnique service now u in
      let (held, live) = lookup-sweep service now id s u a.held in
      let (label, credential) =
        mint-IsCredential s id_bytes token_random _ now r token a.minted_for in
      let waits : Waits (code_hash_of crypto b64url trim code) s =
        found-Waits id s _ swept
          (matching_sound (code_hash_of crypto b64url trim code) swept none id swept_unique
            a.chosen)
          a.held in
      (
        id,
        s,
        token,
        held,
        waits,
        live,
        label,
        credential,
        rw a.result (insert-IsUnique id _ swept swept_unique),
        rw (a.result, lookup-insert, str_eq_refl) refl,
      )

  -- Some session is approved, if one waits for the code.
  approve_mints :
      (service : EnrollmentService) (code id : String) (now : ℕ) (id_bytes token_bytes : List ℕ)
      (s : Session)
      → IsUnique service.sessions
      → lookup id service.sessions ≡ some s
      → Waits (code_hash_of crypto b64url trim code) s
      → now ≤ s.expires_at
      → (approve crypto b64url trim service code now (some id_bytes) (some token_bytes)).1 ≢ none
  unfolding approve mint
  approve_mints service code id now id_bytes token_bytes s u held waits live =
      let target = code_hash_of crypto b64url trim code in
      let swept = (sweep service now).sessions in
      let there = sweep-lookup service now id s u held live in
      elim (Option-cases (matching target swept none)) [
        | inl nothing ↦
            absurd (matching_complete target swept none id s (inl (there, waits)) nothing)
        | inr (id', chosen) ↦
            elim (matching_sound target swept none id' (sweep-IsUnique service now u) chosen) [
              | inl e ↦ absurd (ground arith)
              | inr (s', held', waits') ↦ λ e. ground arith
            ]
      ]

  -- A pending session that has not expired is approved by its code when the random generator answers
  -- and no other pending session has the same code: a credential is minted for its scheme, and it
  -- stands in the service as approved, with the credential and its token.
  pub approve_complete :
      (service : EnrollmentService) (code id : String) (now : ℕ) (id_bytes token_bytes : List ℕ)
      (s : Session)
      → IsUnique service.sessions
      → lookup id service.sessions ≡ some s
      → Waits (code_hash_of crypto b64url trim code) s
      → now ≤ s.expires_at
      → ((id' : String) (s' : Session)
          → lookup id' service.sessions ≡ some s'
          → Waits (code_hash_of crypto b64url trim code) s'
          → id' ≡ id)
      → (r : DeviceRecord) × (token : Option String) × ((approve crypto b64url trim service code now
            (some id_bytes)
            (some token_bytes)).1
          ≡ some r)
        × IsCredential crypto s r token
        × (lookup id
              (approve crypto b64url trim service code now
                (some id_bytes)
                (some token_bytes)).0.sessions
            ≡ some (record s { approved = true; token = token; minted = some r }))
  approve_complete service code id now id_bytes token_bytes s u held waits live only =
      elim (Option-cases
        (approve crypto b64url trim service code now (some id_bytes) (some token_bytes)).1) [
          | inl nothing ↦
              absurd
                (approve_mints service code id now id_bytes token_bytes s u held waits live nothing)
          | inr (r, e) ↦
              let (id', s', token, held', waits', live', label, credential, unique, there) =
                approve_sound service
                  (approve crypto b64url trim service code now (some id_bytes) (some token_bytes)).0
                  code now (some id_bytes) (some token_bytes) r u
                  (ap
                    (λ o. (
                      (approve crypto b64url trim service code now (some id_bytes)
                          (some token_bytes)).0,
                      o,
                    ))
                    e) in
              let same : id' ≡ id = only id' s' held' waits' in
              let same_session : s' ≡ s = cc in
              (r, token, e, subst (λ t. IsCredential crypto t r token) same_session credential, cc)
        ]

  pub approve-gone :
      (service : EnrollmentService) (code id : String) (now : ℕ) (id_random token_random : Random)
      → lookup id service.sessions ≡ none
      → lookup id (approve crypto b64url trim service code now id_random token_random).0.sessions
        ≡ none
  unfolding approve
  approve-gone service code id now id_random token_random e =
      let gone = sweep-gone service now id e in
      elim (Option-cases
        (matching (code_hash_of crypto b64url trim code) (sweep service now).sessions none)) [
          | inl no_match ↦ ground arith
          | inr (other, chosen) ↦ elim (Option-cases (lookup other (sweep service now).sessions)) [
            | inl missing ↦ ground arith
            | inr (s, held) ↦ elim (Option-cases id_random) [
              | inl no_bytes ↦ ground arith
              | inr (id_bytes, given) ↦ ground (
                arith,
                finish-gone (sweep service now) other id s
                    (mint crypto b64url trim s id_bytes token_random
                      (credential_expiry (sweep service now).ttl_days now) now)
                    gone held,
              )
            ]
          ]
        ]
