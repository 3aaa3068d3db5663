-- ===== src/Auth/Enroll/Deliver.antt =====
-- How `poll` of crates/breeze-auth/src/enroll.rs hands a credential over.
use breeze_core_native.Common.{
  ℕ, ◌≤◌, ◌<◌, ◌≡◌, ◌⊎◌, true, Option, none, some, String, List, [], ◌∷◌, arith, leb, inl, inr,
  Bool-cases, leb→le,
}
use breeze_core_native.Common.Texts.{str_eq_refl, lookup, IsUnique, lookup-remove}
use breeze_core_native.Store.Devices.{DeviceRecord}
use breeze_core_native.Auth.Signing.{Crypto}
use breeze_core_native.Auth.Enroll.{
  Session, EnrollmentService, code_hash_of, approved, unknown, sweep, approve, poll, Random,
}
use breeze_core_native.Auth.Enroll.Matching.{Waits}
use breeze_core_native.Auth.Enroll.Sessions.{sweep-lookup, sweep-gone, poll-gone}
use breeze_core_native.Auth.Enroll.Approve.{approve_sound, approve-gone, IsCredential}

module _ (crypto : Crypto) (b64url : List ℕ → String) (trim : String → String) where
  -- A call of the service after a session was opened: an approval with its random bytes, or a poll.
  pub data Call : Type 0 where
    approves : String → ℕ → Random → Random → Call
    polls : String → ℕ → Call

  pub step : EnrollmentService → Call → EnrollmentService
  step service (approves code now id_random token_random) =
      (approve crypto b64url trim service code now id_random token_random).0
  step service (polls id now) = (poll service id now).0

  pub run : EnrollmentService → List Call → EnrollmentService
  run service [] = service
  run service (c ∷ calls) = run (step service c) calls

  run-gone :
      (service : EnrollmentService) (id : String) (calls : List Call)
      → lookup id service.sessions ≡ none
      → lookup id (run service calls).sessions ≡ none
  unfolding run step
  run-gone service id [] e = e
  run-gone service id (approves code now r r' ∷ calls) e =
      run-gone (approve crypto b64url trim service code now r r').0 id calls
        (approve-gone crypto b64url trim service code id now r r' e)
  run-gone service id (polls other now ∷ calls) e =
      run-gone (poll service other now).0 id calls (poll-gone service other id now e)

  -- A poll that answers `approved` hands the credential over for good: whatever approvals and polls
  -- follow, a later poll of that session answers `unknown`, with no token and no record.
  pub poll-once :
      (service : EnrollmentService) (id : String) (now later : ℕ) (calls : List Call)
      → (poll service id now).1.status ≡ approved
      → (poll (run (poll service id now).0 calls) id later).1
        ≡ record { status = unknown; device_token = none; minted = none }
  unfolding poll
  poll-once service id now later calls e = ground (
    arith,
    run-gone (poll service id now).0 id calls (
        unfold poll in
        ground (arith, lookup-remove id id (sweep service now).sessions, str_eq_refl id)),
    sweep-gone (run (poll service id now).0 calls) later id,
  )

  -- After an approval that succeeded, there is a session that the service held, pending, unexpired and
  -- with the hash of the code, and a poll of it answers `approved`, with the minted record and the
  -- bearer token if the scheme has one, unless that session has expired by then.
  pub approve-poll :
      (service service' : EnrollmentService) (code : String) (now later : ℕ)
      (id_random token_random : Random) (r : DeviceRecord)
      → IsUnique service.sessions
      → approve crypto b64url trim service code now id_random token_random ≡ (service', some r)
      → (id : String) × (s : Session) × (token : Option String) × (lookup id service.sessions
          ≡ some s)
        × Waits (code_hash_of crypto b64url trim code) s
        × (now ≤ s.expires_at)
        × IsCredential crypto s r token
        × ((s.expires_at < later)
            ⊎ ((poll service' id later).1
                ≡ record { status = approved; device_token = token; minted = some r }))
  unfolding poll
  approve-poll service service' code now later id_random token_random r u e =
      let (id, s, token, held, waits, live, label, credential, unique, there) =
        approve_sound crypto b64url trim service service' code now id_random token_random r u e in
      (
        id,
        s,
        token,
        held,
        waits,
        live,
        credential,
        elim (Bool-cases (leb later s.expires_at)) [
          | inl h ↦ inr (
              ground (
                arith,
                sweep-lookup service' later id
                    (record s { approved = true; token = token; minted = some r }) unique there
                    (leb→le later s.expires_at h),
              ))
          | inr h ↦ inl (ground arith)
        ],
      )
