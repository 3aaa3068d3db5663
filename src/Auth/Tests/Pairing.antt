-- ===== src/Auth/Tests/Pairing.antt =====
-- A pairing from `start` to the poll that hands the credential over.
use mathlib.Core.List.{flat_map}
use breeze_core_native.Common.{
  ℕ, ◌≤◌, ◌<◌, ◌≡◌, ◌⊎◌, refl, true, false, Option, some, none, List, [], ◌∷◌, String, arith,
  replicate, ok,
}
use breeze_core_native.Common.Texts.{str_eq→eq, lookup, insert, retain_values, IsUnique, remove}
use breeze_core_native.Store.Devices.{DeviceRecord}
use breeze_core_native.Auth.Signing.{hex}
use breeze_core_native.Auth.Verify.{hash_secret}
use breeze_core_native.Auth.Enroll.{
  Session, approved, unknown, EnrollmentService, new, sweep, matching, normalize_code, code_hash_of,
  mint, pairing_code, start, approve, poll, token_ttl_days,
}
use breeze_core_native.Auth.Enroll.Matching.{Waits}
use breeze_core_native.Auth.Enroll.Approve.{IsCredential, approve_sound, approve_complete}
use breeze_core_native.Auth.Enroll.Deliver.{approves, polls, run, poll-once, approve-poll}
use breeze_core_native.Auth.Tests.{crypto}

-- Stand-ins for the base64url encoder and for `trim`.
abbrev b64url : List ℕ → String
b64url bytes = "id"

abbrev trim : String → String
trim text = text

pairing_code_test : pairing_code (replicate 5 0) ≡ "AAAA-AAAA"
unfolding pairing_code
pairing_code_test = refl

abbrev waiting : Session
waiting = record {
  code_hash = "4141414141414141";
  label = "phone";
  expires_at = 60_000_007;
  auth_version = 1;
  public_key = none;
  approved = false;
  token = none;
  minted = none;
}

abbrev opened : EnrollmentService
opened = record (new 60 token_ttl_days) { sessions = ("id", waiting) ∷ [] }

start_test :
    start crypto b64url trim
      (new 60 token_ttl_days)
      "phone"
      1
      none
      7
      (some [])
      (some (replicate 5 0))
    ≡ (opened, ok ("id", "AAAA-AAAA", 60))
unfolding start sweep retain_values insert remove pairing_code code_hash_of normalize_code
    hash_secret hex flat_map
start_test = refl

abbrev credential : DeviceRecord
credential = record {
  token_id = "0102";
  label = "phone";
  auth_version = 1;
  token_hash = some "6964";
  public_key = none;
  created_at = 9;
  expires_at = some 315_360_000_000_009;
  last_used = none;
}

abbrev minted : EnrollmentService
minted = record opened {
  sessions =
      ("id", record waiting { approved = true; token = some "id"; minted = some credential }) ∷ [];
}

-- The code is typed without its dash.
approve_test :
    approve crypto b64url trim opened "AAAAAAAA" 9 (some (1 ∷ 2 ∷ [])) (some [])
    ≡ (minted, some credential)
unfolding approve mint sweep retain_values matching lookup insert remove code_hash_of normalize_code
    hash_secret hex flat_map
approve_test = refl

opened-IsUnique : IsUnique opened.sessions
unfolding lookup
opened-IsUnique = (refl, tt)

approve_sound_example :
    (id : String) × (s : Session) × (token : Option String) × (lookup id opened.sessions ≡ some s)
    × Waits (code_hash_of crypto b64url trim "AAAAAAAA") s
    × (9 ≤ s.expires_at)
    × (◌≡◌ {A = String} "phone" s.label)
    × IsCredential crypto s credential token
    × IsUnique minted.sessions
    × (lookup id minted.sessions
        ≡ some (record s { approved = true; token = token; minted = some credential }))
approve_sound_example =
    approve_sound crypto b64url trim opened minted "AAAAAAAA" 9 (some (1 ∷ 2 ∷ [])) (some [])
      credential opened-IsUnique approve_test

only_waiting :
    (id : String) (s : Session)
    → lookup id opened.sessions ≡ some s
    → Waits (code_hash_of crypto b64url trim "AAAAAAAA") s
    → id ≡ "id"
unfolding lookup
only_waiting id s e waits = ground (arith, str_eq→eq "id" id)

approve_complete_example :
    (r : DeviceRecord) × (token : Option String) × ((approve crypto b64url trim opened "AAAAAAAA" 9
        (some (1 ∷ 2 ∷ []))
        (some [])).1
      ≡ some r)
    × IsCredential crypto waiting r token
    × (lookup "id"
          (approve crypto b64url trim opened "AAAAAAAA" 9 (some (1 ∷ 2 ∷ [])) (some [])).0.sessions
        ≡ some (record waiting { approved = true; token = token; minted = some r }))
unfolding lookup code_hash_of normalize_code hash_secret hex flat_map
approve_complete_example =
    approve_complete crypto b64url trim opened "AAAAAAAA" "id" 9 (1 ∷ 2 ∷ []) [] waiting
      opened-IsUnique refl (refl, refl) (omega arith) only_waiting

approve-poll_example :
    (id : String) × (s : Session) × (token : Option String) × (lookup id opened.sessions ≡ some s)
    × Waits (code_hash_of crypto b64url trim "AAAAAAAA") s
    × (9 ≤ s.expires_at)
    × IsCredential crypto s credential token
    × ((s.expires_at < 20)
        ⊎ ((poll minted id 20).1
            ≡ record { status = approved; device_token = token; minted = some credential }))
approve-poll_example =
    approve-poll crypto b64url trim opened minted "AAAAAAAA" 9 20 (some (1 ∷ 2 ∷ [])) (some [])
      credential opened-IsUnique approve_test

poll_test : (poll minted "id" 10).1.status ≡ approved
unfolding poll sweep retain_values lookup
poll_test = refl

poll-once_example :
    (poll
      (run crypto b64url trim
        (poll minted "id" 10).0
        (approves "AAAAAAAA" 11 none none ∷ polls "id" 12 ∷ []))
      "id"
      13).1
    ≡ record { status = unknown; device_token = none; minted = none }
poll-once_example =
    poll-once crypto b64url trim minted "id" 10 13
      (approves "AAAAAAAA" 11 none none ∷ polls "id" 12 ∷ []) poll_test
