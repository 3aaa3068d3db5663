-- ===== src/Http/Timers.antt =====
-- crates/breeze-http/src/timer_routes.rs: which timer a request asks for, its storing, and the pass
-- that fires what is due. The locks, the responses and the log are left out; whether the file
-- could be written is an argument, and so are the known units and what a unit answers.
pub mod Stored
pub mod Fired
use breeze_core_native.Common.{
  ℕ, ◌+◌, Bool, true, false, not, ◌&&◌, Option, none, some, String, List, [], ◌∷◌, ◌++◌, map,
  if◌then◌else◌, ◌==◌, length, Outcome, ok, err,
}
use breeze_core_native.Common.Texts.{str_eq}
use breeze_core_native.Store.Control.{ControlRequest}
use breeze_core_native.Store.Timers.{
  LocalTime, Timer, TimersDoc, TimerKind, sleep, start, TimerError, build_timer, build_start_timer,
  replace_for_units, remove, due, missed,
}

pub record TimerRequest : Type 0 where
  pub unit_ids : List String
  pub minutes : Option ℕ
  pub days : Option ℕ
  pub at : Option String
  pub settings : Option ControlRequest
  pub label : String

pub data When : Type 0 where
  in_minutes : ℕ → When
  at_time : ℕ → String → When

abbrev pub when_of :
    Option ℕ → Option ℕ → Option String → Option ControlRequest → Outcome String When
when_of (some m) days (some at) settings = err "give minutes or at, not both"
when_of none (some d) none settings = err "days needs at (an HH:MM)"
when_of none none none settings = err "say when: minutes, or at (with days)"
when_of (some m) (some d) none settings = err "days goes with at, not with minutes"
when_of (some m) none none settings = ok (in_minutes m)
when_of none days (some at) (some s) =
    err "a scheduled start only switches the unit on; settings are for sleep timers"
when_of none (some d) (some at) none = ok (at_time d at)
when_of none none (some at) none = ok (at_time 0 at)

unfoldable pub when_asked : TimerRequest → Outcome String When
when_asked r = when_of r.minutes r.days r.at r.settings

-- The kinds that a listing includes, or the word that names none.
unfoldable pub listed_kinds : Option String → Outcome String (List TimerKind)
listed_kinds none = ok (sleep ∷ [])
listed_kinds (some kind) =
    if str_eq kind "sleep"
    then ok (sleep ∷ [])
    else if str_eq kind "start"
    then ok (start ∷ [])
    else if str_eq kind "all"
    then ok (sleep ∷ start ∷ [])
    else err kind

module _ (local : LocalTime) where
  -- The timer that a request builds, under its id.
  unfoldable pub built : TimerRequest → When → String → ℕ → Outcome TimerError Timer
  built r (in_minutes m) id now = build_timer local id r.unit_ids m r.settings r.label now
  built r (at_time days at) id now = build_start_timer local id r.unit_ids days at r.label now

-- Storing a timer that was built, with the roll back if the file could not be written: the
-- document that the server holds then, and whether the timer was accepted.
unfoldable pub create : TimersDoc → TimerRequest → Timer → Bool → TimersDoc × Bool
create doc request timer saved =
    let replaced = (replace_for_units doc request.unit_ids timer.kind).0 in
    let added : TimersDoc = record { timers = replaced.timers ++ (timer ∷ []) } in
    if saved then (added, true) else ((remove added timer.id).0, false)

unfoldable pub cancel : TimersDoc → String → TimersDoc × Bool
cancel doc timer_id = remove doc timer_id

-- A command given to a unit.
abbrev pub Dispatch : Type 0
Dispatch = ℕ × ControlRequest

abbrev parsed : (String → Option ℕ) → List String → List ℕ
parsed parse_u64 [] = []
parsed parse_u64 (s ∷ ss) =
    let rest = parsed parse_u64 ss in elim (parse_u64 s) [ none ↦ rest | some n ↦ n ∷ rest ]

module _ (local : LocalTime) (parse_u64 : String → Option ℕ) where
  unfoldable pub targets : List ℕ → Timer → List ℕ
  targets known timer =
      if length timer.unit_ids == 0 then known else parsed parse_u64 timer.unit_ids

  -- What is sent for the due timers, in order.
  unfoldable pub dispatches : List ℕ → ℕ → List Timer → List Dispatch
  unfolding targets
  dispatches known now [] = []
  dispatches known now (t ∷ ts) =
      let rest = dispatches known now ts in
      if missed local t now
      then rest
      else map (λ unit. (unit, t.settings)) (targets known t) ++ rest

  abbrev pub remove_all : List Timer → TimersDoc → TimersDoc
  remove_all [] doc = doc
  remove_all (t ∷ ts) doc = remove_all ts (remove doc t.id).0

  -- One pass: the document after it and the commands it sends.
  unfoldable pub run_once : TimersDoc → List ℕ → ℕ → TimersDoc × List Dispatch
  run_once doc known now =
      let now_due = due local doc now in (remove_all now_due doc, dispatches known now now_due)
