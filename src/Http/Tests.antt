-- ===== src/Http/Tests.antt =====
-- The timer routes on concrete timers.
pub mod Requests
use breeze_core_native.Common.{
  ℕ, ◌+◌, ◌*◌, ◌≤◌, ◌≡◌, ◌⊎◌, inl, refl, true, false, not, Option, some, none, [], ◌∷◌, String,
  retain,
}
use breeze_core_native.Store.Control.{power_off}
use breeze_core_native.Store.Timers.{
  LocalTime, Timer, TimersDoc, sleep, start, kind_eq, second, replace_for_units, remove, due,
  is_due, seconds_remaining, missed,
}
use breeze_core_native.Store.Timers.Kinds.{promises}
use breeze_core_native.Http.Timers.{TimerRequest, create, dispatches, run_once}
use breeze_core_native.Http.Timers.Stored.{
  create-one_promise, create-other_promises, create-every_unit, create-failed,
}
use breeze_core_native.Http.Timers.Fired.{named_by, run_once-drains, run_once-missed}

abbrev bedtime : Timer
bedtime = record {
  id = "t1";
  unit_ids = "7" ∷ [];
  minutes = 30;
  created_at = "0";
  fires_at = "1800";
  settings = power_off;
  label = "";
  kind = sleep;
}

abbrev later_bedtime : Timer
later_bedtime = record bedtime { id = "t2"; minutes = 60; fires_at = "3600" }

abbrev everywhere : Timer
everywhere = record later_bedtime { unit_ids = [] }

abbrev doc : TimersDoc
doc = record { timers = bedtime ∷ [] }

abbrev request : TimerRequest
request = record {
  unit_ids = "7" ∷ [];
  minutes = some 60;
  days = none;
  at = none;
  settings = none;
  label = "";
}

create-one_promise_example : promises sleep "7" (create doc request later_bedtime true).0.timers ≡ 1
create-one_promise_example = create-one_promise doc request later_bedtime "7" refl refl

create-failed_example :
    create doc request later_bedtime false
    ≡ ((replace_for_units doc request.unit_ids sleep).0, false)
create-failed_example = create-failed doc request later_bedtime (refl, tt)

-- The timer that was there is lost, though the file still has it.
create-failed_test : (create doc request later_bedtime false).0.timers ≡ []
unfolding create replace_for_units remove
create-failed_test = refl

-- A stand-in for chrono that reads each text as half an hour after the first midnight.
abbrev local : LocalTime
local = record { format = λ t. ""; parse_from_str = λ text. some (1800 * second) }

abbrev parse_u64 : String → Option ℕ
parse_u64 text = some 7

run_once_test : (run_once local parse_u64 doc (7 ∷ []) (1800 * second)).1 ≡ (7, power_off) ∷ []
unfolding run_once due dispatches is_due seconds_remaining missed
run_once_test = refl

run_once-drains_example :
    (due local (run_once local parse_u64 doc (7 ∷ []) (1800 * second)).0 (1800 * second) ≡ [])
    × ((run_once local parse_u64 doc (7 ∷ []) (1800 * second)).0.timers
        ≡ retain (λ t. not (named_by (due local doc (1800 * second)) t)) doc.timers)
run_once-drains_example = run_once-drains local parse_u64 doc (7 ∷ []) (1800 * second)
