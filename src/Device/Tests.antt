-- ===== src/Device/Tests.antt =====
-- The control queue of crates/breeze-device on concrete requests.
pub mod Sessions
pub mod Connections
use breeze_core_native.Common.{
  ◌≤◌, ◌≡◌, ◌≢◌, refl, true, false, some, none, [], ◌∷◌, inl, String, ◌++◌, length,
}
use breeze_core_native.Common.Numbered.{lookup, insert, remove}
use breeze_core_native.Proto.Ac.Types.{heat, cool, off}
use breeze_core_native.Proto.Ac.Command.{Setpoint}
use breeze_core_native.Device.Change.{
  Change, no_change, take_later, merge, apply_to-merge, set_or_keep, merge_all, apply_to,
}
use breeze_core_native.Device.Control.{
  Answer, ControlQueue, join, collect, take_batch, record_outcome, shared,
}
use breeze_core_native.Device.Control.Interleaved.{
  System, start, free, checking, taking, sending, joins, acquires, misses, takes, finishes,
  collects, Reachable, at_start, after_step,
}
use breeze_core_native.Device.Control.Promise.{
  IsToldOf, take_batch-never_lost, sending-merged, collect-own_batch, queue-drained,
}

abbrev warm : Change
warm = record no_change { target_temperature = some 240; beep = some true }

abbrev heating : Change
heating = record no_change { mode = some heat; target_temperature = some 230 }

merge_test :
    merge warm heating
    ≡ record no_change { mode = some heat; target_temperature = some 230; beep = some true }
unfolding merge take_later
merge_test = refl

abbrev both : Change
both = merge (merge no_change warm) heating

-- Two requests join, the first to reach the unit sends for both and fails, the other collects.
abbrev start' : System String
start' = start

abbrev one_joined : System String
one_joined = record start' {
  queue = (join start'.queue warm).0;
  waiting = (join start'.queue warm).1 ∷ start'.waiting;
  joined = start'.joined ++ (warm ∷ []);
}

abbrev two_joined : System String
two_joined = record one_joined {
  queue = (join one_joined.queue heating).0;
  waiting = (join one_joined.queue heating).1 ∷ one_joined.waiting;
  joined = one_joined.joined ++ (heating ∷ []);
}

two_joined-Reachable : Reachable two_joined
two_joined-Reachable = after_step (after_step at_start (joins warm)) (joins heating)

abbrev first_checks : System String
first_checks = record two_joined { waiting = 0 ∷ []; holder = checking 0 }

first_checks-Reachable : Reachable first_checks
unfolding join
first_checks-Reachable = after_step two_joined-Reachable (acquires [] (0 ∷ []) 0 refl refl)

abbrev first_takes : System String
first_takes = record first_checks { queue = (collect first_checks.queue 0).0; holder = taking 0 }

first_takes-Reachable : Reachable first_takes
unfolding join collect lookup
first_takes-Reachable = after_step first_checks-Reachable (misses 0 refl refl)

abbrev emptied : ControlQueue String
emptied = record { pending = no_change; pending_count = 0; next_batch = 1; done = [] }

abbrev first_sends : System String
first_sends = record first_takes {
  queue = emptied;
  holder = sending 0 both 2;
  joined = [];
  carried = warm ∷ heating ∷ [];
}

first_sends-Reachable : Reachable first_sends
unfolding join collect lookup take_batch
first_sends-Reachable = after_step first_takes-Reachable (takes 0 emptied both 2 refl refl)

abbrev timed_out : Answer String
timed_out = inl "timed out"

abbrev first_done : System String
first_done = record first_sends {
  queue = record_outcome first_sends.queue 0 2 timed_out;
  holder = free;
  results = (0, timed_out) ∷ [];
}

first_done-Reachable : Reachable first_done
unfolding join collect lookup take_batch
first_done-Reachable = after_step first_sends-Reachable (finishes 0 both 2 timed_out refl)

abbrev second_checks : System String
second_checks = record first_done { waiting = []; holder = checking 0 }

second_checks-Reachable : Reachable second_checks
second_checks-Reachable = after_step first_done-Reachable (acquires [] [] 0 refl refl)

abbrev all_done : System String
all_done = record second_checks { queue = (collect second_checks.queue 0).0; holder = free }

all_done-Reachable : Reachable all_done
unfolding record_outcome insert remove collect lookup shared
all_done-Reachable = after_step second_checks-Reachable (collects 0 timed_out refl refl)

take_batch-never_lost_example : take_batch first_takes.queue 0 ≢ none
take_batch-never_lost_example = take_batch-never_lost first_takes 0 first_takes-Reachable refl

sending-merged_example :
    (both ≡ merge_all (warm ∷ heating ∷ [])) × (2 ≡ length (warm ∷ heating ∷ [])) × (1 ≤ 2)
sending-merged_example = sending-merged first_sends 0 2 both first_sends-Reachable refl

collect-own_batch_example :
    (outcome : Answer String) × (lookup 0 second_checks.results ≡ some outcome)
    × IsToldOf outcome timed_out
unfolding record_outcome insert remove collect lookup shared
collect-own_batch_example =
    collect-own_batch second_checks 0 timed_out second_checks-Reachable refl refl

queue-drained_example :
    (all_done.queue.done ≡ [])
    × (all_done.queue.pending ≡ no_change)
    × (all_done.queue.pending_count ≡ 0)
queue-drained_example = queue-drained all_done all_done-Reachable refl refl

abbrev cooling : Setpoint
cooling = record {
  power_on = true;
  mode = cool;
  target_temperature = 220;
  fan_speed = 102;
  swing_mode = off;
  eco = false;
  turbo = false;
  sleep = false;
  fahrenheit = false;
  purifier = false;
  aux_heat = false;
  independent_aux_heat = false;
  follow_me = false;
  freeze_protection = false;
  target_humidity = 40;
  beep = false;
}

apply_to-merge_example :
    apply_to (merge warm heating) cooling ≡ record (apply_to heating (apply_to warm cooling)) {
      beep = set_or_keep none (set_or_keep (some true) false);
    }
apply_to-merge_example = apply_to-merge warm heating cooling
