-- ===== src/Device/Control.antt =====
-- `control` of crates/breeze-device/src/manager.rs: requests that arrive while a unit is busy are
-- merged, and one command answers them all. The error of a unit is the parameter `E`, which the
-- queue only passes on.
pub mod Interleaved
pub mod Invariant
pub mod Preserved
pub mod Promise
use breeze_core_native.Common.{
  ℕ, ◌+◌, ◌-◌, ◌≤◌, Bool, true, false, Option, none, some, List, [], ltb, ◌==◌, if◌then◌else◌, ◌⊎◌,
  inl, inr, not,
}
use breeze_core_native.Common.Numbered.{Numbered, lookup, insert, remove}
use breeze_core_native.Proto.Ac.Response.{State}
use breeze_core_native.Proto.Ac.Command.{Setpoint, from_state}
use breeze_core_native.Device.Change.{Change, no_change, merge, apply_to}

pub record ControlOutcome : Type 0 where
  pub state : State
  pub base : State
  pub base_was_cached : Bool
  pub sent : Setpoint
  pub merged : ℕ
  pub sent_by_this_request : Bool

module _ (E : Type 0) where
  abbrev pub Answer : Type 0
  Answer = E ⊎ ControlOutcome

  pub record Finished : Type 0 where
    pub outcome : Answer
    pub uncollected : ℕ

  pub record ControlQueue : Type 0 where
    pub pending : Change
    pub pending_count : ℕ
    pub next_batch : ℕ
    pub done : Numbered Finished

module _ {E : Type 0} where
  abbrev pub empty_queue : ControlQueue E
  empty_queue = record { pending = no_change; pending_count = 0; next_batch = 0; done = [] }

  -- Joining the batch that goes out next: the queue, and the batch's number.
  unfoldable pub join : ControlQueue E → Change → ControlQueue E × ℕ
  join q change = (
    record q { pending = merge q.pending change; pending_count = q.pending_count + 1 },
    q.next_batch,
  )

  -- The answer of a request that was folded into another one's command.
  unfoldable pub shared : Answer E → Answer E
  shared (inl e) = inl e
  shared (inr outcome) = inr (record outcome { sent_by_this_request = false })

  abbrev collected : ControlQueue E → ℕ → Option (Finished E) → ControlQueue E × Option (Answer E)
  collected q n none = (q, none)
  collected q n (some finished) =
      let left = finished.uncollected - 1 in
      (
        record q {
          done =
              if left == 0
              then remove n q.done
              else insert n (record finished { uncollected = left }) q.done;
        },
        some (shared finished.outcome),
      )

  unfoldable pub collect : ControlQueue E → ℕ → ControlQueue E × Option (Answer E)
  collect q n = collected q n (lookup n q.done)

  -- Taking the batch, if it is still the next one: the queue, the merged change and how many
  -- requests it covers. `none` is the command that was lost.
  unfoldable pub take_batch : ControlQueue E → ℕ → Option (ControlQueue E × Change × ℕ)
  take_batch q batch =
      if not (q.next_batch == batch)
      then none
      else some (
        record q { pending = no_change; pending_count = 0; next_batch = q.next_batch + 1 },
        q.pending,
        q.pending_count,
      )

  unfoldable pub record_outcome : ControlQueue E → ℕ → ℕ → Answer E → ControlQueue E
  record_outcome q batch merged outcome =
      if ltb 1 merged
      then record q {
        done = insert batch (record { outcome = outcome; uncollected = merged - 1 }) q.done;
      }
      else q

  abbrev sent_on : State → Bool → Change → ℕ → (Setpoint → E ⊎ State) → Answer E
  sent_on base cached change merged apply =
      let sent = apply_to change (from_state base) in
      elim (apply sent) [
        | inl e ↦ inl e
        | inr state ↦ inr (record {
          state = state;
          base = base;
          base_was_cached = cached;
          sent = sent;
          merged = merged;
          sent_by_this_request = true;
        })
      ]

  -- What the unit does is given by its last report, if that is recent, by what a fresh read would
  -- answer, and by what a command would answer.
  unfoldable pub send_change :
      Option State → E ⊎ State → (Setpoint → E ⊎ State) → Change → ℕ → Answer E
  send_change (some base) refreshed apply change merged = sent_on base true change merged apply
  send_change none (inl e) apply change merged = inl e
  send_change none (inr base) apply change merged = sent_on base false change merged apply
