-- ===== src/Device/Control/Promise.antt =====
-- What the queue of crates/breeze-device/src/manager.rs promises the requests that share it.
use mathlib.Core.Path.{subst}
use breeze_core_native.Common.{
  ℕ, ◌≤◌, ◌≡◌, ◌≢◌, refl, sym, ◌∙◌, false, none, some, List, [], ◌∷◌, arith, length, inl, inr,
  Option-cases,
}
use breeze_core_native.Common.Numbered.{lookup, lookup-empty}
use breeze_core_native.Device.Change.{Change, no_change, merge_all}
use breeze_core_native.Device.Control.{ControlOutcome, Answer, collect, take_batch, shared}
use breeze_core_native.Device.Control.Interleaved.{
  free, checking, taking, sending, System, Reachable,
}
use breeze_core_native.Device.Control.Invariant.{HolderFits}
use breeze_core_native.Device.Control.Preserved.{collect-some, loses-absurd, Reachable-Invariant}

module _ {E : Type 0} where
  -- What a request that did not send is told of an outcome: the same error, or the same of everything but
  -- that it did not send it.
  abbrev pub IsToldOf : Answer E → Answer E → Type 0
  IsToldOf (inl e) answer = answer ≡ inl e
  IsToldOf (inr outcome) answer =
      (told : ControlOutcome) × (answer ≡ inr told)
      × (told.sent_by_this_request ≡ false)
      × (told.state ≡ outcome.state)
      × (told.base ≡ outcome.base)
      × (told.base_was_cached ≡ outcome.base_was_cached)
      × (told.sent ≡ outcome.sent)
      × (told.merged ≡ outcome.merged)

  shared-IsToldOf : (outcome : Answer E) → IsToldOf outcome (shared outcome)
  unfolding shared
  shared-IsToldOf (inl e) = refl
  shared-IsToldOf (inr outcome) =
      (record outcome { sent_by_this_request = false }, refl, refl, refl, refl, refl, refl, refl)

  -- No command is lost: in a state that can be reached without a panic, a request that found no
  -- answer can take its batch.
  pub take_batch-never_lost :
      (s : System E) (batch : ℕ)
      → Reachable s
      → s.holder ≡ taking batch
      → take_batch s.queue batch ≢ none
  take_batch-never_lost s batch r h = loses-absurd batch (Reachable-Invariant r) h

  -- A command carries every change that joined its batch, merged in the order in which they joined,
  -- and counts them: at least one.
  pub sending-merged :
      (s : System E) (batch merged : ℕ) (change : Change)
      → Reachable s
      → s.holder ≡ sending batch change merged
      → (change ≡ merge_all s.carried) × (merged ≡ length s.carried) × (1 ≤ merged)
  sending-merged s batch merged change r h =
      let fits : HolderFits s (sending batch change merged) =
        subst (HolderFits s) h (Reachable-Invariant r).fits in
      let (below, absent, same_change, same_count, positive) = fits in
      (same_change, same_count, positive)

  -- A request that collects an answer collects the outcome of its own batch: the error, or the same
  -- states, setpoint and count, with `sent_by_this_request` cleared.
  pub collect-own_batch :
      (s : System E) (batch : ℕ) (answer : Answer E)
      → Reachable s
      → s.holder ≡ checking batch
      → (collect s.queue batch).1 ≡ some answer
      → (outcome : Answer E) × (lookup batch s.results ≡ some outcome) × IsToldOf outcome answer
  collect-own_batch s batch answer r h e =
      let (f, found, same, p, c, nb, looks) = collect-some s.queue batch answer e in
      (
        f.outcome,
        (Reachable-Invariant r).outcomes batch f found,
        subst (IsToldOf f.outcome) (sym same) (shared-IsToldOf f.outcome),
      )

  -- When no request is left, nothing is: no outcome is kept, no change is pending and none is
  -- counted.
  pub queue-drained :
      (s : System E)
      → Reachable s
      → s.waiting ≡ []
      → s.holder ≡ free
      → (s.queue.done ≡ []) × (s.queue.pending ≡ no_change) × (s.queue.pending_count ≡ 0)
  queue-drained s r w h =
      let v = Reachable-Invariant r in
      let none_waits : s.queue.pending_count ≡ 0 = ground (arith, v.balanced s.queue.next_batch) in
      (
        lookup-empty s.queue.done (λ n. elim (Option-cases (lookup n s.queue.done)) [
          | inl missing ↦ missing
          | inr (f, found) ↦ absurd (ground (arith, v.balanced n, v.live n f found))
        ]),
        nothing_joined s.joined v.merged (sym v.counted ∙ none_waits),
        none_waits,
      )
    where
      nothing_joined :
          (changes : List Change)
          → s.queue.pending ≡ merge_all changes
          → length changes ≡ 0
          → s.queue.pending ≡ no_change
      nothing_joined [] e l = e
      nothing_joined (c ∷ cs) e l = absurd (omega arith)
