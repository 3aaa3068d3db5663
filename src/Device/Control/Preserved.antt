-- ===== src/Device/Control/Preserved.antt =====
-- Every step of Device/Control/Interleaved.antt keeps the queue and its requests in balance.
use mathlib.Core.Path.{subst}
use breeze_core_native.Common.{
  ℕ, ◌+◌, ◌-◌, ◌≡◌, ◌≢◌, refl, ap, sym, ◌∙◌, none, some, List, [], ◌∷◌, ◌++◌, ◌==◌, if◌then◌else◌,
  arith, ltb, length-append, inl, inr, Option-cases,
}
use breeze_core_native.Common.Numbered.{Numbered, lookup, lookup-insert, lookup-remove}
use breeze_core_native.Device.Change.{Change, no_change, merge}
use breeze_core_native.Device.Control.{
  Answer, Finished, ControlQueue, join, collect, take_batch, record_outcome, shared,
}
use breeze_core_native.Device.Control.Interleaved.{
  free, checking, taking, sending, System, Step, joins, acquires, collects, misses, takes, loses,
  finishes, Reachable, at_start, after_step,
}
use breeze_core_native.Device.Control.Invariant.{
  count-append, merge_all-append, HolderFits, Invariant, start-Invariant,
}

module _ {E : Type 0} where
  joins-Invariant :
      {s t : System E} (change : Change)
      → Invariant s
      → t ≡ record s {
        queue = (join s.queue change).0;
        waiting = (join s.queue change).1 ∷ s.waiting;
        joined = s.joined ++ (change ∷ []);
      }
      → Invariant t
  unfolding join
  joins-Invariant {s} change v e = rw e (record {
    balanced = λ n. ground (arith, v.balanced n);
    ahead = v.ahead;
    live = v.live;
    fits = v.fits;
    merged = ap (λ p. merge p change) v.merged ∙ sym (merge_all-append s.joined change);
    counted = omega (arith, v.counted, length-append s.joined (change ∷ []));
    outcomes = v.outcomes;
  })

  acquires-Invariant :
      {s : System E} (before after : List ℕ) (batch : ℕ)
      → s.holder ≡ free
      → s.waiting ≡ before ++ (batch ∷ after)
      → Invariant s
      → Invariant (record s { waiting = before ++ after; holder = checking batch })
  acquires-Invariant {s} before after batch h w v = record {
    balanced = λ n.
        ground
          (arith, v.balanced n, count-append n before (batch ∷ after), count-append n before after);
    ahead = v.ahead;
    live = v.live;
    fits = tt;
    merged = v.merged;
    counted = v.counted;
    outcomes = v.outcomes;
  }

  -- A collected answer: the kept outcome, one fewer of which is left.
  pub collect-some :
      (q : ControlQueue E) (batch : ℕ) (answer : Answer E)
      → (collect q batch).1 ≡ some answer
      → (f : Finished E) × (lookup batch q.done ≡ some f)
        × (answer ≡ shared f.outcome)
        × ((collect q batch).0.pending ≡ q.pending)
        × ((collect q batch).0.pending_count ≡ q.pending_count)
        × ((collect q batch).0.next_batch ≡ q.next_batch)
        × ((n : ℕ)
            → lookup n (collect q batch).0.done ≡ (
                if batch == n
                then (if f.uncollected - 1 == 0
                    then none
                    else some (record f { uncollected = f.uncollected - 1 }))
                else lookup n q.done))
  unfolding collect
  collect-some q batch answer e = elim (Option-cases (lookup batch q.done)) [
    | inl missing ↦ absurd (ground arith)
    | inr (f, found) ↦ (
      f,
      found,
      ground arith,
      ground arith,
      ground arith,
      ground arith,
      λ n. ground (
        arith,
        lookup-remove batch n q.done,
        lookup-insert batch n (record f { uncollected = f.uncollected - 1 }) q.done,
      ),
    )
  ]

  collects-Invariant :
      {s : System E} (batch : ℕ) (answer : Answer E)
      → s.holder ≡ checking batch
      → (collect s.queue batch).1 ≡ some answer
      → Invariant s
      → Invariant (record s { queue = (collect s.queue batch).0; holder = free })
  collects-Invariant {s} batch answer h e v =
      let (f, found, same, p, c, nb, looks) = collect-some s.queue batch answer e in
      record {
        balanced = λ n. ground (arith, v.balanced n, looks n, v.live batch f found, v.ahead n);
        ahead = λ n le. ground (arith, looks n, v.ahead n);
        live = λ n g eg. ground (arith, looks n, v.live n g);
        fits = tt;
        merged = p ∙ v.merged;
        counted = c ∙ v.counted;
        outcomes = λ n g eg. ground (arith, looks n, v.outcomes n f, v.outcomes n g);
      }

  collect-none :
      (q : ControlQueue E) (batch : ℕ)
      → (collect q batch).1 ≡ none
      → ((collect q batch).0 ≡ q) × (lookup batch q.done ≡ none)
  unfolding collect
  collect-none q batch e = elim (Option-cases (lookup batch q.done)) [
    | inl missing ↦ (ground arith, missing)
    | inr (f, found) ↦ absurd (ground arith)
  ]

  misses-Invariant :
      {s : System E} (batch : ℕ)
      → s.holder ≡ checking batch
      → (collect s.queue batch).1 ≡ none
      → Invariant s
      → Invariant (record s { queue = (collect s.queue batch).0; holder = taking batch })
  misses-Invariant {s} batch h e v =
      let (same, missing) = collect-none s.queue batch e in
      rw same (record {
        balanced = λ n. ground (arith, v.balanced n);
        ahead = v.ahead;
        live = v.live;
        fits = ground (arith, v.balanced batch);
        merged = v.merged;
        counted = v.counted;
        outcomes = v.outcomes;
      })

  take_batch-some :
      (q queue : ControlQueue E) (batch : ℕ) (change : Change) (merged : ℕ)
      → take_batch q batch ≡ some (queue, change, merged)
      → (queue ≡ record q { pending = no_change; pending_count = 0; next_batch = q.next_batch + 1 })
        × (change ≡ q.pending)
        × (merged ≡ q.pending_count)
  unfolding take_batch
  take_batch-some q queue batch change merged e = ground arith

  takes-Invariant :
      {s : System E} (batch : ℕ) (queue : ControlQueue E) (change : Change) (merged : ℕ)
      → s.holder ≡ taking batch
      → take_batch s.queue batch ≡ some (queue, change, merged)
      → Invariant s
      → Invariant (record s {
        queue = queue;
        holder = sending batch change merged;
        joined = [];
        carried = s.joined;
      })
  takes-Invariant {s} batch queue change merged h e v =
      let next : batch ≡ s.queue.next_batch = subst (HolderFits s) h v.fits in
      let (e_queue, e_change, e_merged) = take_batch-some s.queue queue batch change merged e in
      rw (e_queue, e_change, e_merged)
        (record {
          balanced = λ n. ground (arith, v.balanced n, v.ahead n);
          ahead = λ n le. v.ahead n (omega arith);
          live = v.live;
          fits = (
            omega arith,
            v.ahead batch (omega arith),
            v.merged,
            v.counted,
            ground (arith, v.balanced batch, v.ahead batch),
          );
          merged = refl;
          counted = refl;
          outcomes = v.outcomes;
        })

  -- Where an outcome is recorded, and what is known there.
  record_outcome_lem :
      (q : ControlQueue E) (batch merged : ℕ) (outcome : Answer E)
      → ((record_outcome q batch merged outcome).pending ≡ q.pending)
        × ((record_outcome q batch merged outcome).pending_count ≡ q.pending_count)
        × ((record_outcome q batch merged outcome).next_batch ≡ q.next_batch)
        × ((n : ℕ)
            → lookup n (record_outcome q batch merged outcome).done ≡ (
                if ltb 1 merged
                then (if batch == n
                    then some (record { outcome = outcome; uncollected = merged - 1 })
                    else lookup n q.done)
                else lookup n q.done))
  unfolding record_outcome
  record_outcome_lem q batch merged outcome = (
    ground arith,
    ground arith,
    ground arith,
    λ n. ground (
      arith,
      lookup-insert batch n (record { outcome = outcome; uncollected = merged - 1 }) q.done,
    ),
  )

  lookup_first :
      (batch n : ℕ) (a : Answer E) (results : Numbered (Answer E))
      → lookup n ((batch, a) ∷ results) ≡ (if batch == n then some a else lookup n results)
  unfolding lookup
  lookup_first batch n a results = refl

  finishes-Invariant :
      {s : System E} (batch : ℕ) (change : Change) (merged : ℕ) (outcome : Answer E)
      → s.holder ≡ sending batch change merged
      → Invariant s
      → Invariant (record s {
        queue = record_outcome s.queue batch merged outcome;
        holder = free;
        results = (batch, outcome) ∷ s.results;
      })
  finishes-Invariant {s} batch change merged outcome h v =
      let fits : HolderFits s (sending batch change merged) = subst (HolderFits s) h v.fits in
      let (below, absent, same_change, same_count, positive) = fits in
      let (p, c, nb, looks) = record_outcome_lem s.queue batch merged outcome in
      record {
        balanced = λ n. ground (arith, v.balanced n, looks n);
        ahead = λ n le. ground (arith, looks n, v.ahead n);
        live = λ n g eg. ground (arith, looks n, v.live n g);
        fits = tt;
        merged = p ∙ v.merged;
        counted = c ∙ v.counted;
        outcomes = λ n g eg.
            ground (arith, looks n, v.outcomes n g, lookup_first batch n outcome s.results);
      }

  pub loses-absurd :
      {s : System E} (batch : ℕ)
      → Invariant s
      → s.holder ≡ taking batch
      → take_batch s.queue batch ≢ none
  unfolding take_batch
  loses-absurd {s} batch v h e =
      let next : batch ≡ s.queue.next_batch = subst (HolderFits s) h v.fits in ground arith

  Step-Invariant : {s t : System E} → Step s t → Invariant s → Invariant t
  Step-Invariant (joins change) v = joins-Invariant change v refl
  Step-Invariant (acquires before after batch h w) v = acquires-Invariant before after batch h w v
  Step-Invariant (collects batch answer h e) v = collects-Invariant batch answer h e v
  Step-Invariant (misses batch h e) v = misses-Invariant batch h e v
  Step-Invariant (takes batch queue change merged h e) v =
      takes-Invariant batch queue change merged h e v
  Step-Invariant (loses batch h e) v = absurd (loses-absurd batch v h e)
  Step-Invariant (finishes batch change merged outcome h) v =
      finishes-Invariant batch change merged outcome h v

  -- The invariant holds of every state that the steps reach.
  pub Reachable-Invariant : {s : System E} → Reachable s → Invariant s
  Reachable-Invariant at_start = start-Invariant
  Reachable-Invariant (after_step r step) = Step-Invariant step (Reachable-Invariant r)
