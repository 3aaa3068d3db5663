-- ===== src/Device/Control/Interleaved.antt =====
-- Requests of `control` in crates/breeze-device/src/manager.rs that run side by side on one unit. A
-- request joins a batch under the queue's lock, waits for the unit's lock, and then collects its
-- answer or sends the batch; other requests can join between any two of its steps. A panic while a
-- command is sent is not among the steps.
use breeze_core_native.Common.{ℕ, ◌≡◌, none, some, List, [], ◌∷◌, ◌++◌}
use breeze_core_native.Common.Numbered.{Numbered}
use breeze_core_native.Device.Change.{Change}
use breeze_core_native.Device.Control.{
  Answer, ControlQueue, empty_queue, join, collect, take_batch, record_outcome,
}

-- Who holds the unit's lock: a request of a batch before it looks for its answer, the same after
-- it found none, or one that sends the batch, with the merged change and the number of requests.
pub data Holder : Type 0 where
  free : Holder
  checking : ℕ → Holder
  taking : ℕ → Holder
  sending : ℕ → Change → ℕ → Holder

-- A unit's queue, the batches of the requests that wait for the unit's lock, and its holder. Of
-- what has happened, `joined` holds the changes of the batch that goes out next, the oldest first,
-- `carried` those of the command being sent, and `results` the outcome of each batch that was sent.
pub record System (E : Type 0) : Type 0 where
  pub queue : ControlQueue E
  pub waiting : List ℕ
  pub holder : Holder
  pub joined : List Change
  pub carried : List Change
  pub results : Numbered (Answer E)

module _ {E : Type 0} where
  abbrev pub start : System E
  start = record {
    queue = empty_queue;
    waiting = [];
    holder = free;
    joined = [];
    carried = [];
    results = [];
  }

  pub data Step : System E → System E → Type 0 where
    joins :
        {s : System E} (change : Change)
        → Step s (record s {
          queue = (join s.queue change).0;
          waiting = (join s.queue change).1 ∷ s.waiting;
          joined = s.joined ++ (change ∷ []);
        })
    acquires :
        {s : System E} (before after : List ℕ) (batch : ℕ)
        → s.holder ≡ free
        → s.waiting ≡ before ++ (batch ∷ after)
        → Step s (record s { waiting = before ++ after; holder = checking batch })
    collects :
        {s : System E} (batch : ℕ) (answer : Answer E)
        → s.holder ≡ checking batch
        → (collect s.queue batch).1 ≡ some answer
        → Step s (record s { queue = (collect s.queue batch).0; holder = free })
    misses :
        {s : System E} (batch : ℕ)
        → s.holder ≡ checking batch
        → (collect s.queue batch).1 ≡ none
        → Step s (record s { queue = (collect s.queue batch).0; holder = taking batch })
    takes :
        {s : System E} (batch : ℕ) (queue : ControlQueue E) (change : Change) (merged : ℕ)
        → s.holder ≡ taking batch
        → take_batch s.queue batch ≡ some (queue, change, merged)
        → Step s (record s {
          queue = queue;
          holder = sending batch change merged;
          joined = [];
          carried = s.joined;
        })
    loses :
        {s : System E} (batch : ℕ)
        → s.holder ≡ taking batch
        → take_batch s.queue batch ≡ none
        → Step s (record s { holder = free })
    finishes :
        {s : System E} (batch : ℕ) (change : Change) (merged : ℕ) (outcome : Answer E)
        → s.holder ≡ sending batch change merged
        → Step s (record s {
          queue = record_outcome s.queue batch merged outcome;
          holder = free;
          results = (batch, outcome) ∷ s.results;
        })

  pub data Reachable : System E → Type 0 where
    at_start : Reachable start
    after_step : {s t : System E} → Reachable s → Step s t → Reachable t
