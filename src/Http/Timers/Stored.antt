-- ===== src/Http/Timers/Stored.antt =====
-- What `create` of crates/breeze-http/src/timer_routes.rs leaves in the timer store.
use mathlib.Core.List.{append-nil}
use breeze_core_native.Common.{
  ◌+◌, ◌≤◌, ◌≡◌, refl, Bool, true, false, not, ◌||◌, String, List, [], ◌∷◌, ◌++◌, arith, any,
  retain, All, ◌⊎◌, inl, inr, Bool-cases,
}
use breeze_core_native.Common.Texts.{str_eq, str_eq_refl}
use breeze_core_native.Store.Timers.{
  Timer, TimersDoc, TimerKind, kind_eq, covers, replace_for_units, remove,
}
use breeze_core_native.Store.Timers.Kinds.{
  promises, kind_eq_refl, kind_eq_sym, promises-append, replace_for_units-promises,
  replace_for_units-empty,
}
use breeze_core_native.Http.Timers.{TimerRequest, create}

-- A stored timer that names units is, of its kind, the one promise to each of them.
pub create-one_promise :
    (doc : TimersDoc) (request : TimerRequest) (timer : Timer) (unit : String)
    → timer.unit_ids ≡ request.unit_ids
    → any (λ u. str_eq u unit) request.unit_ids ≡ true
    → promises timer.kind unit (create doc request timer true).0.timers ≡ 1
unfolding create
create-one_promise doc request timer unit same named = ground (
  arith,
  promises-append timer.kind unit (replace_for_units doc request.unit_ids timer.kind).0.timers
      (timer ∷ []),
  replace_for_units-promises doc request.unit_ids timer.kind timer.kind unit,
  kind_eq_refl timer.kind,
)

-- A stored timer leaves the promises of the other kind to any unit as many as they were, and those
-- to a unit that it does not cover no more.
pub create-other_promises :
    (doc : TimersDoc) (request : TimerRequest) (timer : Timer) (unit : String) (kind : TimerKind)
    → (kind_eq kind timer.kind ≡ false) ⊎ (covers timer unit ≡ false)
    → ((kind_eq kind timer.kind ≡ true)
        ⊎ (promises kind unit (create doc request timer true).0.timers
            ≡ promises kind unit doc.timers))
      × (promises kind unit (create doc request timer true).0.timers
          ≤ promises kind unit doc.timers)
unfolding create
create-other_promises doc request timer unit kind other =
    let left = (replace_for_units doc request.unit_ids timer.kind).0.timers in
    (
      elim (Bool-cases (kind_eq kind timer.kind)) [
        | inl e ↦ inl e
        | inr e ↦ inr (
            ground (
              arith,
              kind_eq_sym kind timer.kind,
              promises-append kind unit left (timer ∷ []),
              replace_for_units-promises doc request.unit_ids timer.kind kind unit,
            ))
      ],
      ground (
        arith,
        kind_eq_sym kind timer.kind,
        promises-append kind unit left (timer ∷ []),
        replace_for_units-promises doc request.unit_ids timer.kind kind unit,
      ),
    )

-- A stored timer for every unit (no unit is named) adds a promise to each unit: one of the same
-- kind that was there stays beside it.
pub create-every_unit :
    (doc : TimersDoc) (request : TimerRequest) (timer : Timer) (unit : String)
    → request.unit_ids ≡ []
    → timer.unit_ids ≡ []
    → promises timer.kind unit (create doc request timer true).0.timers
      ≡ promises timer.kind unit doc.timers + 1
unfolding create
create-every_unit doc request timer unit e e' = ground (
  arith,
  promises-append timer.kind unit doc.timers (timer ∷ []),
  replace_for_units-empty doc timer.kind,
  kind_eq_refl timer.kind,
)

retain-fresh :
    (id : String) (timers : List Timer)
    → All (λ t. str_eq t.id id ≡ false) timers
    → retain (λ t. not (str_eq t.id id)) timers ≡ timers
retain-fresh id [] h = refl
retain-fresh id (t ∷ ts) h = ground (arith, retain-fresh id ts, h)

retain-append :
    (keep : Timer → Bool) (xs ys : List Timer)
    → retain keep (xs ++ ys) ≡ retain keep xs ++ retain keep ys
retain-append keep [] ys = refl
retain-append keep (x ∷ xs) ys = ground (arith, retain-append keep xs ys)

retain-All :
    (P : Timer → Type 0) (keep : Timer → Bool) (timers : List Timer)
    → All P timers
    → All P (retain keep timers)
retain-All P keep [] h = tt
retain-All P keep (t ∷ ts) h = ground (arith, retain-All P keep ts h.1)

-- Where the file could not be written, the new timer is not kept, but the timers that it displaced
-- are not restored: the server goes on without them.
pub create-failed :
    (doc : TimersDoc) (request : TimerRequest) (timer : Timer)
    → All (λ t. str_eq t.id timer.id ≡ false) doc.timers
    → create doc request timer false
      ≡ ((replace_for_units doc request.unit_ids timer.kind).0, false)
unfolding create replace_for_units remove
create-failed doc request timer fresh =
    let keep : Timer → Bool =
      λ t. not (kind_eq t.kind timer.kind) || not (any (covers t) request.unit_ids) in
    let left = retain keep doc.timers in
    ground (
      arith,
      retain-append (λ t. not (str_eq t.id timer.id)) left (timer ∷ []),
      retain-fresh timer.id left
          (retain-All (λ t. str_eq t.id timer.id ≡ false) keep doc.timers fresh),
      str_eq_refl timer.id,
      append-nil left,
    )
