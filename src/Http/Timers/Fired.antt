-- ===== src/Http/Timers/Fired.antt =====
-- What a pass of `run_once` in crates/breeze-http/src/timer_routes.rs does to the timer store.
use mathlib.Core.Path.{subst}
use breeze_core_native.Common.{
  ℕ, ◌≡◌, refl, ◌∙◌, ap, Bool, true, not, ◌&&◌, Option, String, List, [], ◌∷◌, arith, any, retain,
  All, Bool-cases, inl, inr,
}
use breeze_core_native.Common.Texts.{str_eq, str_eq_refl}
use breeze_core_native.Store.Timers.{LocalTime, Timer, TimersDoc, is_due, missed, due, remove}
use breeze_core_native.Http.Timers.{run_once, remove_all, dispatches}

-- The timer has the id of one of these.
abbrev pub named_by : List Timer → Timer → Bool
named_by ts t = any (λ d. str_eq t.id d.id) ts

retain-twice :
    (p q : Timer → Bool) (timers : List Timer)
    → retain p (retain q timers) ≡ retain (λ t. q t && p t) timers
retain-twice p q [] = refl
retain-twice p q (t ∷ ts) = ground (arith, retain-twice p q ts)

retain-cong :
    (p q : Timer → Bool) (timers : List Timer)
    → ((t : Timer) → p t ≡ q t)
    → retain p timers ≡ retain q timers
retain-cong p q [] h = refl
retain-cong p q (t ∷ ts) h = ground (arith, retain-cong p q ts h, h t)

retain-each : (timers : List Timer) → retain (λ t. true) timers ≡ timers
retain-each [] = refl
retain-each (t ∷ ts) = ap (λ r. t ∷ r) (retain-each ts)

module _ (local : LocalTime) (parse_u64 : String → Option ℕ) where
  remove_all-retain :
      (gone : List Timer) (doc : TimersDoc)
      → (remove_all local parse_u64 gone doc).timers
        ≡ retain (λ t. not (named_by gone t)) doc.timers
  unfolding remove
  remove_all-retain [] doc = ground (arith, retain-each doc.timers)
  remove_all-retain (g ∷ gs) doc =
      remove_all-retain gs (remove doc g.id).0
      ∙ retain-twice (λ t. not (named_by gs t)) (λ t. not (str_eq t.id g.id)) doc.timers
      ∙ retain-cong (λ t. not (str_eq t.id g.id) && not (named_by gs t))
          (λ t. not (named_by (g ∷ gs) t)) doc.timers (λ t. ground arith)

  Named : ℕ → List Timer → Timer → Type 0
  Named now gone t = is_due local t now ≡ true → named_by gone t ≡ true

  All-Named-cons :
      (now : ℕ) (d : Timer) (gone timers : List Timer)
      → All (Named now gone) timers
      → All (Named now (d ∷ gone)) timers
  unfolding Named
  All-Named-cons now d gone [] h = tt
  All-Named-cons now d gone (t ∷ ts) h =
      (λ e. ground (arith, h.0 e), All-Named-cons now d gone ts h.1)

  due-Named :
      (now : ℕ) (timers : List Timer)
      → All (Named now (retain (λ t. is_due local t now) timers)) timers
  unfolding Named
  due-Named now [] = tt
  due-Named now (t ∷ ts) = elim (Bool-cases (is_due local t now)) [
    | inl e ↦
        let taken : t ∷ retain (λ t. is_due local t now) ts
            ≡ retain (λ t. is_due local t now) (t ∷ ts) =
          ground (arith, e) in
        subst (λ g. All (Named now g) (t ∷ ts)) taken
          ((λ _. ground (arith, str_eq_refl t.id)), All-Named-cons now t _ ts (due-Named now ts))
    | inr e ↦
        let left : retain (λ t. is_due local t now) ts ≡ retain (λ t. is_due local t now) (t ∷ ts) =
          ground (arith, e) in
        subst (λ g. All (Named now g) (t ∷ ts)) left
          ((λ h. absurd (ground (arith, h, e))), due-Named now ts)
  ]

  retain-Named :
      (now : ℕ) (gone timers : List Timer)
      → All (Named now gone) timers
      → retain (λ t. is_due local t now) (retain (λ t. not (named_by gone t)) timers) ≡ []
  unfolding Named
  retain-Named now gone [] h = refl
  retain-Named now gone (t ∷ ts) h = ground (arith, retain-Named now gone ts h.1, h.0)

  -- A pass leaves nothing due: whatever it fires or drops is gone from the store and cannot fire
  -- again at that time, and of the rest it forgets only what shares an id with a due timer.
  pub run_once-drains :
      (doc : TimersDoc) (known : List ℕ) (now : ℕ)
      → (due local (run_once local parse_u64 doc known now).0 now ≡ [])
        × ((run_once local parse_u64 doc known now).0.timers
            ≡ retain (λ t. not (named_by (due local doc now) t)) doc.timers)
  unfolding run_once due
  run_once-drains doc known now =
      let gone = due local doc now in
      let left = remove_all-retain gone doc in
      (rw left (retain-Named now gone doc.timers (due-Named now doc.timers)), left)

  -- A pass sends nothing for scheduled starts that were missed: what it sends is what it would send
  -- if they were not in the store.
  pub run_once-missed :
      (known : List ℕ) (now : ℕ) (timers : List Timer)
      → dispatches local parse_u64 known now timers
        ≡ dispatches local parse_u64 known now (retain (λ t. not (missed local t now)) timers)
  unfolding dispatches
  run_once-missed known now [] = refl
  run_once-missed known now (t ∷ ts) = ground (arith, run_once-missed known now ts)
