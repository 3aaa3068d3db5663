-- ===== src/Store/Programs/Segments.antt =====
-- crates/breeze-store/src/programs.rs: there is a segment of the curve for every minute of the day.
use mathlib.Core.Path.{subst}
use breeze_core_native.Common.{
  ℕ, suc, ◌≤◌, ◌<◌, Bool, true, false, ◌&&◌, ◌||◌, Option, none, some, List, [], ◌∷◌, ltb, leb,
  length, find, any, All, Bool-cases, Option-cases, inl, inr, ◌⊎◌, ◌≡◌, refl, ap, ◌∙◌, arith,
  find-All, ltb→lt, ◌++◌, ◌+◌, ◌-◌, ◌*◌,
}
use breeze_core_native.Common.Texts.{codes, split_once}
use breeze_core_native.Common.Int.{pos}
use breeze_core_native.Auth.Clock.{F64, finite}
use breeze_core_native.Store.Control.{in_range}
use breeze_core_native.Store.Programs.{round_ratio}
use breeze_core_native.Store.Programs.Line.{line, IsNearLine, ratio-IsNearLine, in_range_parts}
use breeze_core_native.Store.Programs.Accepted.{IsPoint}
use breeze_core_native.Store.Programs.Request.{
  InRange, readable-InRange, sort_points-InRange, BothInRange, segments-InRange,
}
use breeze_core_native.Store.Programs.Ingest.{CurvePoint}
use breeze_core_native.Store.Programs.Curve.{
  Point, between, parse_i64, in_day, of_parts, minutes_of_day, readable, insert_point, sort_points,
  minutes_from, span_of, covers, segments, segment_at, sorted_setpoint, curve_setpoint,
}

-- No point is before the one it follows, and each is in the day.
abbrev IsSorted : ℕ → List Point → Type 0
IsSorted n [] = Unit
IsSorted n (p ∷ ps) = (n ≤ p.0) × ((p.0 < 1440) × IsSorted p.0 ps)

last_covers :
    (first p mins : ℕ)
    → first ≤ p
    → p < 1440
    → mins < 1440
    → (mins < first) ⊎ (p ≤ mins)
    → ltb (minutes_from p mins) (span_of p first) ≡ true
last_covers first p mins le hi lt h = ground arith

step_covers :
    (p q mins : ℕ) → p ≤ mins → mins < q → q < 1440 → ltb (minutes_from p mins) (span_of p q) ≡ true
step_covers p q mins le lt hi = ground arith

or-true : (b : Bool) → (b || true) ≡ true
or-true true = refl
or-true false = refl

any-covers :
    (mins : ℕ) (first p : Point) (ps : List Point)
    → mins < 1440
    → first.0 ≤ p.0
    → p.0 < 1440
    → IsSorted p.0 ps
    → (mins < first.0) ⊎ (p.0 ≤ mins)
    → any (covers mins) (segments first (p ∷ ps)) ≡ true
any-covers mins first p [] lt le hi sorted h = rw (last_covers first.0 p.0 mins le hi lt h) refl
any-covers mins first p (q ∷ qs) lt le hi (le', (hi', sorted)) h =
    elim (Bool-cases (leb p.0 mins && ltb mins q.0)) [
      | inl here ↦ rw (step_covers p.0 q.0 mins (ground arith) (ground arith) hi') refl
      | inr elsewhere ↦
          ap (λ b. covers mins (p, q) || b)
            (any-covers mins first q qs lt (omega arith) hi' sorted (ground arith))
          ∙ or-true (covers mins (p, q))
    ]

found_covers :
    {A : Type 0} (test : A → Bool) (xs : List A)
    → any test xs ≡ true
    → (a : A) × (find test xs ≡ some a) × (test a ≡ true)
found_covers test [] h = absurd cc
found_covers test (x ∷ xs) h = elim (Bool-cases (test x)) [
  | inl here ↦ (x, rw here refl, here)
  | inr elsewhere ↦
      let (a, found, t) = found_covers test xs (ground arith) in (a, rw elsewhere found, t)
]

insert_point-IsSorted :
    (n : ℕ) (p : Point) (ps : List Point)
    → n ≤ p.0
    → p.0 < 1440
    → IsSorted n ps
    → IsSorted n (insert_point p ps)
insert_point-IsSorted n p [] le hi sorted = (le, (hi, tt))
insert_point-IsSorted n p (q ∷ qs) le hi (le', (hi', sorted)) = elim (Bool-cases (leb p.0 q.0)) [
  | inl before ↦ rw before (le, (hi, (ground arith, (hi', sorted))))
  | inr after ↦ rw after (le', (hi', insert_point-IsSorted q.0 p qs (ground arith) hi sorted))
]

InDay : List Point → Type 0
InDay ps = All (λ (p : Point). p.0 < 1440) ps

sort_points-IsSorted : (ps : List Point) → InDay ps → IsSorted 0 (sort_points ps)
unfolding InDay
sort_points-IsSorted [] h = tt
sort_points-IsSorted (p ∷ ps) h =
    insert_point-IsSorted 0 p (sort_points ps) (omega arith) h.0 (sort_points-IsSorted ps h.1)

in_day_bound : (h m : Option ℕ) (n : ℕ) → in_day h m ≡ some n → n < 1440
in_day_bound (some h) (some m) n e = ground arith
in_day_bound none m n e = absurd cc
in_day_bound (some h) none n e = absurd cc

minutes_of_day-bound :
    (parts : Option (List ℕ × List ℕ)) (n : ℕ) → of_parts parts ≡ some n → n < 1440
minutes_of_day-bound none n e = absurd cc
minutes_of_day-bound (some (h, m)) n e = in_day_bound (parse_i64 h) (parse_i64 m) n e

readable-InDay : (points : List CurvePoint) → InDay (readable points)
unfolding readable InDay minutes_of_day
readable-InDay [] = tt
readable-InDay (p ∷ ps) = elim (Option-cases (minutes_of_day p.time)) [
  | inl e ↦ rw e (readable-InDay ps)
  | inr (m, e) ↦ rw e (minutes_of_day-bound (split_once b':' (codes p.time)) m e, readable-InDay ps)
]

length-insert_point : (p : Point) (ps : List Point) → length (insert_point p ps) ≡ suc (length ps)
length-insert_point p [] = refl
length-insert_point p (q ∷ qs) = ground (arith, length-insert_point p qs)

length-sort_points : (ps : List Point) → length (sort_points ps) ≡ length ps
length-sort_points [] = refl
length-sort_points (p ∷ ps) =
    length-insert_point p (sort_points ps) ∙ ap suc (length-sort_points ps)

IsDaySegment : Point × Point → Type 0
IsDaySegment s = (s.0.0 < 1440) × (s.1.0 < 1440)

segments-InDay :
    (n : ℕ) (first : Point) (ps : List Point)
    → first.0 < 1440
    → IsSorted n ps
    → All IsDaySegment (segments first ps)
unfolding IsDaySegment
segments-InDay n first [] hi sorted = tt
segments-InDay n first (p ∷ []) hi (le, (lt, sorted)) = ((lt, hi), tt)
segments-InDay n first (p ∷ q ∷ qs) hi (le, (lt, sorted)) =
    ((lt, sorted.1.0), segments-InDay p.0 first (q ∷ qs) hi sorted)

-- The second point follows the first one, or it is the first of all and the other one the last.
abbrev pub IsNext : List Point → Point → Point → Type 0
IsNext ps a b =
    ((before : List Point) × (after : List Point) × (ps ≡ before ++ (a ∷ b ∷ after)))
    ⊎ ((middle : List Point) × (ps ≡ b ∷ (middle ++ (a ∷ []))))

Follows : Point → List Point → Point × Point → Type 0
Follows first ps (a, b) =
    ((before : List Point) × (after : List Point) × (ps ≡ before ++ (a ∷ b ∷ after)))
    ⊎ ((before : List Point) × (ps ≡ before ++ (a ∷ [])) × (b ≡ first))

Follows-cons :
    (first p : Point) (ps : List Point) (s : Point × Point)
    → Follows first ps s
    → Follows first (p ∷ ps) s
unfolding Follows
Follows-cons first p ps (a, b) (inl (before, after, e)) = inl (p ∷ before, after, ap (λ t. p ∷ t) e)
Follows-cons first p ps (a, b) (inr (before, e, same)) = inr (p ∷ before, ap (λ t. p ∷ t) e, same)

found-Follows :
    (test : Point × Point → Bool) (first : Point) (ps : List Point) (s : Point × Point)
    → find test (segments first ps) ≡ some s
    → Follows first ps s
unfolding Follows
found-Follows test first [] s e = absurd (ground arith)
found-Follows test first (p ∷ []) s e = elim (Bool-cases (test (p, first))) [
  | inl here ↦
      let same : (p, first) ≡ s = ground (arith, e, here) in
      subst (Follows first (p ∷ [])) same (inr ([], refl, refl))
  | inr elsewhere ↦ absurd (ground (arith, e, elsewhere))
]
found-Follows test first (p ∷ q ∷ qs) s e = elim (Bool-cases (test (p, q))) [
  | inl here ↦
      let same : (p, q) ≡ s = ground (arith, e, here) in
      subst (Follows first (p ∷ q ∷ qs)) same (inl ([], qs, refl))
  | inr elsewhere ↦
      Follows-cons first p (q ∷ qs) s
        (found-Follows test first (q ∷ qs) s (ground (arith, e, elsewhere)))
]

-- The minutes behind the first of two moments of the day, of those from it to the second; a whole day
-- where they are the same.
abbrev pub IsPart : ℕ → ℕ → ℕ → ℕ → ℕ → Type 0
IsPart a b mins off span =
    (off < span)
    × (span ≤ 1440)
    × ((a + off ≡ mins) ⊎ (a + off ≡ mins + 1440))
    × ((a + span ≡ b) ⊎ (a + span ≡ b + 1440))

covers-IsPart :
    (mins a b : ℕ)
    → mins < 1440
    → (a < 1440) × (b < 1440)
    → ltb (minutes_from a mins) (span_of a b) ≡ true
    → IsPart a b mins (minutes_from a mins) (span_of a b)
covers-IsPart mins a b lt hi h = (h', ground arith, ground arith, ground arith)
  where
    h' : minutes_from a mins < span_of a b
    h' = ltb→lt _ _ h

-- What a curve asks for: of two neighbours among its points and their temperatures in millionths of a
-- degree, a temperature near the line from one to the other, at the moment of the clock.
abbrev pub IsOnLine : List Point → ℕ → Option F64 → Type 0
IsOnLine ps mins setpoint =
    (a : Point) × (b : Point) × (off : ℕ) × (span : ℕ) × (at : ℕ) × (bt : ℕ) × (v : ℕ) × IsNext ps a
      b
    × IsPart a.0 b.0 mins off span
    × (a.1 ≡ finite (pos at))
    × (b.1 ≡ finite (pos bt))
    × (setpoint ≡ some (finite (pos v)))
    × IsNearLine at bt off span v

Follows-IsNext :
    (p q : Point) (ps : List Point) (a b : Point)
    → Follows p (p ∷ q ∷ ps) (a, b)
    → IsNext (p ∷ q ∷ ps) a b
unfolding Follows
Follows-IsNext p q ps a b (inl between_two) = inl between_two
Follows-IsNext p q ps a b (inr ([], e, same)) = absurd (ground arith)
Follows-IsNext p q ps a b (inr (x ∷ middle, e, same)) = inr (middle, cc)

between-IsOnLine :
    (ps : List Point) (mins : ℕ) (a b : Point)
    → IsNext ps a b
    → IsPart a.0 b.0 mins (minutes_from a.0 mins) (span_of a.0 b.0)
    → (in_range a.1 ≡ true) × (in_range b.1 ≡ true)
    → IsOnLine ps mins (some (between a.1 b.1 (minutes_from a.0 mins) (span_of a.0 b.0)))
between-IsOnLine ps mins a b next part (ra, rb) =
    let (at, ea, la, ha) = in_range_parts a.1 ra in
    let (bt, eb, lb, hb) = in_range_parts b.1 rb in
    let off = minutes_from a.0 mins in
    let span = span_of a.0 b.0 in
    (
      a,
      b,
      off,
      span,
      at,
      bt,
      round_ratio (pos (at * (span - off) + bt * off)) span,
      next,
      part,
      ea,
      eb,
      rw (ea, eb) (ap (λ n. some (finite (pos (round_ratio n span)))) (line at bt off span part.0)),
      ratio-IsNearLine at bt off span part.0 (la, ha) (lb, hb),
    )

sorted_setpoint-IsOnLine :
    (ps : List Point) (mins : ℕ)
    → mins < 1440
    → IsSorted 0 ps
    → InRange ps
    → 2 ≤ length ps
    → IsOnLine ps mins (sorted_setpoint mins ps)
unfolding segment_at IsDaySegment InRange
sorted_setpoint-IsOnLine [] mins lt sorted r n = absurd (omega arith)
sorted_setpoint-IsOnLine (p ∷ []) mins lt sorted r n = absurd (omega arith)
sorted_setpoint-IsOnLine (p ∷ q ∷ ps) mins lt sorted r n =
    let side : (mins < p.0) ⊎ (p.0 ≤ mins) = elim (Bool-cases (ltb mins p.0)) [
      | inl before ↦ inl (ground arith)
      | inr behind ↦ inr (ground arith)
    ] in
    let all = p ∷ q ∷ ps in
    let covered = any-covers mins p p (q ∷ ps) lt (omega arith) sorted.1.0 sorted.1.1 side in
    let ((a, b), found, on) = found_covers (covers mins) (segments p all) covered in
    let inside =
      find-All IsDaySegment (covers mins) (segments p all) (a, b)
        (segments-InDay 0 p all sorted.1.0 sorted) found in
    let ranges =
      find-All BothInRange (covers mins) (segments p all) (a, b) (segments-InRange p all r.0 r)
        found in
    rw found (
      between-IsOnLine all mins a b
        (Follows-IsNext p q ps a b (found-Follows (covers mins) p all (a, b) found))
        (covers-IsPart mins a.0 b.0 lt inside on) ranges)

-- A curve whose temperatures are from 16 to 30 degrees and of which at least two points can be read asks,
-- at any minute of the day, for a temperature that can be set and that is at most a quarter of a degree
-- away from the straight line between two neighbours of its sorted points (the first one follows the
-- last), as far along it as the clock is on the way from the one to the other. Of two points of the same
-- minute the way takes the whole day. So the last line of the code, the value of the first point, is not
-- reached.
pub curve_setpoint-IsOnLine :
    (points : List CurvePoint) (mins : ℕ)
    → mins < 1440
    → All IsPoint points
    → 2 ≤ length (readable points)
    → IsOnLine (sort_points (readable points)) mins (curve_setpoint points mins)
unfolding curve_setpoint
curve_setpoint-IsOnLine points mins lt good n =
    sorted_setpoint-IsOnLine (sort_points (readable points)) mins lt
      (sort_points-IsSorted (readable points) (readable-InDay points))
      (sort_points-InRange (readable points) (readable-InRange points good))
      (omega (arith, length-sort_points (readable points)))
