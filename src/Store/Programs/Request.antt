-- ===== src/Store/Programs/Request.antt =====
-- crates/breeze-store/src/programs.rs against src/control.rs: what a stored curve asks for.
use breeze_core_native.Common.{
  ℕ, ◌<◌, true, String, List, [], ◌∷◌, All, find-All, ok, Option-cases, Bool-cases, leb, inl, inr,
  ◌≡◌, refl, arith,
}
use breeze_core_native.Common.Int.{ℤ, pos, negsuc}
use breeze_core_native.Auth.Clock.{F64, finite, infinity, neg_infinity, nan}
use breeze_core_native.Store.Control.{
  in_range, validate, validate_iff, IsSettable, Present, contains, operational_modes,
}
use breeze_core_native.Store.Programs.{round_ratio, round_half, round_ratio-IsSettable}
use breeze_core_native.Store.Programs.Ingest.{CurvePoint, CurveConfig}
use breeze_core_native.Store.Programs.Accepted.{IsCurve, IsPoint}
use breeze_core_native.Store.Programs.Curve.{
  Point, minutes_of_day, readable, insert_point, sort_points, covers, segments, segment_at,
  minutes_from, span_of, between, sorted_setpoint, curve_setpoint, curve_request,
}

abbrev pub IsFinite : F64 → Type 0
IsFinite t = (n : ℤ) × (t ≡ finite n)

pub in_range-IsFinite : (t : F64) → in_range t ≡ true → IsFinite t
in_range-IsFinite (finite n) h = (n, refl)
in_range-IsFinite infinity h = absurd cc
in_range-IsFinite neg_infinity h = absurd cc
in_range-IsFinite nan h = absurd cc

clamped-IsSettable : (t : ℤ) (span : ℕ) → 0 < span → IsSettable (finite (pos (round_ratio t span)))
unfolding round_ratio
clamped-IsSettable (pos n) span h = (round_ratio-IsSettable n span h).0
clamped-IsSettable (negsuc n) span h = (32, omega arith, omega arith, refl)

rounded-IsSettable : (t : F64) → IsFinite t → IsSettable (round_half t)
unfolding round_half
rounded-IsSettable t (n, e) = rw e (clamped-IsSettable n 1 (omega arith))

between-IsSettable :
    (at bt : F64) (off span : ℕ)
    → 0 < span
    → IsFinite at
    → IsFinite bt
    → IsSettable (between at bt off span)
between-IsSettable at bt off span h (a, e) (b, e') = rw (e, e') (clamped-IsSettable _ span h)

span_positive : (a b : ℕ) → 0 < span_of a b
span_positive a b = ground arith

unfoldable pub InRange : List Point → Type 0
InRange ps = All (λ (p : Point). in_range p.1 ≡ true) ps

pub readable-InRange : (points : List CurvePoint) → All IsPoint points → InRange (readable points)
unfolding readable InRange
readable-InRange [] h = tt
readable-InRange (p ∷ ps) h = elim (Option-cases (minutes_of_day p.time)) [
  | inl e ↦ rw e (readable-InRange ps h.1)
  | inr (m, e) ↦ rw e (h.0.1, readable-InRange ps h.1)
]

insert_point-InRange :
    (p : Point) (ps : List Point) → in_range p.1 ≡ true → InRange ps → InRange (insert_point p ps)
unfolding InRange
insert_point-InRange p [] h hs = (h, tt)
insert_point-InRange p (q ∷ qs) h hs = elim (Bool-cases (leb p.0 q.0)) [
  | inl before ↦ rw before (h, hs)
  | inr after ↦ rw after (hs.0, insert_point-InRange p qs h hs.1)
]

pub sort_points-InRange : (ps : List Point) → InRange ps → InRange (sort_points ps)
unfolding InRange
sort_points-InRange [] h = tt
sort_points-InRange (p ∷ ps) h =
    insert_point-InRange p (sort_points ps) h.0 (sort_points-InRange ps h.1)

abbrev pub BothInRange : Point × Point → Type 0
BothInRange (a, b) = (in_range a.1 ≡ true) × (in_range b.1 ≡ true)

pub segments-InRange :
    (first : Point) (ps : List Point)
    → in_range first.1 ≡ true
    → InRange ps
    → All BothInRange (segments first ps)
unfolding InRange
segments-InRange first [] h hs = tt
segments-InRange first (p ∷ []) h hs = ((hs.0, h), tt)
segments-InRange first (p ∷ q ∷ qs) h hs = ((hs.0, hs.1.0), segments-InRange first (q ∷ qs) h hs.1)

sorted_setpoint-IsSettable :
    (ps : List Point) (mins : ℕ) → InRange ps → Present IsSettable (sorted_setpoint mins ps)
unfolding InRange segment_at
sorted_setpoint-IsSettable [] mins h = tt
sorted_setpoint-IsSettable (p ∷ []) mins h = rounded-IsSettable p.1 (in_range-IsFinite p.1 h.0)
sorted_setpoint-IsSettable (p ∷ q ∷ ps) mins h =
    elim (Option-cases (segment_at mins p (p ∷ q ∷ ps))) [
      | inl e ↦ rw e (rounded-IsSettable p.1 (in_range-IsFinite p.1 h.0))
      | inr ((a, b), e) ↦
          let inside =
            find-All BothInRange (covers mins) (segments p (p ∷ q ∷ ps)) (a, b)
              (segments-InRange p (p ∷ q ∷ ps) h.0 h) e in
          rw e (
            between-IsSettable a.1 b.1 (minutes_from a.0 mins) (span_of a.0 b.0)
              (span_positive a.0 b.0) (in_range-IsFinite a.1 inside.0)
              (in_range-IsFinite b.1 inside.1))
    ]

-- A curve whose mode, fan speed, times and temperatures are as `into_program` accepts them asks at any
-- minute for what passes the checks of the control payload, where `to_uppercase` leaves the names of the
-- modes as they are.
pub curve_request-validate :
    (to_uppercase : String → String) (curve : CurveConfig) (mins : ℕ)
    → ((m : String) → contains operational_modes m ≡ true → to_uppercase m ≡ m)
    → IsCurve curve
    → validate to_uppercase (curve_request curve mins) ≡ ok tt
unfolding curve_request curve_setpoint
curve_request-validate to_uppercase curve mins fixed (mode, fan, points) =
    (validate_iff to_uppercase (curve_request curve mins)).1 (
      sorted_setpoint-IsSettable (sort_points (readable curve.points)) mins
          (sort_points-InRange (readable curve.points) (readable-InRange curve.points points)),
      fan,
      rw (fixed curve.operational_mode mode) mode,
      tt,
    )
