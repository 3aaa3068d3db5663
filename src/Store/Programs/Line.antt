-- ===== src/Store/Programs/Line.antt =====
-- crates/breeze-store/src/programs.rs: the straight line from one temperature of a curve to the next.
use mathlib.Core.Path.{subst}
use native.Mathlib.Nat.{mul-le-mul_right}
use breeze_core_native.Common.{
  ℕ, suc, ◌≤◌, ◌<◌, true, leb, Bool-cases, inl, inr, ◌≡◌, refl, ap, ◌∙◌, arith, zero, ◌+◌, ◌-◌, ◌*◌,
}
use breeze_core_native.Common.Int.{pos, negsuc, sub_ℕ, ◌+ℤ◌, ◌-ℤ◌, times_ℕ}
use breeze_core_native.Auth.Clock.{F64, finite, infinity, neg_infinity, nan}
use breeze_core_native.Store.Control.{in_range, IsSettable}
use breeze_core_native.Store.Programs.{round_ratio, round_ratio-IsSettable}

add_negative : (x y : ℕ) → y ≤ x → pos x +ℤ sub_ℕ 0 y ≡ pos (x - y)
add_negative x zero h = ap pos (omega arith)
add_negative x (suc y) h = ground arith

line_up :
    (at d off k : ℕ)
    → times_ℕ (pos at) (off + k) +ℤ times_ℕ (pos (at + d) -ℤ pos at) off
      ≡ pos (at * k + (at + d) * off)
line_up at d off k =
    let rise : sub_ℕ (at + d) at ≡ pos d = ground arith in rw rise (ap pos (omega arith))

line_down :
    (bt d off k : ℕ)
    → times_ℕ (pos (bt + suc d)) (off + k) +ℤ times_ℕ (pos bt -ℤ pos (bt + suc d)) off
      ≡ pos ((bt + suc d) * k + bt * off)
line_down bt d off k =
    let fall : sub_ℕ bt (bt + suc d) ≡ negsuc d = ground arith in
    rw fall
      (add_negative ((bt + suc d) * (off + k)) ((d + 1) * off) (omega arith) ∙ ap pos (omega arith))

-- The numerator of the straight line.
pub line :
    (at bt off span : ℕ)
    → off < span
    → times_ℕ (pos at) span +ℤ times_ℕ (pos bt -ℤ pos at) off ≡ pos (at * (span - off) + bt * off)
line at bt off span h =
    let whole : off + (span - off) ≡ span = omega arith in
    elim (Bool-cases (leb at bt)) [
      | inl up ↦
          let e : at + (bt - at) ≡ bt = ground arith in
          subst
            (λ t.
              times_ℕ (pos at) t +ℤ times_ℕ (pos bt -ℤ pos at) off
              ≡ pos (at * (span - off) + bt * off))
            whole
            (subst
              (λ b.
                times_ℕ (pos at) (off + (span - off)) +ℤ times_ℕ (pos b -ℤ pos at) off
                ≡ pos (at * (span - off) + b * off))
              e (line_up at (bt - at) off (span - off)))
      | inr down ↦
          let e : bt + suc (at - bt - 1) ≡ at = ground arith in
          subst
            (λ t.
              times_ℕ (pos at) t +ℤ times_ℕ (pos bt -ℤ pos at) off
              ≡ pos (at * (span - off) + bt * off))
            whole
            (subst
              (λ a.
                times_ℕ (pos a) (off + (span - off)) +ℤ times_ℕ (pos bt -ℤ pos a) off
                ≡ pos (a * (span - off) + bt * off))
              e (line_down bt (at - bt - 1) off (span - off)))
    ]

convex :
    (at bt off span : ℕ)
    → off < span
    → (16_000_000 ≤ at) × (at ≤ 30_000_000)
    → (16_000_000 ≤ bt) × (bt ≤ 30_000_000)
    → (16_000_000 * span ≤ at * (span - off) + bt * off)
      × (at * (span - off) + bt * off ≤ 30_000_000 * span)
convex at bt off span h (lo, hi) (lo', hi') =
    let k : ℕ = span - off in
    let whole : span ≡ k + off = omega arith in
    (
      omega (arith, mul-le-mul_right k lo, mul-le-mul_right off lo'),
      omega (arith, mul-le-mul_right k hi, mul-le-mul_right off hi'),
    )

-- A temperature that can be set, at most a quarter of a degree away from the straight line between two
-- temperatures, `off / span` of the way.
abbrev pub IsNearLine : ℕ → ℕ → ℕ → ℕ → ℕ → Type 0
IsNearLine at bt off span v =
    IsSettable (finite (pos v))
    × (v * span ≤ at * (span - off) + bt * off + 250_000 * span)
    × (at * (span - off) + bt * off ≤ v * span + 250_000 * span)

pub ratio-IsNearLine :
    (at bt off span : ℕ)
    → off < span
    → (16_000_000 ≤ at) × (at ≤ 30_000_000)
    → (16_000_000 ≤ bt) × (bt ≤ 30_000_000)
    → IsNearLine at bt off span (round_ratio (pos (at * (span - off) + bt * off)) span)
ratio-IsNearLine at bt off span h a b =
    let (lo, hi) = convex at bt off span h a b in
    let (settable, near) =
      round_ratio-IsSettable (at * (span - off) + bt * off) span (omega arith) in
    elim near [
      | inl low ↦ absurd (omega arith)
      | inr (inl high) ↦ absurd (omega arith)
      | inr (inr (below, above)) ↦ (settable, below, above)
    ]

pub in_range_parts :
    (t : F64)
    → in_range t ≡ true
    → (n : ℕ) × (t ≡ finite (pos n)) × (16_000_000 ≤ n) × (n ≤ 30_000_000)
in_range_parts (finite (pos n)) h = (n, refl, ground arith, ground arith)
in_range_parts (finite (negsuc n)) h = absurd cc
in_range_parts infinity h = absurd cc
in_range_parts neg_infinity h = absurd cc
in_range_parts nan h = absurd cc
