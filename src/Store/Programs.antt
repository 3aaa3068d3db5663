-- ===== src/Store/Programs.antt =====
-- crates/breeze-store/src/programs.rs: the rounding of a curve's temperature and the strict time of
-- day.
pub mod Ingest
pub mod Days
pub mod Accepted
pub mod Curve
pub mod Line
pub mod Segments
pub mod Request
use native.Mathlib.Omega.{div_any}
use native.Mathlib.Nat.{mod-lt, mul-le-mul_right}
use breeze_core_native.Common.{
  ℕ, ◌+◌, ◌-◌, ◌*◌, ◌/◌, ◌%◌, ◌≤◌, ◌<◌, Bool, false, ◌&&◌, String, List, [], ◌∷◌, ltb, leb, ◌==◌,
  if◌then◌else◌, min, max, arith, ap, ◌⊎◌, ◌≡◌, inl, inr, Bool-cases,
}
use breeze_core_native.Common.Int.{ℤ, pos, negsuc}
use breeze_core_native.Common.Texts.{codes}
use breeze_core_native.Auth.Clock.{F64, finite, infinity, neg_infinity, nan}
use breeze_core_native.Store.Control.{temp_min, temp_max, IsSettable}

-- Of a number of half degrees and what is over, in parts of which `span * 1_000_000` make one: the
-- nearest whole number, the even one of two that are as near.
abbrev picked : ℕ → ℕ → ℕ → ℕ
picked lower fraction span =
    if fraction == span * 500_000
    then (if lower % 2 == 0 then lower else lower + 1)
    else if ltb fraction (span * 500_000)
    then lower
    else lower + 1

-- The nearest whole number of half degrees to `t / span` millionths of a degree.
abbrev nearest_half : ℕ → ℕ → ℕ
nearest_half t span = picked (t * 2 / (span * 1_000_000)) (t * 2 % (span * 1_000_000)) span

-- Of `t / span` millionths of a degree, in millionths of a degree. A negative temperature rounds to one
-- that is not positive, which the clamp raises to the least.
unfoldable pub round_ratio : ℤ → ℕ → ℕ
round_ratio (pos t) span = min (max (nearest_half t span * 500_000) temp_min) temp_max
round_ratio (negsuc n) span = temp_min

-- The clamp takes the infinities to the bounds and leaves what is not a number.
unfoldable pub round_half : F64 → F64
round_half (finite t) = finite (pos (round_ratio t 1))
round_half infinity = finite (pos temp_max)
round_half neg_infinity = finite (pos temp_min)
round_half nan = nan

abbrev is_ascii_digit : ℕ → Bool
is_ascii_digit c = leb b'0' c && leb c b'9'

-- On the code points: a text with others than ASCII has no such form.
abbrev hhmm_codes : List ℕ → Bool
hhmm_codes (a ∷ b ∷ c ∷ d ∷ e ∷ []) =
    c == b':'
    && (is_ascii_digit a && (is_ascii_digit b && (is_ascii_digit d && is_ascii_digit e)))
    && (leb ((a - b'0') * 10 + (b - b'0')) 23 && leb ((d - b'0') * 10 + (e - b'0')) 59)
hhmm_codes _ = false

unfoldable pub valid_hhmm : String → Bool
valid_hhmm s = hhmm_codes (codes s)

picked-bounds :
    (t lower fraction span : ℕ)
    → span * 1_000_000 * lower + fraction ≡ t * 2
    → fraction < span * 1_000_000
    → (picked lower fraction span * 500_000 * span ≤ t + 250_000 * span)
      × (t ≤ picked lower fraction span * 500_000 * span + 250_000 * span)
picked-bounds t lower fraction span e h = elim (Bool-cases (fraction == span * 500_000)) [
  | inl half ↦ elim (Bool-cases (lower % 2 == 0)) [
    | inl even ↦ rw (half, even) (ground arith, ground arith)
    | inr odd ↦ rw (half, odd) (ground arith, ground arith)
  ]
  | inr other ↦ elim (Bool-cases (ltb fraction (span * 500_000))) [
    | inl below ↦ rw (other, below) (ground arith, ground arith)
    | inr above ↦ rw (other, above) (ground arith, ground arith)
  ]
]

nearest_half-bounds :
    (t span : ℕ)
    → 0 < span
    → (nearest_half t span * 500_000 * span ≤ t + 250_000 * span)
      × (t ≤ nearest_half t span * 500_000 * span + 250_000 * span)
nearest_half-bounds t span h =
    picked-bounds t (t * 2 / (span * 1_000_000)) (t * 2 % (span * 1_000_000)) span
      (div_any (t * 2) (span * 1_000_000)) (mod-lt (t * 2) (omega arith))

clamped_near :
    (n t span : ℕ)
    → n * span ≤ t + 250_000 * span
    → t ≤ n * span + 250_000 * span
    → (t < 16_000_000 * span)
      ⊎ ((30_000_000 * span < t)
          ⊎ ((min (max n temp_min) temp_max * span ≤ t + 250_000 * span)
              × (t ≤ min (max n temp_min) temp_max * span + 250_000 * span)))
clamped_near n t span lo hi =
    let least : n ≤ 16_000_000 → n * span ≤ 16_000_000 * span = λ h. mul-le-mul_right span h in
    let most : 30_000_000 ≤ n → 30_000_000 * span ≤ n * span = λ h. mul-le-mul_right span h in
    elim (Bool-cases (ltb t (16_000_000 * span))) [
      | inl low ↦ inl (ground arith)
      | inr high ↦ elim (Bool-cases (ltb (30_000_000 * span) t)) [
        | inl above ↦ inr (inl (ground arith))
        | inr below ↦ elim (Bool-cases (leb n 16_000_000)) [
          | inl small ↦
              inr (inr (ground (arith, least (ground arith)), ground (arith, least (ground arith))))
          | inr other ↦ elim (Bool-cases (leb 30_000_000 n)) [
            | inl large ↦
                inr (inr (ground (arith, most (ground arith)), ground (arith, most (ground arith))))
            | inr middle ↦
                let same : min (max n 16_000_000) 30_000_000 ≡ n = ground arith in
                inr (inr (rw same lo, rw same hi))
          ]
        ]
      ]
    ]

-- `round_half` answers a whole number of half degrees from 16 to 30 for every number; and for one in that
-- range, none that is more than a quarter of a degree away.
pub round_ratio-IsSettable :
    (t span : ℕ)
    → 0 < span
    → IsSettable (finite (pos (round_ratio (pos t) span)))
      × ((t < 16_000_000 * span)
          ⊎ ((30_000_000 * span < t)
              ⊎ ((round_ratio (pos t) span * span ≤ t + 250_000 * span)
                  × (t ≤ round_ratio (pos t) span * span + 250_000 * span))))
unfolding round_ratio
round_ratio-IsSettable t span h =
    let k = min (max (nearest_half t span) 32) 60 in
    let (lo, hi) = nearest_half-bounds t span h in
    (
      (k, omega arith, omega arith, ap (λ n. finite (pos n)) (omega arith)),
      clamped_near (nearest_half t span * 500_000) t span lo hi,
    )
