-- ===== src/Auth/Clock.antt =====
-- The `f64` seconds of crates/breeze-auth as whole microseconds: every time the server takes from
-- its own clock (crates/breeze-auth/src/signing.rs, `now_seconds`) is a natural number of them. A
-- parsed `f64` is a finite number of microseconds or one of the values that are not finite.
use breeze_core_native.Common.{ℕ, ◌+◌, ◌*◌, Bool, ◌&&◌, leb}
use breeze_core_native.Common.Int.{ℤ, pos, negsuc}

abbrev pub micros : ℕ → ℕ
micros seconds = seconds * 1_000_000

pub data F64 : Type 0 where
  finite : ℤ → F64
  infinity : F64
  neg_infinity : F64
  nan : F64

-- `(now - ts).abs() <= bound`.
abbrev pub within : ℕ → ℤ → ℕ → Bool
within now (pos ts) bound = leb now (ts + bound) && leb ts (now + bound)
within now (negsuc n) bound = leb (now + n + 1) bound
