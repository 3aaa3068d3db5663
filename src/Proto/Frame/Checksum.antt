-- ===== src/Proto/Frame/Checksum.antt =====
-- The frame checksum of crates/breeze-proto/src/frame.rs as plain arithmetic on the byte sum.
use breeze_core_native.Common.{
  ℕ, zero, suc, ◌+◌, ◌-◌, ◌%◌, ◌<◌, ◌≡◌, ◌≢◌, ◌∙◌, List, [], ◌∷◌, ◌++◌, foldl, arith, length,
  get_or, set,
}
use breeze_core_native.Common.Bytes.{wrapping_add, IsByte, AreBytes, get_or-IsByte}
use breeze_core_native.Proto.Frame.{checksum}

abbrev pub sum : List ℕ → ℕ
sum [] = 0
sum (b ∷ bs) = b + sum bs

foldl-wrapping_add :
    (acc : ℕ) (bs : List ℕ) → acc < 256 → foldl wrapping_add acc bs ≡ (acc + sum bs) % 256
foldl-wrapping_add acc [] h = omega arith
foldl-wrapping_add acc (b ∷ bs) h =
    foldl-wrapping_add ((acc + b) % 256) bs (omega arith) ∙ omega arith

pub checksum-sum : (bs : List ℕ) → checksum bs ≡ (256 - sum bs % 256) % 256
unfolding checksum
checksum-sum bs = omega (arith, foldl-wrapping_add 0 bs (omega arith))

pub checksum-IsByte : (bs : List ℕ) → IsByte (checksum bs)
checksum-IsByte bs = omega (arith, checksum-sum bs)

pub sum-append : (xs ys : List ℕ) → sum (xs ++ ys) ≡ sum xs + sum ys
sum-append [] ys = omega arith
sum-append (x ∷ xs) ys = omega (arith, sum-append xs ys)

sum-set : (xs : List ℕ) (i b : ℕ) → i < length xs → sum (set xs i b) + get_or xs i 0 ≡ sum xs + b
sum-set [] i b h = absurd (omega arith)
sum-set (x ∷ xs) zero b h = omega arith
sum-set (x ∷ xs) (suc i) b h = omega (arith, sum-set xs i b (omega arith))

-- One changed byte always changes the checksum.
pub checksum-set_ne :
    (xs : List ℕ) (i b : ℕ)
    → AreBytes xs
    → IsByte b
    → i < length xs
    → b ≢ get_or xs i 0
    → checksum (set xs i b) ≢ checksum xs
checksum-set_ne xs i b hx hb hi ne e = ne (
    omega (
      arith,
      e,
      checksum-sum xs,
      checksum-sum (set xs i b),
      sum-set xs i b hi,
      get_or-IsByte xs i hx,
    ))
