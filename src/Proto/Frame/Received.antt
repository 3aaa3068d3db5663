-- ===== src/Proto/Frame/Received.antt =====
-- Which received frames make `parse` of crates/breeze-proto/src/frame.rs panic, and what an
-- accepted frame looks like.
use breeze_core_native.Common.{
  ℕ, zero, suc, ◌+◌, ◌-◌, ◌%◌, ◌≤◌, ◌<◌, ◌≡◌, ◌≢◌, ap, List, [], ◌∷◌, arith, length, length-take,
  get_or, take, drop, slice, ok, panic,
}
use breeze_core_native.Proto.Frame.{DeviceType, device_byte, parse_cut, parse}
use breeze_core_native.Proto.Frame.Checksum.{checksum-sum, sum}

-- A frame of at least ten bytes whose length byte is 0 panics: the body slice is `1..0`.
pub parse_panics :
    (d : DeviceType) (frame : List ℕ)
    → 10 ≤ length frame
    → get_or frame 1 0 ≡ 0
    → parse frame d ≡ panic
unfolding parse slice
parse_panics d (a ∷ b ∷ rest) h e = ground arith
parse_panics d _ h e = absurd (omega arith)

parse_cut-ne-panic : (d : DeviceType) (cut : List ℕ) → 11 ≤ length cut → parse_cut cut d ≢ panic
unfolding parse_cut slice
parse_cut-ne-panic d cut h e = ground arith

-- A frame whose length byte counts at least the header never panics.
pub parse-ne-panic :
    (d : DeviceType) (frame : List ℕ) → 10 ≤ get_or frame 1 0 → parse frame d ≢ panic
unfolding parse
parse-ne-panic d frame h e = ground (
  arith,
  parse_cut-ne-panic d (take (get_or frame 1 0 + 1) frame),
  length-take (get_or frame 1 0 + 1) frame,
)

sum-take_last : (m : ℕ) (bs : List ℕ) → length bs ≡ m + 1 → sum bs ≡ sum (take m bs) + get_or bs m 0
sum-take_last m [] h = absurd (omega arith)
sum-take_last zero (b ∷ []) h = omega arith
sum-take_last zero (b ∷ c ∷ bs) h = absurd (omega arith)
sum-take_last (suc m) (b ∷ bs) h = omega (arith, sum-take_last m bs (omega arith))

get_or-cons : (a : ℕ) (xs : List ℕ) (n : ℕ) → 0 < n → get_or (a ∷ xs) n 0 ≡ get_or xs (n - 1) 0
get_or-cons a xs zero h = absurd (omega arith)
get_or-cons a xs (suc n) h = ap (λ k. get_or xs k 0) (omega arith)

payload_range : (n : ℕ) → suc n - 1 - 10 ≡ suc n - 11
payload_range n = omega arith

-- What `parse_cut` has checked of a cut frame when it answers a payload.
abbrev pub Accepted : DeviceType → List ℕ → List ℕ → Type 0
Accepted d cut payload =
    (11 ≤ length cut)
    × (get_or cut 2 0 ≡ device_byte d)
    × (sum (drop 1 cut) % 256 ≡ 0)
    × (payload ≡ take (length cut - 11) (drop 10 cut))

parse_cut-Accepted :
    (d : DeviceType) (cut payload : List ℕ) → parse_cut cut d ≡ ok payload → Accepted d cut payload
unfolding parse_cut slice
parse_cut-Accepted d [] payload e = ground arith
parse_cut-Accepted d (a ∷ rest) payload e = ground (
  arith,
  sum-take_last (suc (length rest) - 1 - 1) rest,
  checksum-sum (take (suc (length rest) - 1 - 1) rest),
  get_or-cons a rest (suc (length rest) - 1),
  payload_range (length rest),
)

-- `parse` answers a payload only for a frame that is at least as long as its length byte says, whose bytes behind the
-- start byte sum to 0 modulo 256, and that carries the expected device type; the payload is what
-- stands between the header and the checksum.
pub parse-ok :
    (d : DeviceType) (frame payload : List ℕ)
    → parse frame d ≡ ok payload
    → (get_or frame 1 0 < length frame) × Accepted d (take (get_or frame 1 0 + 1) frame) payload
unfolding parse
parse-ok d frame payload e =
    ground (arith, parse_cut-Accepted d (take (get_or frame 1 0 + 1) frame) payload)
