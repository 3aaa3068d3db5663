-- ===== src/Proto/Security/Cbc.antt =====
-- Decryption undoes encryption in crates/breeze-proto/src/security.rs, where the block cipher's does.
use Prim.Native.Nat.{bit_xor}
use breeze_core_native.Common.{
  ℕ, zero, suc, ◌*◌, ◌/◌, ◌%◌, ◌≡◌, refl, sym, ap, ◌∙◌, true, ◌&&◌, List, [], ◌∷◌, ltb, ◌==◌,
  length, take, drop, ok, arith, length-append, length-take, length-drop, take-append, drop-append,
  take-append-drop,
}
use breeze_core_native.Common.Bytes.{all_below, all_below_sound, IsByte, AreBytes}
use breeze_core_native.Proto.Security.{
  Aes, xor_bytes, chunks, zero_block, encrypt_chunks, decrypt_chunks, encrypt_aes_cbc,
  decrypt_aes_cbc,
}

xor_table :
    all_below 256 (λ a. all_below 256 (λ b. bit_xor (bit_xor a b) b == a && ltb (bit_xor a b) 256))
    ≡ true
unfolding all_below
xor_table = refl

xor_back : (a b : ℕ) → IsByte a → IsByte b → (bit_xor (bit_xor a b) b ≡ a) × IsByte (bit_xor a b)
xor_back a b ha hb =
    let row =
      all_below_sound 256
        (λ a. all_below 256 (λ b. bit_xor (bit_xor a b) b == a && ltb (bit_xor a b) 256)) a
        xor_table ha in
    let entry =
      all_below_sound 256 (λ b. bit_xor (bit_xor a b) b == a && ltb (bit_xor a b) 256) b row hb in
    ground arith

pub AreBytes-take : (n : ℕ) (xs : List ℕ) → AreBytes xs → AreBytes (take n xs)
AreBytes-take zero xs h = tt
AreBytes-take (suc n) [] h = tt
AreBytes-take (suc n) (x ∷ xs) h = (h.0, AreBytes-take n xs h.1)

pub AreBytes-drop : (n : ℕ) (xs : List ℕ) → AreBytes xs → AreBytes (drop n xs)
AreBytes-drop zero xs h = h
AreBytes-drop (suc n) [] h = tt
AreBytes-drop (suc n) (x ∷ xs) h = AreBytes-drop n xs h.1

-- Sixteen bytes.
abbrev pub IsBlock : List ℕ → Type 0
IsBlock block = (length block ≡ 16) × AreBytes block

xor_bytes_back :
    (xs ys : List ℕ)
    → AreBytes xs
    → AreBytes ys
    → length xs ≡ length ys
    → (xor_bytes (xor_bytes xs ys) ys ≡ xs)
      × AreBytes (xor_bytes xs ys)
      × (length (xor_bytes xs ys) ≡ length xs)
unfolding xor_bytes
xor_bytes_back [] [] hx hy e = (refl, tt, refl)
xor_bytes_back [] (y ∷ ys) hx hy e = absurd (omega arith)
xor_bytes_back (x ∷ xs) [] hx hy e = absurd (omega arith)
xor_bytes_back (x ∷ xs) (y ∷ ys) hx hy e =
    let (back, bytes, len) = xor_bytes_back xs ys hx.1 hy.1 (omega arith) in
    let (same, byte) = xor_back x y hx.0 hy.0 in
    (
      ap (λ t. t ∷ xor_bytes (xor_bytes xs ys) ys) same ∙ ap (λ t. x ∷ t) back,
      (byte, bytes),
      ap suc len,
    )

-- The block cipher is undone on blocks, under this key.
abbrev pub IsCipher : Aes → List ℕ → Type 0
IsCipher aes key =
    (block : List ℕ)
    → IsBlock block
    → IsBlock (aes.encrypt_block key block)
      × (aes.decrypt_block key (aes.encrypt_block key block) ≡ block)

module _ (aes : Aes) (key : List ℕ) where
  chunks-back :
      (n : ℕ) (prev xs : List ℕ)
      → IsCipher aes key
      → IsBlock prev
      → AreBytes xs
      → length xs ≡ n * 16
      → (length (encrypt_chunks aes key prev (chunks n xs)) ≡ n * 16)
        × (decrypt_chunks aes key prev (chunks n (encrypt_chunks aes key prev (chunks n xs))) ≡ xs)
  unfolding chunks encrypt_chunks decrypt_chunks
  chunks-back zero prev [] c hp hx e = (refl, refl)
  chunks-back zero prev (x ∷ xs) c hp hx e = absurd (omega arith)
  chunks-back (suc n) prev xs c hp hx e =
      let chunk = take 16 xs in
      let rest = drop 16 xs in
      let (back, bytes, len) =
        xor_bytes_back chunk prev (AreBytes-take 16 xs hx) hp.1
          (omega (arith, hp.0, length-take 16 xs)) in
      let mixed = xor_bytes chunk prev in
      let (encrypted, undone) = c mixed (omega (arith, len, length-take 16 xs), bytes) in
      let b = aes.encrypt_block key mixed in
      let more = encrypt_chunks aes key b (chunks n rest) in
      let (rest_len, rest_back) =
        chunks-back n b rest c encrypted (AreBytes-drop 16 xs hx)
          (omega (arith, length-drop 16 xs)) in
      (
        omega (arith, length-append b more, rest_len, encrypted.0),
        rw
            (
              take-append 16 b more (sym encrypted.0),
              drop-append 16 b more (sym encrypted.0),
              undone,
              back,
              rest_back,
            )
            (take-append-drop 16 xs),
      )

  -- Decryption of an encryption gives the data back, for whole blocks of bytes, and the encryption
  -- is as long as the data.
  pub decrypt_aes_cbc-encrypt_aes_cbc :
      (data' : List ℕ)
      → IsCipher aes key
      → AreBytes data'
      → length data' % 16 ≡ 0
      → (encrypted : List ℕ) × (encrypt_aes_cbc aes key data' ≡ ok encrypted)
        × (length encrypted ≡ length data')
        × (decrypt_aes_cbc aes key encrypted ≡ ok data')
  unfolding encrypt_aes_cbc decrypt_aes_cbc
  decrypt_aes_cbc-encrypt_aes_cbc data' c h e =
      let n = length data' / 16 in
      let (len, back) = chunks-back n zero_block data' c (refl, omega arith) h (omega arith) in
      let encrypted = encrypt_chunks aes key zero_block (chunks n data') in
      let same : length encrypted ≡ length data' = omega arith in
      (encrypted, ground arith, same, ground (arith, back))
