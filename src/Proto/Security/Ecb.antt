-- ===== src/Proto/Security/Ecb.antt =====
-- The padded encryption of crates/breeze-proto/src/security.rs under the fixed key is undone, where
-- the block cipher's is.
use breeze_core_native.Common.{
  ℕ, zero, suc, ◌+◌, ◌-◌, ◌*◌, ◌/◌, ◌%◌, ◌≤◌, ◌<◌, ◌≡◌, refl, sym, List, [], ◌∷◌, ◌++◌, length,
  take, drop, get_or, replicate, ok, arith, length-append, length-replicate, length-take,
  length-drop, take-append, drop-append, take-append-drop,
}
use breeze_core_native.Common.Bytes.{IsByte, AreBytes}
use breeze_core_native.Proto.Security.{
  Aes, chunks, encrypt_each, decrypt_each, enc_key, pkcs7, unpadded, encrypt_aes, decrypt_aes,
}
use breeze_core_native.Proto.Security.Cbc.{IsCipher, AreBytes-take, AreBytes-drop}

pub AreBytes-append : (xs ys : List ℕ) → AreBytes xs → AreBytes ys → AreBytes (xs ++ ys)
AreBytes-append [] ys hx hy = hy
AreBytes-append (x ∷ xs) ys hx hy = (hx.0, AreBytes-append xs ys hx.1 hy)

pub AreBytes-replicate : (n b : ℕ) → IsByte b → AreBytes (replicate n b)
AreBytes-replicate zero b h = tt
AreBytes-replicate (suc n) b h = (h, AreBytes-replicate n b h)

chunks-each_back :
    (aes : Aes) (key : List ℕ) (n : ℕ) (xs : List ℕ)
    → IsCipher aes key
    → AreBytes xs
    → length xs ≡ n * 16
    → (length (encrypt_each aes key (chunks n xs)) ≡ n * 16)
      × (decrypt_each aes key (chunks n (encrypt_each aes key (chunks n xs))) ≡ xs)
unfolding chunks encrypt_each decrypt_each
chunks-each_back aes key zero [] c hx e = (refl, refl)
chunks-each_back aes key zero (x ∷ xs) c hx e = absurd (omega arith)
chunks-each_back aes key (suc n) xs c hx e =
    let (encrypted, undone) =
      c (take 16 xs) (omega (arith, length-take 16 xs), AreBytes-take 16 xs hx) in
    let b = aes.encrypt_block key (take 16 xs) in
    let more = encrypt_each aes key (chunks n (drop 16 xs)) in
    let (rest_len, rest_back) =
      chunks-each_back aes key n (drop 16 xs) c (AreBytes-drop 16 xs hx)
        (omega (arith, length-drop 16 xs)) in
    (
      omega (arith, length-append b more, rest_len, encrypted.0),
      rw
          (
            take-append 16 b more (sym encrypted.0),
            drop-append 16 b more (sym encrypted.0),
            undone,
            rest_back,
          )
          (take-append-drop 16 xs),
    )

get_or-replicate :
    (xs : List ℕ) (n b i : ℕ)
    → length xs ≤ i
    → i < length xs + n
    → get_or (xs ++ replicate n b) i 0 ≡ b
get_or-replicate [] zero b i lo hi = absurd (omega arith)
get_or-replicate [] (suc n) b zero lo hi = refl
get_or-replicate [] (suc n) b (suc i) lo hi = get_or-replicate [] n b i (omega arith) (omega arith)
get_or-replicate (x ∷ xs) n b zero lo hi = absurd (omega arith)
get_or-replicate (x ∷ xs) n b (suc i) lo hi = get_or-replicate xs n b i (omega arith) (omega arith)

pub length-pkcs7 : (data' : List ℕ) → length (pkcs7 data') ≡ length data' + (16 - length data' % 16)
length-pkcs7 data' = omega (
  arith,
  length-append data' (replicate (16 - length data' % 16) (16 - length data' % 16)),
  length-replicate (16 - length data' % 16) (16 - length data' % 16),
)

unpadded-pkcs7 : (data' : List ℕ) → unpadded (pkcs7 data') ≡ ok data'
unpadded-pkcs7 data' =
    let pad = 16 - length data' % 16 in
    ground (
      arith,
      length-pkcs7 data',
      get_or-replicate data' pad pad (length (pkcs7 data') - 1),
      take-append (length (pkcs7 data') - pad) data' (replicate pad pad),
    )

module _ (aes : Aes) (md5 : List ℕ → List ℕ) where
  -- Decryption of a padded encryption gives the data back, of any length, and the encryption is
  -- at most a block longer, a whole number of blocks and not empty.
  pub decrypt_aes-encrypt_aes :
      (data' : List ℕ)
      → IsCipher aes (enc_key md5)
      → AreBytes data'
      → (decrypt_aes aes md5 (encrypt_aes aes md5 data') ≡ ok data')
        × (length (encrypt_aes aes md5 data') ≡ length data' + (16 - length data' % 16))
  unfolding encrypt_aes decrypt_aes
  decrypt_aes-encrypt_aes data' c h =
      let pad = 16 - length data' % 16 in
      let buf = pkcs7 data' in
      let n = length buf / 16 in
      let size = length-pkcs7 data' in
      let (len, back) =
        chunks-each_back aes (enc_key md5) n buf c
          (AreBytes-append data' (replicate pad pad) h (AreBytes-replicate pad pad (omega arith)))
          (omega (arith, size)) in
      let out = encrypt_each aes (enc_key md5) (chunks n buf) in
      let count : length out / 16 ≡ n = omega (arith, len) in
      (ground (arith, len, size, back, count, unpadded-pkcs7 data'), omega (arith, len, size))
