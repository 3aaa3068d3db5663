-- ===== src/Proto/Packet/RoundTrip.antt =====
-- `decode` of crates/breeze-proto/src/packet.rs reads back what `encode_at` wraps.
use mathlib.Core.List.{append_assoc}
use breeze_core_native.Common.{
  ℕ, ◌+◌, ◌-◌, ◌*◌, ◌/◌, ◌%◌, ◌^◌, ◌≤◌, ◌<◌, ◌≡◌, refl, ◌∙◌, List, [], ◌∷◌, ◌++◌, length, ok, arith,
  length-append, take-append, drop-append,
}
use breeze_core_native.Common.Bytes.{AreBytes, bytes_eq_refl}
use breeze_core_native.Proto.Security.{Aes, enc_key, sign, encrypt_aes, decrypt_aes}
use breeze_core_native.Proto.Security.Cbc.{IsCipher}
use breeze_core_native.Proto.Security.Ecb.{decrypt_aes-encrypt_aes}
use breeze_core_native.Proto.Packet.{header, to_le64, encode_at, decode_cut, decode}

pub length-header :
    (device_id len : ℕ) (ts : List ℕ) → length ts ≡ 8 → length (header device_id len ts) ≡ 40
length-header device_id len ts e = omega (
  arith,
  length-append ts (to_le64 device_id ++ (0 ∷ 0 ∷ 0 ∷ 0 ∷ 0 ∷ 0 ∷ 0 ∷ 0 ∷ 0 ∷ 0 ∷ 0 ∷ 0 ∷ [])),
)

module _ (aes : Aes) (md5 : List ℕ → List ℕ) where
  decode_cut-parts :
      (head body digest frame : List ℕ)
      → length head ≡ 40
      → length digest ≡ 16
      → digest ≡ sign md5 (head ++ body)
      → decrypt_aes aes md5 body ≡ ok frame
      → decode_cut aes md5 ((head ++ body) ++ digest) ≡ ok frame
  unfolding decode_cut
  decode_cut-parts head body digest frame h d s e = ground (
    arith,
    length-append (head ++ body) digest,
    length-append head body,
    append_assoc head body digest,
    take-append (length ((head ++ body) ++ digest) - 16) (head ++ body) digest,
    drop-append (length ((head ++ body) ++ digest) - 16) (head ++ body) digest,
    drop-append 40 head (body ++ digest),
    take-append (length ((head ++ body) ++ digest) - 16 - 40) body digest,
    bytes_eq_refl digest,
  )

  decode-cut :
      (device_id len : ℕ) (ts body digest junk : List ℕ)
      → length ts ≡ 8
      → length digest ≡ 16
      → len ≡ length body + 56
      → len < 65536
      → decode aes md5 (((header device_id len ts ++ body) ++ digest) ++ junk)
        ≡ decode_cut aes md5 ((header device_id len ts ++ body) ++ digest)
  unfolding decode
  decode-cut device_id len ts body digest junk t d e small = ground (
    arith,
    length-append ((header device_id len ts ++ body) ++ digest) junk,
    length-append (header device_id len ts ++ body) digest,
    length-append (header device_id len ts) body,
    length-header device_id len ts t,
    take-append (len / 256 * 256 + len % 256) ((header device_id len ts ++ body) ++ digest) junk,
  )

  -- A frame of up to 65000 bytes that `encode_at` wraps for any unit and time is read back by
  -- `decode`, whatever follows the packet: where the block cipher is undone under the fixed key and
  -- a digest is 16 bytes long.
  pub decode-encode_at :
      (device_id : ℕ) (frame ts junk : List ℕ)
      → IsCipher aes (enc_key md5)
      → ((bytes : List ℕ) → length (md5 bytes) ≡ 16)
      → AreBytes frame
      → length frame ≤ 65000
      → length ts ≡ 8
      → decode aes md5 (encode_at aes md5 device_id frame ts ++ junk) ≡ ok frame
  unfolding encode_at sign
  decode-encode_at device_id frame ts junk c size bytes short t =
      let (undone, grown) = decrypt_aes-encrypt_aes aes md5 frame c bytes in
      let body = encrypt_aes aes md5 frame in
      let len = (40 + length body + 16) % 2 ^ 16 in
      let head = header device_id len ts in
      let digest = sign md5 (head ++ body) in
      decode-cut device_id len ts body digest junk t (size _) (omega (arith, grown)) (omega arith)
      ∙ decode_cut-parts head body digest frame (length-header device_id len ts t) (size _) refl
          undone
