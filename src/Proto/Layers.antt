-- ===== src/Proto/Layers.antt =====
-- The three layers of crates/breeze-proto on top of each other: the frame of src/frame.rs in the V2
-- packet of src/packet.rs in the V3 packet of src/lan.rs, as a unit answers the server.
use breeze_core_native.Common.{
  ℕ, zero, suc, ◌+◌, ◌-◌, ◌*◌, ◌/◌, ◌%◌, ◌^◌, ◌≤◌, ◌<◌, ◌≡◌, sym, ap, ◌∙◌, some, List, [], ◌∷◌,
  ◌++◌, length, take, drop, replicate, ok, arith, length-append, length-take, length-drop,
}
use mathlib.Core.List.{append-nil}
use breeze_core_native.Common.Bytes.{IsByte, AreBytes}
use breeze_core_native.Proto.Frame.{DeviceType, FrameType, checksum, build, parse}
use breeze_core_native.Proto.Frame.Checksum.{checksum-IsByte}
use breeze_core_native.Proto.Frame.RoundTrip.{
  header_tail, header_tail-AreBytes, length-build, parse-build,
}
use breeze_core_native.Proto.Security.{
  Aes, chunks, encrypt_each, enc_key, pkcs7, encrypt_aes, sign, sign_key,
}
use breeze_core_native.Proto.Security.Cbc.{IsCipher, AreBytes-take, AreBytes-drop}
use breeze_core_native.Proto.Security.Ecb.{
  AreBytes-append, AreBytes-replicate, length-pkcs7, decrypt_aes-encrypt_aes,
}
use breeze_core_native.Proto.Packet.{header, to_le64, encode_at, decode as decode_packet}
use breeze_core_native.Proto.Packet.RoundTrip.{length-header, decode-encode_at}
use breeze_core_native.Proto.Lan.{response, encrypted_response, encode_encrypted, decode}
use breeze_core_native.Proto.Lan.Session.{decode-encode_encrypted}

build-AreBytes :
    (d : DeviceType) (t : FrameType) (payload : List ℕ)
    → AreBytes payload
    → AreBytes (build d t payload)
unfolding build
build-AreBytes d t payload h = (
  omega arith,
  AreBytes-append (header_tail d t (length payload) ++ payload)
      (checksum (header_tail d t (length payload) ++ payload) ∷ [])
      (header_tail-AreBytes d t (length payload) payload h)
      (checksum-IsByte (header_tail d t (length payload) ++ payload), tt),
)

encrypt_each-AreBytes :
    (aes : Aes) (key : List ℕ) (n : ℕ) (xs : List ℕ)
    → IsCipher aes key
    → AreBytes xs
    → length xs ≡ n * 16
    → AreBytes (encrypt_each aes key (chunks n xs))
unfolding encrypt_each chunks
encrypt_each-AreBytes aes key zero xs c h e = tt
encrypt_each-AreBytes aes key (suc n) xs c h e =
    let (encrypted, undone) =
      c (take 16 xs) (omega (arith, length-take 16 xs), AreBytes-take 16 xs h) in
    AreBytes-append (aes.encrypt_block key (take 16 xs)) _ encrypted.1 (
      encrypt_each-AreBytes aes key n (drop 16 xs) c (AreBytes-drop 16 xs h)
        (omega (arith, length-drop 16 xs)))

module _ (aes : Aes) (md5 : List ℕ → List ℕ) where
  encrypt_aes-AreBytes :
      (data' : List ℕ)
      → IsCipher aes (enc_key md5)
      → AreBytes data'
      → AreBytes (encrypt_aes aes md5 data')
  unfolding encrypt_aes
  encrypt_aes-AreBytes data' c h =
      let pad = 16 - length data' % 16 in
      encrypt_each-AreBytes aes (enc_key md5) (length (pkcs7 data') / 16) (pkcs7 data') c
        (AreBytes-append data' (replicate pad pad) h (AreBytes-replicate pad pad (omega arith)))
        (omega (arith, length-pkcs7 data'))

  encode_at-AreBytes :
      (device_id : ℕ) (frame ts : List ℕ)
      → IsCipher aes (enc_key md5)
      → ((bytes : List ℕ) → AreBytes (md5 bytes))
      → AreBytes frame
      → AreBytes ts
      → AreBytes (encode_at aes md5 device_id frame ts)
  unfolding encode_at sign
  encode_at-AreBytes device_id frame ts c digest h t =
      let body = encrypt_aes aes md5 frame in
      let len = (40 + length body + 16) % 2 ^ 16 in
      let ids : AreBytes
          (to_le64 device_id ++ (0 ∷ 0 ∷ 0 ∷ 0 ∷ 0 ∷ 0 ∷ 0 ∷ 0 ∷ 0 ∷ 0 ∷ 0 ∷ 0 ∷ [])) =
        omega arith in
      let head : AreBytes (header device_id len ts) = (
        omega arith,
        (
          omega arith,
          (
            omega arith,
            (
              omega arith,
              (
                omega arith,
                (
                  omega arith,
                  (
                    omega arith,
                    (
                      omega arith,
                      (
                        omega arith,
                        (omega arith, (omega arith, (omega arith, AreBytes-append ts _ t ids))),
                      ),
                    ),
                  ),
                ),
              ),
            ),
          ),
        ),
      ) in
      AreBytes-append (header device_id len ts ++ body) _
        (AreBytes-append (header device_id len ts) body head (encrypt_aes-AreBytes frame c h))
        (digest _)

  length-encode_at :
      (device_id : ℕ) (frame ts : List ℕ)
      → IsCipher aes (enc_key md5)
      → ((bytes : List ℕ) → length (md5 bytes) ≡ 16)
      → AreBytes frame
      → length ts ≡ 8
      → length (encode_at aes md5 device_id frame ts) ≤ length frame + 72
  unfolding encode_at sign
  length-encode_at device_id frame ts c size h t =
      let body = encrypt_aes aes md5 frame in
      let len = (40 + length body + 16) % 2 ^ 16 in
      let head = header device_id len ts in
      let (undone, grown) = decrypt_aes-encrypt_aes aes md5 frame c h in
      omega (
        arith,
        length-append (head ++ body) (sign md5 (head ++ body)),
        length-append head body,
        length-header device_id len ts t,
        size ((head ++ body) ++ sign_key),
        grown,
      )

module _ (aes : Aes) (md5 sha256 : List ℕ → List ℕ) where
  -- A unit's answer of up to 245 bytes, framed, wrapped in a V2 packet and sealed in a V3 session,
  -- comes back through the server's three decoders, whatever follows in the stream: where the block
  -- cipher is undone under the fixed key and the session key, an MD5 digest is 16 bytes and a
  -- SHA-256 digest 32 bytes long.
  pub layers-round_trip :
      (session_key payload ts junk : List ℕ) (device_id packet_id pad_filler : ℕ) (d : DeviceType)
      (t : FrameType)
      → IsCipher aes (enc_key md5)
      → IsCipher aes session_key
      → ((bytes : List ℕ) → (length (md5 bytes) ≡ 16) × AreBytes (md5 bytes))
      → ((bytes : List ℕ) → length (sha256 bytes) ≡ 32)
      → AreBytes payload
      → length payload ≤ 245
      → AreBytes ts
      → length ts ≡ 8
      → packet_id < 65536
      → IsByte pad_filler
      → (sealed : List ℕ) × (packet : List ℕ) × (frame : List ℕ) × (encode_encrypted sha256 aes
            session_key packet_id
            (encode_at aes md5 device_id (build d t payload) ts)
            pad_filler
            encrypted_response
          ≡ ok sealed)
        × (decode sha256 aes (sealed ++ junk) (some session_key) ≡ ok (response packet))
        × (decode_packet aes md5 packet ≡ ok frame)
        × (parse frame d ≡ ok payload)
  layers-round_trip session_key payload ts junk device_id packet_id pad_filler d t fixed session
        md5_out sha_out bytes short ts_bytes ts_len id filler =
      let frame = build d t payload in
      let frame_bytes = build-AreBytes d t payload bytes in
      let frame_len = length-build d t payload in
      let packet = encode_at aes md5 device_id frame ts in
      let packet_len =
        length-encode_at aes md5 device_id frame ts fixed (λ b. (md5_out b).0) frame_bytes ts_len in
      let packet_bytes =
        encode_at-AreBytes aes md5 device_id frame ts fixed (λ b. (md5_out b).1) frame_bytes
          ts_bytes in
      let (sealed, made, read) =
        decode-encode_encrypted sha256 aes session_key packet junk packet_id pad_filler session
          sha_out packet_bytes (omega (arith, packet_len, frame_len)) id filler in
      let unwrapped =
        decode-encode_at aes md5 device_id frame ts [] fixed (λ b. (md5_out b).0) frame_bytes
          (omega (arith, frame_len)) ts_len in
      let parsed = parse-build d t payload [] short in
      (
        sealed,
        packet,
        frame,
        made,
        read,
        ap (λ p. decode_packet aes md5 p) (sym (append-nil packet)) ∙ unwrapped,
        ap (λ f. parse f d) (sym (append-nil frame)) ∙ parsed,
      )
