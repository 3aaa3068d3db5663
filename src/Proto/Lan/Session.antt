-- ===== src/Proto/Lan/Session.antt =====
-- What `encode_encrypted` of crates/breeze-proto/src/lan.rs sends, `decode` reads back.
use Prim.Native.Nat.{bit_and}
use breeze_core_native.Common.{
  ℕ, ◌+◌, ◌-◌, ◌*◌, ◌/◌, ◌%◌, ◌^◌, ◌≤◌, ◌<◌, ◌≡◌, refl, ◌∙◌, true, ◌&&◌, Option, some, List, ◌++◌,
  ◌==◌, length, replicate, get_or, ok, arith, length-append, length-replicate, take-append,
  drop-append,
}
use breeze_core_native.Common.Bytes.{all_below, all_below_sound, IsByte, AreBytes, bytes_eq_refl}
use breeze_core_native.Proto.Security.{Aes, decrypt_aes_cbc}
use breeze_core_native.Proto.Security.Ecb.{AreBytes-append, AreBytes-replicate}
use breeze_core_native.Proto.Security.Cbc.{IsCipher, decrypt_aes_cbc-encrypt_aes_cbc}
use breeze_core_native.Proto.Lan.{
  PacketType, encrypted_response, header, to_be, padding, flags_of, response, encode_encrypted,
  opened, decode_encrypted, decode_cut, decode,
}

flags_table :
    all_below 16 (λ pad.
      bit_and (flags_of pad encrypted_response) 0xF == 3
      && flags_of pad encrypted_response / 16 == pad)
    ≡ true
unfolding all_below
flags_table = refl

flags_of-parts :
    (pad : ℕ)
    → pad < 16
    → (bit_and (flags_of pad encrypted_response) 0xF ≡ 3)
      × (flags_of pad encrypted_response / 16 ≡ pad)
flags_of-parts pad h =
    let row =
      all_below_sound 16
        (λ pad.
          bit_and (flags_of pad encrypted_response) 0xF == 3
          && flags_of pad encrypted_response / 16 == pad)
        pad flags_table h in
    ground arith

-- The bytes that are encrypted: the packet id, the data and the padding.
abbrev body : ℕ → List ℕ → ℕ → List ℕ
body packet_id data' pad_filler =
    to_be packet_id ++ (data' ++ replicate (padding (length data')) pad_filler)

length-body :
    (packet_id : ℕ) (data' : List ℕ) (pad_filler : ℕ)
    → length (body packet_id data' pad_filler) ≡ length data' + padding (length data') + 2
length-body packet_id data' pad_filler = ground (
  arith,
  length-append data' (replicate (padding (length data')) pad_filler),
  length-replicate (padding (length data')) pad_filler,
)

module _ (sha256 : List ℕ → List ℕ) (aes : Aes) where
  opened-body :
      (hdr : List ℕ) (packet_id : ℕ) (data' : List ℕ) (pad_filler : ℕ) (kind : PacketType)
      → get_or hdr 5 0 / 16 ≡ padding (length data')
      → opened sha256 aes kind hdr
          (sha256 (hdr ++ body packet_id data' pad_filler))
          (body packet_id data' pad_filler)
        ≡ ok (kind, data')
  opened-body hdr packet_id data' pad_filler kind e = ground (
    arith,
    bytes_eq_refl (sha256 (hdr ++ body packet_id data' pad_filler)),
    length-append data' (replicate (padding (length data')) pad_filler),
    length-replicate (padding (length data')) pad_filler,
    take-append (length (body packet_id data' pad_filler) - padding (length data') - 2) data'
        (replicate (padding (length data')) pad_filler),
  )

  decode_encrypted-parts :
      (session_key encrypted plain digest : List ℕ) (len flags : ℕ)
      → bit_and flags 0xF ≡ 3
      → length digest ≡ 32
      → decrypt_aes_cbc aes session_key encrypted ≡ ok plain
      → decode_encrypted sha256 aes (header len flags ++ (encrypted ++ digest)) session_key
        ≡ opened sha256 aes encrypted_response (header len flags) digest plain
  unfolding decode_encrypted
  decode_encrypted-parts session_key encrypted plain digest len flags low size e = ground (
    arith,
    length-append encrypted digest,
    take-append (length (encrypted ++ digest) - 32) encrypted digest,
    drop-append (length (encrypted ++ digest) - 32) encrypted digest,
  )

  decode-cut :
      (session_key : Option (List ℕ)) (len flags : ℕ) (rest junk : List ℕ)
      → len < 65536
      → length rest ≡ len + 2
      → decode sha256 aes (header len flags ++ (rest ++ junk)) session_key
        ≡ decode_cut sha256 aes (header len flags ++ rest) session_key
  unfolding decode
  decode-cut session_key len flags rest junk small size = ground (
    arith,
    length-append rest junk,
    take-append (len / 256 * 256 + len % 256 + 8) (header len flags ++ rest) junk,
  )

  decode_cut-response :
      (session_key packet payload : List ℕ)
      → bit_and (get_or packet 5 0) 0xF ≡ 3
      → decode_encrypted sha256 aes packet session_key ≡ ok (encrypted_response, payload)
      → decode_cut sha256 aes packet (some session_key) ≡ ok (response payload)
  unfolding decode_cut
  decode_cut-response session_key packet payload low e = ground arith

  decode-sealed :
      (session_key data' junk encrypted : List ℕ) (packet_id pad_filler len flags : ℕ)
      → ((bytes : List ℕ) → length (sha256 bytes) ≡ 32)
      → bit_and flags 0xF ≡ 3
      → flags / 16 ≡ padding (length data')
      → len ≡ length data' + padding (length data') + 32
      → len < 65536
      → length encrypted ≡ length (body packet_id data' pad_filler)
      → decrypt_aes_cbc aes session_key encrypted ≡ ok (body packet_id data' pad_filler)
      → decode sha256 aes
          ((header len flags
              ++ (encrypted ++ sha256 (header len flags ++ body packet_id data' pad_filler)))
            ++ junk)
          (some session_key)
        ≡ ok (response data')
  decode-sealed session_key data' junk encrypted packet_id pad_filler len flags size low high fits
        small same_len undone =
      let hdr = header len flags in
      let plain = body packet_id data' pad_filler in
      let digest = sha256 (hdr ++ plain) in
      decode-cut (some session_key) len flags (encrypted ++ digest) junk small (
        omega (
          arith,
          length-append encrypted digest,
          size (hdr ++ plain),
          same_len,
          length-body packet_id data' pad_filler,
        ))
      ∙ decode_cut-response session_key (hdr ++ (encrypted ++ digest)) data' low (
          decode_encrypted-parts session_key encrypted plain digest len flags low
            (size (hdr ++ plain)) undone
          ∙ opened-body hdr packet_id data' pad_filler encrypted_response high)

  -- A device's answer of up to 65000 bytes is sealed without an error, and `decode` under the same
  -- key reads the same bytes back, whatever follows the packet in the stream: where the block
  -- cipher is undone under that key and a digest is 32 bytes long.
  pub decode-encode_encrypted :
      (session_key data' junk : List ℕ) (packet_id pad_filler : ℕ)
      → IsCipher aes session_key
      → ((bytes : List ℕ) → length (sha256 bytes) ≡ 32)
      → AreBytes data'
      → length data' ≤ 65000
      → packet_id < 65536
      → IsByte pad_filler
      → (packet : List ℕ) × (encode_encrypted sha256 aes session_key packet_id data' pad_filler
            encrypted_response
          ≡ ok packet)
        × (decode sha256 aes (packet ++ junk) (some session_key) ≡ ok (response data'))
  unfolding encode_encrypted
  decode-encode_encrypted session_key data' junk packet_id pad_filler c size bytes short small
        filler =
      let pad = padding (length data') in
      let flags = flags_of pad encrypted_response in
      let len = (length data' + pad + 32) % 2 ^ 16 in
      let hdr = header len flags in
      let plain = body packet_id data' pad_filler in
      let plain_len = length-body packet_id data' pad_filler in
      let pad_small : pad < 16 = ground arith in
      let aligned : length plain % 16 ≡ 0 = ground (arith, plain_len) in
      let plain_bytes : AreBytes plain = AreBytes-append (to_be packet_id) _ (omega arith) (
        AreBytes-append data' (replicate pad pad_filler) bytes
          (AreBytes-replicate pad pad_filler filler)) in
      let (encrypted, sealed_ok, same_len, undone) =
        decrypt_aes_cbc-encrypt_aes_cbc aes session_key plain c plain_bytes aligned in
      let (low, high) = flags_of-parts pad pad_small in
      let fits : len ≡ length data' + pad + 32 = omega arith in
      (
        hdr ++ (encrypted ++ sha256 (hdr ++ plain)),
        ground (arith, sealed_ok),
        decode-sealed session_key data' junk encrypted packet_id pad_filler len flags size low high
            fits (omega arith) same_len undone,
      )
