-- ===== src/Proto/Lan.antt =====
-- crates/breeze-proto/src/lan.rs: the 0x8370 packets of a V3 session. SHA-256 (the crate `sha2`) and
-- the block cipher are the parameters `sha256` and `aes`. A byte string of a fixed length in the
-- program is a list here; an index out of range does not occur behind the length checks.
pub mod Session
pub mod Handshake
use Prim.Native.Nat.{bit_and, bit_or, bit_xor}
use breeze_core_native.Common.{
  ℕ, ◌+◌, ◌-◌, ◌*◌, ◌/◌, ◌%◌, ◌^◌, Bool, true, false, not, ◌&&◌, ◌||◌, Option, none, some, List, [],
  ◌∷◌, ◌++◌, ltb, ◌==◌, if◌then◌else◌, length, get_or, take, drop, replicate, Outcome, ok, err,
  panic, ◌>>=◌,
}
use breeze_core_native.Common.Bytes.{from_be, bytes_eq}
use breeze_core_native.Proto.Security.{
  Aes, CryptoError, xor_bytes, encrypt_aes_cbc, decrypt_aes_cbc,
}

pub data PacketType : Type 0 where
  handshake_request handshake_response encrypted_response encrypted_request error : PacketType

abbrev pub type_byte : PacketType → ℕ
type_byte handshake_request = 0x0
type_byte handshake_response = 0x1
type_byte encrypted_response = 0x3
type_byte encrypted_request = 0x6
type_byte error = 0xF

pub data LanError : Type 0 where
  too_short : ℕ → LanError
  not_a_packet : ℕ → ℕ → LanError
  bad_magic : ℕ → LanError
  incomplete : ℕ → ℕ → LanError
  device_error : LanError
  unexpected_type : ℕ → LanError
  bad_signature : LanError
  bad_handshake_length : ℕ → LanError
  rejected : LanError
  crypto : CryptoError → LanError

-- `?` on a result of the crypto layer.
abbrev from_crypto {ℓ} : {A : Type ℓ} → Outcome CryptoError A → Outcome LanError A
from_crypto (ok a) = ok a
from_crypto (err e) = err (crypto e)
from_crypto panic = panic

unfoldable pub packet_len : List ℕ → Option ℕ
packet_len buf =
    if ltb (length buf) 6 then none else some (from_be (get_or buf 2 0) (get_or buf 3 0) + 8)

-- The length is taken modulo 2^16 by the cast in each caller.
abbrev pub header : ℕ → ℕ → List ℕ
header length flags = 0x83 ∷ 0x70 ∷ length / 256 ∷ length % 256 ∷ 0x20 ∷ flags ∷ []

abbrev pub to_be : ℕ → List ℕ
to_be n = n / 256 ∷ n % 256 ∷ []

unfoldable pub encode_handshake : ℕ → List ℕ → List ℕ
encode_handshake packet_id token =
    header (length token % 2 ^ 16) (type_byte handshake_request) ++ (to_be packet_id ++ token)

abbrev pub padding : ℕ → ℕ
padding n = let remainder = (n + 2) % 16 in if not (remainder == 0) then 16 - remainder else 0

abbrev pub flags_of : ℕ → PacketType → ℕ
flags_of pad packet_type = bit_or (pad * 16 % 256) (type_byte packet_type)

pub data Decoded : Type 0 where
  handshake response : List ℕ → Decoded

module _ (sha256 : List ℕ → List ℕ) (aes : Aes) where
  unfoldable pub derive_session_key : List ℕ → List ℕ → Outcome LanError (List ℕ)
  derive_session_key key reply =
      if not (length reply == 64) then err (bad_handshake_length (length reply)) else do
        plain ← from_crypto (decrypt_aes_cbc aes key (take 32 reply))
        if not (bytes_eq (sha256 plain) (drop 32 reply))
            then err rejected
            else ok (xor_bytes plain key)

  abbrev pub sealed : List ℕ → List ℕ → List ℕ → Outcome LanError (List ℕ)
  sealed session_key hdr payload = do
    encrypted ← from_crypto (encrypt_aes_cbc aes session_key payload)
    ok (hdr ++ (encrypted ++ sha256 (hdr ++ payload)))

  unfoldable pub encode_encrypted : List ℕ → ℕ → List ℕ → ℕ → PacketType → Outcome LanError (List ℕ)
  encode_encrypted session_key packet_id data' pad_filler packet_type =
      let pad = padding (length data') in
      let hdr = header ((length data' + pad + 32) % 2 ^ 16) (flags_of pad packet_type) in
      sealed session_key hdr (to_be packet_id ++ (data' ++ replicate pad pad_filler))

  unfoldable pub encode_request : List ℕ → ℕ → List ℕ → ℕ → Outcome LanError (List ℕ)
  encode_request session_key packet_id data' pad_filler =
      encode_encrypted session_key packet_id data' pad_filler encrypted_request

  abbrev encrypted_kind : ℕ → Outcome LanError PacketType
  encrypted_kind low =
      if low == type_byte encrypted_request
      then ok encrypted_request
      else if low == type_byte encrypted_response
      then ok encrypted_response
      else err (unexpected_type low)

  -- What is checked of the decrypted body: the digest, and that the padding fits.
  abbrev pub opened : PacketType → List ℕ → List ℕ → List ℕ → Outcome LanError (PacketType × List ℕ)
  opened kind hdr rx_digest plain =
      if not (bytes_eq (sha256 (hdr ++ plain)) rx_digest)
      then err bad_signature
      else let pad = get_or hdr 5 0 / 16 in
        if ltb (length plain) (2 + pad)
        then err (too_short (length plain))
        else ok (kind, take (length plain - pad - 2) (drop 2 plain))

  unfoldable pub decode_encrypted : List ℕ → List ℕ → Outcome LanError (PacketType × List ℕ)
  decode_encrypted packet session_key =
      if ltb (length packet) (6 + 32) then err (too_short (length packet)) else do
        kind ← encrypted_kind (bit_and (get_or packet 5 0) 0xF)
        let rest = drop 6 packet
        plain ← from_crypto (decrypt_aes_cbc aes session_key (take (length rest - 32) rest))
        opened kind (take 6 packet) (drop (length rest - 32) rest) plain

  abbrev as_response : PacketType × List ℕ → Outcome LanError Decoded
  as_response (kind, payload) = ok (response payload)

  abbrev decode_response : List ℕ → ℕ → Option (List ℕ) → Outcome LanError Decoded
  decode_response packet low none = err (unexpected_type low)
  decode_response packet low (some key) = decode_encrypted packet key >>= as_response

  -- What is read of a packet that is cut to its length.
  unfoldable pub decode_cut : List ℕ → Option (List ℕ) → Outcome LanError Decoded
  decode_cut packet session_key =
      let low = bit_and (get_or packet 5 0) 0xF in
      if low == type_byte error
      then err device_error
      else if low == type_byte handshake_response
      then ok (handshake (drop 8 packet))
      else if low == type_byte encrypted_response
      then decode_response packet low session_key
      else err (unexpected_type low)

  unfoldable pub decode : List ℕ → Option (List ℕ) → Outcome LanError Decoded
  decode packet session_key =
      if ltb (length packet) 8
      then err (too_short (length packet))
      else if not (get_or packet 0 0 == 0x83 && get_or packet 1 0 == 0x70)
      then err (not_a_packet (get_or packet 0 0) (get_or packet 1 0))
      else if not (get_or packet 4 0 == 0x20)
      then err (bad_magic (get_or packet 4 0))
      else let need = from_be (get_or packet 2 0) (get_or packet 3 0) + 8 in
        if ltb (length packet) need
        then err (incomplete need (length packet))
        else decode_cut (take need packet) session_key
