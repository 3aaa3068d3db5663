-- ===== src/Proto/Packet.antt =====
-- crates/breeze-proto/src/packet.rs: the V2 packet. The clock is left out: the timestamp is an
-- argument, as in `encode_at`.
pub mod RoundTrip
use breeze_core_native.Common.{
  ℕ, ◌+◌, ◌-◌, ◌*◌, ◌/◌, ◌%◌, ◌^◌, ◌≡◌, refl, not, ◌&&◌, ◌||◌, List, [], ◌∷◌, ◌++◌, ltb, leb, ◌==◌,
  if◌then◌else◌, length, get_or, take, drop, replicate, Outcome, ok, err, panic,
}
use breeze_core_native.Common.Bytes.{from_le, bytes_eq}
use breeze_core_native.Proto.Security.{Aes, CryptoError, encrypt_aes, decrypt_aes, sign}

abbrev pub header_len : ℕ
header_len = 40

abbrev pub tail_len : ℕ
tail_len = 16

pub data PacketError : Type 0 where
  too_short : ℕ → PacketError
  not_a_packet : ℕ → ℕ → PacketError
  truncated : ℕ → ℕ → PacketError
  bad_digest : PacketError
  crypto : CryptoError → PacketError

-- Hinnant's civil date. The divisions are Euclidean in the program, of numbers that are not
-- negative here.
unfoldable pub timestamp_from_unix : ℕ → ℕ → List ℕ
timestamp_from_unix secs centis =
    let rem = secs % 86400 in
    let z = secs / 86400 + 719_468 in
    let era = z / 146_097 in
    let doe = z % 146_097 in
    let yoe = (doe - doe / 1460 + doe / 36_524 - doe / 146_096) / 365 in
    let y = yoe + era * 400 in
    let doy = doe - (365 * yoe + yoe / 4 - yoe / 100) in
    let mp = (5 * doy + 2) / 153 in
    let day = (doy - (153 * mp + 2) / 5 + 1) % 256 in
    let month = (if ltb mp 10 then mp + 3 else mp - 9) % 256 in
    let year = (if leb month 2 then y + 1 else y) % 2 ^ 32 in
    centis
    ∷ rem % 60
    ∷ rem % 3600 / 60
    ∷ rem / 3600
    ∷ day
    ∷ month
    ∷ year % 100
    ∷ year / 100 % 256
    ∷ []

-- `u64::to_le_bytes`.
abbrev pub to_le64 : ℕ → List ℕ
to_le64 n =
    n % 256
    ∷ n / 256 % 256
    ∷ n / 256 ^ 2 % 256
    ∷ n / 256 ^ 3 % 256
    ∷ n / 256 ^ 4 % 256
    ∷ n / 256 ^ 5 % 256
    ∷ n / 256 ^ 6 % 256
    ∷ n / 256 ^ 7 % 256
    ∷ []

-- What stands before the encrypted frame, with the length of the packet.
abbrev pub header : ℕ → ℕ → List ℕ → List ℕ
header device_id length ts =
    0x5A
    ∷ 0x5A
    ∷ 0x01
    ∷ 0x11
    ∷ length % 256
    ∷ length / 256
    ∷ 0x20
    ∷ 0x00
    ∷ 0
    ∷ 0
    ∷ 0
    ∷ 0
    ∷ (ts ++ (to_le64 device_id ++ replicate 12 0))

module _ (aes : Aes) (md5 : List ℕ → List ℕ) where
  unfoldable pub encode_at : ℕ → List ℕ → List ℕ → List ℕ
  encode_at device_id frame ts =
      let body = encrypt_aes aes md5 frame in
      let p = header device_id ((header_len + length body + tail_len) % 2 ^ 16) ts ++ body in
      p ++ sign md5 p

  abbrev pub from_crypto : Outcome CryptoError (List ℕ) → Outcome PacketError (List ℕ)
  from_crypto (ok frame) = ok frame
  from_crypto (err e) = err (crypto e)
  from_crypto panic = panic

  -- What is checked of a packet that is cut to its declared length.
  unfoldable pub decode_cut : List ℕ → Outcome PacketError (List ℕ)
  decode_cut packet =
      let split = length packet - tail_len in
      if not (bytes_eq (sign md5 (take split packet)) (drop split packet))
      then err bad_digest
      else from_crypto (decrypt_aes aes md5 (take (split - header_len) (drop header_len packet)))

  unfoldable pub decode : List ℕ → Outcome PacketError (List ℕ)
  decode packet =
      if ltb (length packet) (header_len + tail_len)
      then err (too_short (length packet))
      else if not (get_or packet 0 0 == 0x5A && get_or packet 1 0 == 0x5A)
      then err (not_a_packet (get_or packet 0 0) (get_or packet 1 0))
      else let declared = from_le (get_or packet 4 0) (get_or packet 5 0) in
        if ltb (length packet) declared || ltb declared (header_len + tail_len)
        then err (truncated declared (length packet))
        else decode_cut (take declared packet)

-- 2026-08-23 21:00:07.
timestamp_test : timestamp_from_unix 1_787_518_807 42 ≡ 42 ∷ 7 ∷ 0 ∷ 21 ∷ 23 ∷ 8 ∷ 26 ∷ 20 ∷ []
unfolding timestamp_from_unix
timestamp_test = refl
