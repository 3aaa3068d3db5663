-- ===== src/Proto/Lan/Handshake.antt =====
-- The handshake of crates/breeze-proto/src/lan.rs: `derive_session_key` on what a unit answers.
use breeze_core_native.Common.{
  ℕ, ◌≡◌, refl, List, ◌++◌, length, ok, arith, length-append, take-append, drop-append,
}
use breeze_core_native.Common.Bytes.{AreBytes, bytes_eq_refl}
use breeze_core_native.Proto.Security.{Aes, xor_bytes, encrypt_aes_cbc, decrypt_aes_cbc}
use breeze_core_native.Proto.Security.Cbc.{IsCipher, decrypt_aes_cbc-encrypt_aes_cbc}
use breeze_core_native.Proto.Lan.{derive_session_key}

module _ (sha256 : List ℕ → List ℕ) (aes : Aes) where
  derive_session_key-parts :
      (key encrypted plain digest : List ℕ)
      → length encrypted ≡ 32
      → length digest ≡ 32
      → decrypt_aes_cbc aes key encrypted ≡ ok plain
      → digest ≡ sha256 plain
      → derive_session_key sha256 aes key (encrypted ++ digest) ≡ ok (xor_bytes plain key)
  unfolding derive_session_key
  derive_session_key-parts key encrypted plain digest e d undone same = ground (
    arith,
    length-append encrypted digest,
    take-append 32 encrypted digest,
    drop-append 32 encrypted digest,
    bytes_eq_refl digest,
  )

  -- A handshake answer that a unit makes of 32 random bytes under the shared key gives the session
  -- key: those bytes, combined with the shared key by exclusive or.
  pub derive_session_key-answer :
      (key plain : List ℕ)
      → IsCipher aes key
      → ((bytes : List ℕ) → length (sha256 bytes) ≡ 32)
      → AreBytes plain
      → length plain ≡ 32
      → (encrypted : List ℕ) × (encrypt_aes_cbc aes key plain ≡ ok encrypted)
        × (derive_session_key sha256 aes key (encrypted ++ sha256 plain) ≡ ok (xor_bytes plain key))
  derive_session_key-answer key plain c size bytes len =
      let (encrypted, made, same_len, undone) =
        decrypt_aes_cbc-encrypt_aes_cbc aes key plain c bytes (omega arith) in
      (
        encrypted,
        made,
        derive_session_key-parts key encrypted plain (sha256 plain) (omega arith) (size plain)
            undone refl,
      )
