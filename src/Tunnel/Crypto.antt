-- ===== src/Tunnel/Crypto.antt =====
-- crates/libs/styrene-tunnel/src/crypto (aead.rs, kdf.rs, kem.rs) over the third-party primitives, which
-- are the fields of `Primitives`.
pub mod Laws
use styrene_rs.Base.{
  ℕ, ◌+◌, ◌/◌, ◌%◌, ◌^◌, not, Option, List, [], ◌∷◌, ◌++◌, ltb, ◌==◌, if◌then◌else◌, length, take,
  drop, Result, ok, err,
}
use styrene_rs.Base.Bytes.{bytes_eq}
use styrene_rs.Base.Stateful.{ok_or}
use styrene_rs.Base.{◌>>=◌}
use styrene_rs.Tunnel.TunnelError.{
  TunnelError, crypto, handshake_failed, decryption_failed, invalid_key_material,
}

-- X25519, ML-KEM-768, HKDF-SHA256 and AES-256-GCM. `none` is the error of the library.
pub record Primitives : Type 0 where
  pub x25519_public : List ℕ → List ℕ
  pub diffie_hellman : List ℕ → List ℕ → List ℕ
  pub encapsulation_key : List ℕ → List ℕ
  pub kem_encapsulate : List ℕ → List ℕ → Option (List ℕ × List ℕ)
  pub kem_decapsulate : List ℕ → List ℕ → Option (List ℕ)
  pub hkdf : List ℕ → List ℕ → List ℕ → Option (List ℕ)
  pub seal : List ℕ → List ℕ → List ℕ → Option (List ℕ)
  pub unseal : List ℕ → List ℕ → List ℕ → Option (List ℕ)

abbrev pub aead_tag_size : ℕ
aead_tag_size = 16

abbrev pub nonce_size : ℕ
nonce_size = 12

abbrev pub confirm_role_initiator : ℕ
confirm_role_initiator = 0x01

abbrev pub confirm_role_responder : ℕ
confirm_role_responder = 0x02

abbrev pub mlkem_encapsulation_key_size : ℕ
mlkem_encapsulation_key_size = 1184

abbrev pub mlkem_ciphertext_size : ℕ
mlkem_ciphertext_size = 1088

-- `u64::to_be_bytes`
abbrev pub sequence_bytes : ℕ → List ℕ
sequence_bytes n =
    (n / 2 ^ 56 % 256)
    ∷ (n / 2 ^ 48 % 256)
    ∷ (n / 2 ^ 40 % 256)
    ∷ (n / 2 ^ 32 % 256)
    ∷ (n / 2 ^ 24 % 256)
    ∷ (n / 2 ^ 16 % 256)
    ∷ (n / 2 ^ 8 % 256)
    ∷ (n % 256)
    ∷ []

unfoldable pub nonce_from_sequence : ℕ → List ℕ
nonce_from_sequence sequence = 0 ∷ 0 ∷ 0 ∷ 0 ∷ sequence_bytes sequence

unfoldable pub nonce_for_confirm : ℕ → List ℕ
nonce_for_confirm role = 0xff ∷ 0xff ∷ 0xff ∷ 0xff ∷ 0 ∷ 0 ∷ 0 ∷ 0 ∷ 0 ∷ 0 ∷ 0 ∷ role ∷ []

pub record HybridKeyMaterial : Type 0 where
  pub session_key : List ℕ
  pub initiator_confirm_tag : List ℕ
  pub responder_confirm_tag : List ℕ

module _ (prims : Primitives) where
  -- `SessionCipher`: a cipher is its key.
  unfoldable pub encrypt : List ℕ → ℕ → List ℕ → Result TunnelError (List ℕ)
  encrypt key sequence plaintext =
      let nonce = nonce_from_sequence sequence in
      ok_or (prims.seal key nonce plaintext) crypto >>= λ ciphertext. ok (nonce ++ ciphertext)

  unfoldable pub decrypt : List ℕ → ℕ → List ℕ → Result TunnelError (List ℕ)
  decrypt key sequence frame =
      if ltb (length frame) (nonce_size + aead_tag_size)
      then err decryption_failed
      else if not (bytes_eq (take nonce_size frame) (nonce_from_sequence sequence))
      then err decryption_failed
      else ok_or (prims.unseal key (take nonce_size frame) (drop nonce_size frame))
          decryption_failed

  unfoldable pub encrypt_confirm : List ℕ → List ℕ → ℕ → Result TunnelError (List ℕ)
  encrypt_confirm key tag role =
      let nonce = nonce_for_confirm role in
      ok_or (prims.seal key nonce tag) crypto >>= λ ciphertext. ok (nonce ++ ciphertext)

  unfoldable pub decrypt_confirm : List ℕ → List ℕ → ℕ → Result TunnelError (List ℕ)
  decrypt_confirm key frame role =
      if ltb (length frame) (nonce_size + aead_tag_size)
      then err decryption_failed
      else if not (bytes_eq (take nonce_size frame) (nonce_for_confirm role))
      then err handshake_failed
      else ok_or (prims.unseal key (take nonce_size frame) (drop nonce_size frame)) handshake_failed
        >>= λ plaintext. if not (length plaintext == 32) then err handshake_failed else ok plaintext

  unfoldable pub encapsulate : List ℕ → List ℕ → Result TunnelError (List ℕ × List ℕ)
  encapsulate drawn ek =
      if not (length ek == mlkem_encapsulation_key_size)
      then err invalid_key_material
      else ok_or (prims.kem_encapsulate drawn ek) crypto

  unfoldable pub decapsulate : List ℕ → List ℕ → Result TunnelError (List ℕ)
  decapsulate dk ciphertext =
      if not (length ciphertext == mlkem_ciphertext_size)
      then err invalid_key_material
      else ok_or (prims.kem_decapsulate dk ciphertext) crypto

  -- `HybridKdf::derive`: 96 bytes, cut into the key and the two tags.
  unfoldable pub derive : List ℕ → List ℕ → List ℕ → List ℕ → Result TunnelError HybridKeyMaterial
  derive x25519_shared mlkem_shared session_id info =
      ok_or (prims.hkdf session_id (x25519_shared ++ mlkem_shared) info) crypto >>= λ okm.
      ok (record {
        session_key = take 32 okm;
        initiator_confirm_tag = take 32 (drop 32 okm);
        responder_confirm_tag = drop 64 okm;
      })
