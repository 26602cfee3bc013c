-- ===== src/Tunnel/Crypto/Laws.antt =====
-- What the ciphers of crates/libs/styrene-tunnel/src/crypto guarantee, given the documented behaviour of
-- the primitives.
use styrene_rs.Base.{
  ℕ, ◌+◌, ◌^◌, ◌≤◌, ◌<◌, ◌≡◌, refl, ap, ◌∙◌, ◌≢◌, not, some, List, ◌++◌, arith, ◌==◌, if◌then◌else◌,
  le→ltb, length, get_or, take, drop, length-append, length-take, length-drop, take-append_len,
  drop-append_len, ok, err,
}
use styrene_rs.Base.{◌>>=◌}
use styrene_rs.Base.Stateful.{ok_or}
use styrene_rs.Base.Bytes.{bytes_eq, bytes_eq_iff}
use styrene_rs.Tunnel.TunnelError.{handshake_failed, decryption_failed}
use styrene_rs.Tunnel.Crypto.{
  Primitives, aead_tag_size, mlkem_ciphertext_size, mlkem_encapsulation_key_size,
  nonce_from_sequence, nonce_for_confirm, HybridKeyMaterial, encrypt, decrypt, encrypt_confirm,
  decrypt_confirm, derive,
}

-- Both sides of a key exchange reach one secret, what is encapsulated or sealed is opened again by the
-- holder of the key, and the sizes are those of the standards.
pub record Laws (prims : Primitives) : Type 0 where
  pub public_size : (a : List ℕ) → length (prims.x25519_public a) ≡ 32
  pub agreement :
      (a b : List ℕ)
      → prims.diffie_hellman a (prims.x25519_public b)
        ≡ prims.diffie_hellman b (prims.x25519_public a)
  pub encapsulation_key_size :
      (dk : List ℕ) → length (prims.encapsulation_key dk) ≡ mlkem_encapsulation_key_size
  pub encapsulation :
      (drawn dk : List ℕ)
      → (ct : List ℕ) × (ss : List ℕ) × (prims.kem_encapsulate drawn (prims.encapsulation_key dk)
          ≡ some (ct, ss))
        × (prims.kem_decapsulate dk ct ≡ some ss)
        × (length ct ≡ mlkem_ciphertext_size)
  pub expansion :
      (salt ikm info : List ℕ)
      → (okm : List ℕ) × (prims.hkdf salt ikm info ≡ some okm) × (length okm ≡ 96)
  pub sealing :
      (key nonce plaintext : List ℕ)
      → length plaintext < 2 ^ 36
      → (c : List ℕ) × (prims.seal key nonce plaintext ≡ some c)
        × (prims.unseal key nonce c ≡ some plaintext)
        × (length c ≡ length plaintext + aead_tag_size)

nonce_sizes :
    (sequence role : ℕ)
    → (length (nonce_from_sequence sequence) ≡ 12) × (length (nonce_for_confirm role) ≡ 12)
unfolding nonce_from_sequence nonce_for_confirm
nonce_sizes sequence role = (refl, refl)

confirm_nonces : (role other : ℕ) → nonce_for_confirm role ≡ nonce_for_confirm other → role ≡ other
unfolding nonce_for_confirm
confirm_nonces role other same = cc

sequence_nonces :
    (sequence other : ℕ)
    → sequence < 2 ^ 64
    → other < 2 ^ 64
    → nonce_from_sequence sequence ≡ nonce_from_sequence other
    → sequence ≡ other
unfolding nonce_from_sequence
sequence_nonces sequence other a b same = omega (
  arith,
  ap (λ l. get_or l 4 0) same,
  ap (λ l. get_or l 5 0) same,
  ap (λ l. get_or l 6 0) same,
  ap (λ l. get_or l 7 0) same,
  ap (λ l. get_or l 8 0) same,
  ap (λ l. get_or l 9 0) same,
  ap (λ l. get_or l 10 0) same,
  ap (λ l. get_or l 11 0) same,
)

-- A frame is read as the nonce at its front and the sealed bytes after it.
pub decrypt_frame :
    (prims : Primitives) (key : List ℕ) (sequence : ℕ) (nonce c : List ℕ)
    → length nonce ≡ 12
    → 16 ≤ length c
    → decrypt prims key sequence (nonce ++ c) ≡ (
        if not (bytes_eq nonce (nonce_from_sequence sequence))
        then err decryption_failed
        else ok_or (prims.unseal key nonce c) decryption_failed)
unfolding decrypt
decrypt_frame prims key sequence nonce c size long =
    let whole : 28 ≤ length (nonce ++ c) = omega (arith, length-append nonce c) in
    rw
      (
        decrypt,
        le→ltb (length (nonce ++ c)) 28 whole,
        take-append_len 12 nonce c size,
        drop-append_len 12 nonce c size,
      )
      refl

pub decrypt_confirm_frame :
    (prims : Primitives) (key : List ℕ) (role : ℕ) (nonce c : List ℕ)
    → length nonce ≡ 12
    → 16 ≤ length c
    → decrypt_confirm prims key (nonce ++ c) role ≡ (
        if not (bytes_eq nonce (nonce_for_confirm role))
        then err handshake_failed
        else ok_or (prims.unseal key nonce c) handshake_failed >>= λ plaintext.
            if not (length plaintext == 32) then err handshake_failed else ok plaintext)
unfolding decrypt_confirm
decrypt_confirm_frame prims key role nonce c size long =
    let whole : 28 ≤ length (nonce ++ c) = omega (arith, length-append nonce c) in
    rw
      (
        decrypt_confirm,
        le→ltb (length (nonce ++ c)) 28 whole,
        take-append_len 12 nonce c size,
        drop-append_len 12 nonce c size,
      )
      refl

module _ (prims : Primitives) (laws : Laws prims) where
  -- What encrypt makes of a plaintext of a sealable size, decrypt opens at its sequence number, and
  -- refuses at any other 64-bit number.
  pub decrypt-encrypt :
      (key : List ℕ) (sequence other : ℕ) (plaintext : List ℕ)
      → length plaintext < 2 ^ 36
      → (frame : List ℕ) × (encrypt prims key sequence plaintext ≡ ok frame)
        × (decrypt prims key sequence frame ≡ ok plaintext)
        × (sequence < 2 ^ 64
            → other < 2 ^ 64
            → sequence ≢ other
            → decrypt prims key other frame ≡ err decryption_failed)
  decrypt-encrypt key sequence other plaintext small =
      let nonce = nonce_from_sequence sequence in
      let (c, sealed, opened, size) = laws.sealing key nonce plaintext small in
      let long : 16 ≤ length c = omega (arith, size) in
      let front = (nonce_sizes sequence 0).0 in
      let read = decrypt_frame prims key sequence nonce c front long in
      let misread = decrypt_frame prims key other nonce c front long in
      (
        nonce ++ c,
        (unfold encrypt in rw sealed refl),
        read ∙ rw ((bytes_eq_iff nonce nonce).1 refl, opened) refl,
        λ a b apart. ground (
          arith,
          misread,
          bytes_eq_iff nonce (nonce_from_sequence other),
          sequence_nonces sequence other a b,
          apart,
        ),
      )

  -- A tag of 32 bytes is opened in the role that sealed it, and refused in any other.
  pub decrypt_confirm-encrypt_confirm :
      (key tag : List ℕ) (role other : ℕ)
      → length tag ≡ 32
      → (frame : List ℕ) × (encrypt_confirm prims key tag role ≡ ok frame)
        × (decrypt_confirm prims key frame role ≡ ok tag)
        × (role ≢ other → decrypt_confirm prims key frame other ≡ err handshake_failed)
  decrypt_confirm-encrypt_confirm key tag role other tag_size =
      let nonce = nonce_for_confirm role in
      let (c, sealed, opened, size) = laws.sealing key nonce tag (omega (arith, tag_size)) in
      let long : 16 ≤ length c = omega (arith, size) in
      let front = (nonce_sizes 0 role).1 in
      let read = decrypt_confirm_frame prims key role nonce c front long in
      let misread = decrypt_confirm_frame prims key other nonce c front long in
      (
        nonce ++ c,
        (unfold encrypt_confirm in rw sealed refl),
        read ∙ rw ((bytes_eq_iff nonce nonce).1 refl, opened, tag_size) refl,
        λ apart. ground (
          arith,
          misread,
          bytes_eq_iff nonce (nonce_for_confirm other),
          confirm_nonces role other,
          apart,
        ),
      )

  -- The key and the tags are 32 bytes each.
  pub derive_sizes :
      (x25519_shared mlkem_shared session_id info : List ℕ)
      → (m : HybridKeyMaterial) × (derive prims x25519_shared mlkem_shared session_id info ≡ ok m)
        × (length m.session_key ≡ 32)
        × (length m.initiator_confirm_tag ≡ 32)
        × (length m.responder_confirm_tag ≡ 32)
  derive_sizes x25519_shared mlkem_shared session_id info =
      let (okm, expanded, size) = laws.expansion session_id (x25519_shared ++ mlkem_shared) info in
      let rest = length-drop 32 okm in
      (
        record {
          session_key = take 32 okm;
          initiator_confirm_tag = take 32 (drop 32 okm);
          responder_confirm_tag = drop 64 okm;
        },
        (unfold derive in rw expanded refl),
        omega (arith, size, length-take 32 okm),
        omega (arith, size, rest, length-take 32 (drop 32 okm)),
        omega (arith, size, length-drop 64 okm),
      )
