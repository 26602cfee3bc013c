-- ===== src/Tunnel/Session/Handshake.antt =====
-- The three messages of the handshake of crates/libs/styrene-tunnel/src/session/mod.rs, end to end.
use styrene_rs.Base.{ℕ, ◌≡◌, refl, ap, ◌∙◌, none, some, List, length, Result, ok, err}
use styrene_rs.Base.Bytes.{bytes_eq_iff}
use styrene_rs.Tunnel.TunnelError.{idle, initiating, responding, established, TunnelError}
use styrene_rs.Tunnel.Crypto.{
  Primitives, confirm_role_initiator, confirm_role_responder, HybridKeyMaterial, encrypt_confirm,
  decrypt_confirm, encapsulate, decapsulate, derive,
}
use styrene_rs.Tunnel.Crypto.Laws.{Laws, derive_sizes, decrypt_confirm-encrypt_confirm}
use styrene_rs.Tunnel.Payloads.{PqcInitiatePayload, PqcRespondPayload, PqcConfirmPayload}
use styrene_rs.Tunnel.Session.{
  kdf_info, pqc_version, PqcSession, new, take_x25519_secret, take_mlkem_keypair, initiate,
  process_initiate, process_respond, process_confirm,
}

-- The random values of both sides.
pub record Draws : Type 0 where
  pub session_id : List ℕ
  pub initiator_secret : List ℕ
  pub initiator_keypair : List ℕ
  pub responder_secret : List ℕ
  pub encapsulation : List ℕ

module _ (prims : Primitives) where
  initiate_idle :
      (id secret keypair : List ℕ) (s : PqcSession)
      → s.state ≡ idle
      → initiate prims id secret keypair s ≡ (
        record s {
          session_id = id;
          our_x25519_secret_bytes = some secret;
          our_x25519_public = some (prims.x25519_public secret);
          mlkem_keypair = some keypair;
          state = initiating;
        },
        ok (record {
          version = pqc_version;
          session_id = id;
          x25519_public = prims.x25519_public secret;
          mlkem_encapsulation_key = prims.encapsulation_key keypair;
          identity_hash = s.our_identity_hash;
        }),
      )
  unfolding initiate
  initiate_idle id secret keypair s e = rw (initiate, e) refl

  process_initiate_idle :
      (secret drawn mlkem_shared ciphertext confirm : List ℕ) (m : PqcInitiatePayload)
      (material : HybridKeyMaterial) (s : PqcSession)
      → s.state ≡ idle
      → m.version ≡ pqc_version
      → length m.session_id ≡ 16
      → length m.identity_hash ≡ 16
      → length m.x25519_public ≡ 32
      → encapsulate prims drawn m.mlkem_encapsulation_key ≡ ok (ciphertext, mlkem_shared)
      → derive prims
          (prims.diffie_hellman secret m.x25519_public)
          mlkem_shared
          m.session_id
          kdf_info
        ≡ ok material
      → encrypt_confirm prims material.session_key material.responder_confirm_tag
          confirm_role_responder
        ≡ ok confirm
      → process_initiate prims secret drawn m s ≡ (
        record s {
          session_id = m.session_id;
          peer_identity_hash = some m.identity_hash;
          our_x25519_public = some (prims.x25519_public secret);
          initiator_confirm_tag = some material.initiator_confirm_tag;
          session_key = some material.session_key;
          cipher = some material.session_key;
          state = responding;
        },
        ok (record {
          session_id = m.session_id;
          x25519_public = prims.x25519_public secret;
          mlkem_ciphertext = ciphertext;
          encrypted_confirm = confirm;
          identity_hash = s.our_identity_hash;
        }),
      )
  unfolding process_initiate
  process_initiate_idle secret drawn mlkem_shared ciphertext confirm m material s e v l h k enc d
        c =
      rw (process_initiate, e, v, l, h, k, enc, d, c) refl

  process_respond_initiating :
      (secret keypair mlkem_shared confirm : List ℕ) (m : PqcRespondPayload)
      (material : HybridKeyMaterial) (s : PqcSession)
      → s.state ≡ initiating
      → m.session_id ≡ s.session_id
      → length m.identity_hash ≡ 16
      → length m.x25519_public ≡ 32
      → s.our_x25519_secret_bytes ≡ some secret
      → s.mlkem_keypair ≡ some keypair
      → decapsulate prims keypair m.mlkem_ciphertext ≡ ok mlkem_shared
      → derive prims
          (prims.diffie_hellman secret m.x25519_public)
          mlkem_shared
          s.session_id
          kdf_info
        ≡ ok material
      → decrypt_confirm prims material.session_key m.encrypted_confirm confirm_role_responder
        ≡ ok material.responder_confirm_tag
      → encrypt_confirm prims material.session_key material.initiator_confirm_tag
          confirm_role_initiator
        ≡ ok confirm
      → process_respond prims m s ≡ (
        record s {
          peer_identity_hash = some m.identity_hash;
          our_x25519_secret_bytes = none;
          mlkem_keypair = none;
          session_key = some material.session_key;
          cipher = some material.session_key;
          state = established;
        },
        ok (record { session_id = s.session_id; encrypted_confirm = confirm }),
      )
  unfolding process_respond take_x25519_secret take_mlkem_keypair
  process_respond_initiating secret keypair mlkem_shared confirm m material s e i h k sec kp dec d r
        c =
      let same = (bytes_eq_iff m.session_id s.session_id).1 i in
      let tag =
        (bytes_eq_iff material.responder_confirm_tag material.responder_confirm_tag).1 refl in
      rw
        (
          process_respond, e, same, h, take_x25519_secret, sec, k, take_mlkem_keypair, kp, dec, d,
          r, tag, c,
        )
        refl

  process_confirm_responding :
      (key tag : List ℕ) (m : PqcConfirmPayload) (s : PqcSession)
      → s.state ≡ responding
      → m.session_id ≡ s.session_id
      → s.cipher ≡ some key
      → s.initiator_confirm_tag ≡ some tag
      → decrypt_confirm prims key m.encrypted_confirm confirm_role_initiator ≡ ok tag
      → process_confirm prims m s ≡ (
        record s {
          initiator_confirm_tag = none;
          responder_confirm_tag = none;
          state = established;
        },
        ok tt,
      )
  unfolding process_confirm
  process_confirm_responding key tag m s e i k t r =
      let same = (bytes_eq_iff m.session_id s.session_id).1 i in
      let equal = (bytes_eq_iff tag tag).1 refl in
      rw (process_confirm, e, same, k, t, r, equal)
        (ap
          (λ c. (
            record s {
              cipher = c;
              initiator_confirm_tag = none;
              responder_confirm_tag = none;
              state = established;
            },
            ok tt,
          ))
          k)

  -- Two sessions that exchange the three messages. An error ends the exchange.
  abbrev confirmed :
      PqcSession
      → PqcSession × Result TunnelError (Unit {0})
      → PqcSession × PqcSession × Result TunnelError (Unit {0})
  confirmed a (b, outcome) = (a, b, outcome)

  abbrev answered :
      PqcSession
      → PqcSession × Result TunnelError PqcConfirmPayload
      → PqcSession × PqcSession × Result TunnelError (Unit {0})
  answered b (a, err problem) = (a, b, err problem)
  answered b (a, ok third) = confirmed a (process_confirm prims third b)

  abbrev replied :
      PqcSession
      → PqcSession × Result TunnelError PqcRespondPayload
      → PqcSession × PqcSession × Result TunnelError (Unit {0})
  replied a (b, err problem) = (a, b, err problem)
  replied a (b, ok second) = answered b (process_respond prims second a)

  abbrev initiated :
      Draws
      → PqcSession
      → PqcSession × Result TunnelError PqcInitiatePayload
      → PqcSession × PqcSession × Result TunnelError (Unit {0})
  initiated draws b (a, err problem) = (a, b, err problem)
  initiated draws b (a, ok first) =
      replied a (process_initiate prims draws.responder_secret draws.encapsulation first b)

  unfoldable pub handshake :
      Draws → PqcSession → PqcSession → PqcSession × PqcSession × Result TunnelError (Unit {0})
  handshake draws a b =
      initiated draws b
        (initiate prims draws.session_id draws.initiator_secret draws.initiator_keypair a)

  handshake_run :
      (draws : Draws) (a a' a'' b b' b'' : PqcSession) (first : PqcInitiatePayload)
      (second : PqcRespondPayload) (third : PqcConfirmPayload)
      → initiate prims draws.session_id draws.initiator_secret draws.initiator_keypair a
        ≡ (a', ok first)
      → process_initiate prims draws.responder_secret draws.encapsulation first b ≡ (b', ok second)
      → process_respond prims second a' ≡ (a'', ok third)
      → process_confirm prims third b' ≡ (b'', ok tt)
      → handshake draws a b ≡ (a'', b'', ok tt)
  unfolding handshake
  handshake_run draws a a' a'' b b' b'' first second third e1 e2 e3 e4 =
      ap (initiated draws b) e1 ∙ ap (replied a') e2 ∙ ap (answered b') e3 ∙ ap (confirmed a'') e4

  -- Between two new sessions, with primitives that obey the laws, a 16-byte drawn session id and
  -- 16-byte identity hashes, the three messages of the handshake reach the end: both sessions
  -- are established under the drawn id, each with the hash of the other, both hold one cipher
  -- key of 32 bytes, and the initiator keeps no secret of the exchange.
  pub handshake_lem :
      (laws : Laws prims) (draws : Draws) (a_hash b_hash : List ℕ)
      → length draws.session_id ≡ 16
      → length a_hash ≡ 16
      → length b_hash ≡ 16
      → (let (a, b, outcome) = handshake draws (new a_hash) (new b_hash) in
          (outcome ≡ ok tt)
          × (a.state ≡ established)
          × (b.state ≡ established)
          × (a.session_id ≡ draws.session_id)
          × (b.session_id ≡ draws.session_id)
          × (a.peer_identity_hash ≡ some b_hash)
          × (b.peer_identity_hash ≡ some a_hash)
          × (a.our_x25519_secret_bytes ≡ none)
          × (a.mlkem_keypair ≡ none)
          × ((key : List ℕ) × (a.cipher ≡ some key) × (b.cipher ≡ some key) × (length key ≡ 32)))
  unfolding new
  handshake_lem laws draws a_hash b_hash id_size a_size b_size =
      let secret = draws.initiator_secret in
      let remote = draws.responder_secret in
      let keypair = draws.initiator_keypair in
      let (ciphertext, mlkem_shared, sent, opened, size) =
        laws.encapsulation draws.encapsulation keypair in
      let shared = prims.diffie_hellman secret (prims.x25519_public remote) in
      let (material, derived, key_size, a_tag, b_tag) =
        derive_sizes prims laws shared mlkem_shared draws.session_id kdf_info in
      let key = material.session_key in
      let (b_confirm, b_sent, b_read, _) =
        decrypt_confirm-encrypt_confirm prims laws key material.responder_confirm_tag
          confirm_role_responder 0 b_tag in
      let (a_confirm, a_sent, a_read, _) =
        decrypt_confirm-encrypt_confirm prims laws key material.initiator_confirm_tag
          confirm_role_initiator 0 a_tag in
      let enclosed : encapsulate prims draws.encapsulation (prims.encapsulation_key keypair)
          ≡ ok (ciphertext, mlkem_shared) =
        unfold encapsulate in rw (laws.encapsulation_key_size keypair, sent) refl in
      let disclosed : decapsulate prims keypair ciphertext ≡ ok mlkem_shared =
        unfold decapsulate in rw (size, opened) refl in
      let e1 = initiate_idle draws.session_id secret keypair (new a_hash) refl in
      let e2 =
        process_initiate_idle remote draws.encapsulation mlkem_shared ciphertext b_confirm _
          material (new b_hash) refl refl id_size a_size (laws.public_size secret) enclosed
          (rw (laws.agreement remote secret) derived) b_sent in
      let e3 =
        process_respond_initiating secret keypair mlkem_shared a_confirm _ material _ refl refl
          b_size (laws.public_size remote) refl refl disclosed derived b_read a_sent in
      let e4 =
        process_confirm_responding key material.initiator_confirm_tag _ _ refl refl refl refl
          a_read in
      rw (handshake_run draws _ _ _ _ _ _ _ _ _ e1 e2 e3 e4)
        (refl, refl, refl, refl, refl, refl, refl, refl, refl, (key, refl, refl, key_size))
