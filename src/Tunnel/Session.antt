-- ===== src/Tunnel/Session.antt =====
-- crates/libs/styrene-tunnel/src/session/mod.rs: the handshake, the data frames and the close of a
-- session. Every random value is an argument of the method that draws it.
use styrene_rs.Base.{
  ℕ, ◌+◌, ◌-◌, ◌^◌, Bool, true, false, not, Option, none, some, List, [], ◌∷◌, ltb, ◌==◌,
  if◌then◌else◌, length, replicate, ok, err,
}
pub mod Handshake
pub mod Frames
pub mod Close
use styrene_rs.Base.Bytes.{bytes_eq}
use styrene_rs.Base.Stateful.{Stateful, ◌>>=◌, ◌>>◌, answer, try, check, current, update, ok_or}
use styrene_rs.Tunnel.TunnelError.{
  SessionState, idle, initiating, responding, established, rekeying, closed, TunnelError, crypto,
  invalid_state, session_not_found, handshake_failed, invalid_key_material,
}
use styrene_rs.Tunnel.Crypto.{
  Primitives, confirm_role_initiator, confirm_role_responder, encrypt, decrypt, encrypt_confirm,
  decrypt_confirm, encapsulate, decapsulate, derive,
}
use styrene_rs.Tunnel.Payloads.{
  PqcInitiatePayload, PqcRespondPayload, PqcConfirmPayload, PqcDataPayload, PqcClosePayload,
}
use styrene_rs.Tunnel.CloseMessage.{encode_authenticated_close, decode_authenticated_close}
use styrene_rs.Tunnel.Replay.{ReplayWindow, no_packets, check_replay, mark_seen}

-- `b"styrene-pqc-v1"`
abbrev pub kdf_info : List ℕ
kdf_info = 115 ∷ 116 ∷ 121 ∷ 114 ∷ 101 ∷ 110 ∷ 101 ∷ 45 ∷ 112 ∷ 113 ∷ 99 ∷ 45 ∷ 118 ∷ 49 ∷ []

abbrev pub pqc_version : ℕ
pqc_version = 1

abbrev pub max_sequence : ℕ
max_sequence = 2 ^ 64 - 2

pub record PqcSession : Type 0 where
  pub session_id : List ℕ
  pub state : SessionState
  pub our_identity_hash : List ℕ
  pub peer_identity_hash : Option (List ℕ)
  pub cipher : Option (List ℕ)
  pub session_key : Option (List ℕ)
  pub initiator_confirm_tag : Option (List ℕ)
  pub responder_confirm_tag : Option (List ℕ)
  pub our_x25519_public : Option (List ℕ)
  pub mlkem_keypair : Option (List ℕ)
  pub our_x25519_secret_bytes : Option (List ℕ)
  pub send_sequence : ℕ
  pub replay_window : ReplayWindow
  pub ratchet_step : ℕ

abbrev pub Method : Type 0 → Type 0
Method R = Stateful PqcSession TunnelError R

unfoldable pub new : List ℕ → PqcSession
new our_identity_hash = record {
  session_id = replicate 16 0;
  state = idle;
  our_identity_hash = our_identity_hash;
  peer_identity_hash = none;
  cipher = none;
  session_key = none;
  initiator_confirm_tag = none;
  responder_confirm_tag = none;
  our_x25519_public = none;
  mlkem_keypair = none;
  our_x25519_secret_bytes = none;
  send_sequence = 0;
  replay_window = no_packets;
  ratchet_step = 0;
}

abbrev pub state_eq : SessionState → SessionState → Bool
state_eq idle idle = true
state_eq initiating initiating = true
state_eq responding responding = true
state_eq established established = true
state_eq rekeying rekeying = true
state_eq closed closed = true
state_eq _ _ = false

-- The guard at the head of a method.
abbrev pub expect : SessionState → Method (Unit {0})
expect state s = check (state_eq s.state state) (invalid_state s.state) s

module _ (prims : Primitives) where
  unfoldable pub initiate : List ℕ → List ℕ → List ℕ → Method PqcInitiatePayload
  initiate drawn_id drawn_secret drawn_keypair = do
    expect idle
    update (λ s. record s {
      session_id = drawn_id;
      our_x25519_secret_bytes = some drawn_secret;
      our_x25519_public = some (prims.x25519_public drawn_secret);
      mlkem_keypair = some drawn_keypair;
      state = initiating;
    })
    s ← current
    answer (record {
      version = pqc_version;
      session_id = drawn_id;
      x25519_public = prims.x25519_public drawn_secret;
      mlkem_encapsulation_key = prims.encapsulation_key drawn_keypair;
      identity_hash = s.our_identity_hash;
    })

  -- `Option::take` of the two secrets of the initiator.
  unfoldable pub take_x25519_secret : Method (List ℕ)
  take_x25519_secret s =
      (record s { our_x25519_secret_bytes = none }, ok_or s.our_x25519_secret_bytes crypto)

  unfoldable pub take_mlkem_keypair : Method (List ℕ)
  take_mlkem_keypair s = (record s { mlkem_keypair = none }, ok_or s.mlkem_keypair crypto)

  unfoldable pub process_respond : PqcRespondPayload → Method PqcConfirmPayload
  process_respond respond = do
    expect initiating
    s ← current
    check (bytes_eq respond.session_id s.session_id) handshake_failed
    check (length respond.identity_hash == 16) invalid_key_material
    update (λ s. record s { peer_identity_hash = some respond.identity_hash })
    secret ← take_x25519_secret
    check (length respond.x25519_public == 32) invalid_key_material
    keypair ← take_mlkem_keypair
    mlkem_shared ← try (decapsulate prims keypair respond.mlkem_ciphertext)
    material ← try (
        derive prims (prims.diffie_hellman secret respond.x25519_public) mlkem_shared s.session_id
          kdf_info)
    received ← try (
        decrypt_confirm prims material.session_key respond.encrypted_confirm confirm_role_responder)
    check (bytes_eq received material.responder_confirm_tag) handshake_failed
    confirm ← try (
        encrypt_confirm prims material.session_key material.initiator_confirm_tag
          confirm_role_initiator)
    update (λ s. record s {
      session_key = some material.session_key;
      cipher = some material.session_key;
      state = established;
    })
    answer (record { session_id = s.session_id; encrypted_confirm = confirm })

  unfoldable pub process_initiate : List ℕ → List ℕ → PqcInitiatePayload → Method PqcRespondPayload
  process_initiate drawn_secret drawn_encapsulation initiate = do
    expect idle
    check (initiate.version == pqc_version) handshake_failed
    check (length initiate.session_id == 16) invalid_key_material
    update (λ s. record s { session_id = initiate.session_id })
    check (length initiate.identity_hash == 16) invalid_key_material
    update (λ s. record s {
      peer_identity_hash = some initiate.identity_hash;
      our_x25519_public = some (prims.x25519_public drawn_secret);
    })
    check (length initiate.x25519_public == 32) invalid_key_material
    (ciphertext, mlkem_shared) ←
        try (encapsulate prims drawn_encapsulation initiate.mlkem_encapsulation_key)
    material ← try (
        derive prims (prims.diffie_hellman drawn_secret initiate.x25519_public) mlkem_shared
          initiate.session_id kdf_info)
    confirm ← try (
        encrypt_confirm prims material.session_key material.responder_confirm_tag
          confirm_role_responder)
    update (λ s. record s {
      initiator_confirm_tag = some material.initiator_confirm_tag;
      session_key = some material.session_key;
      cipher = some material.session_key;
      state = responding;
    })
    s ← current
    answer (record {
      session_id = initiate.session_id;
      x25519_public = prims.x25519_public drawn_secret;
      mlkem_ciphertext = ciphertext;
      encrypted_confirm = confirm;
      identity_hash = s.our_identity_hash;
    })

  unfoldable pub process_confirm : PqcConfirmPayload → Method (Unit {0})
  process_confirm confirm = do
    expect responding
    s ← current
    check (bytes_eq confirm.session_id s.session_id) handshake_failed
    key ← try (ok_or s.cipher crypto)
    received ← try (decrypt_confirm prims key confirm.encrypted_confirm confirm_role_initiator)
    expected ← try (ok_or s.initiator_confirm_tag crypto)
    check (bytes_eq received expected) handshake_failed
    update (λ s. record s {
      initiator_confirm_tag = none;
      responder_confirm_tag = none;
      state = established;
    })

  unfoldable pub encrypt_data : List ℕ → Method PqcDataPayload
  encrypt_data plaintext = do
    expect established
    s ← current
    check (ltb s.send_sequence max_sequence) crypto
    key ← try (ok_or s.cipher crypto)
    ciphertext ← try (encrypt prims key s.send_sequence plaintext)
    update (λ s. record s { send_sequence = s.send_sequence + 1 })
    answer
        (record { session_id = s.session_id; sequence = s.send_sequence; ciphertext = ciphertext })

  -- A number is marked only after its frame was authenticated.
  unfoldable pub decrypt_data : PqcDataPayload → Method (List ℕ)
  decrypt_data frame = do
    expect established
    s ← current
    check (bytes_eq frame.session_id s.session_id) (session_not_found frame.session_id)
    try (check_replay s.replay_window frame.sequence)
    key ← try (ok_or s.cipher crypto)
    plaintext ← try (decrypt prims key frame.sequence frame.ciphertext)
    update (λ s. record s { replay_window = mark_seen s.replay_window frame.sequence })
    answer plaintext

pub data CloseAction : Type 0 where
  authenticated : PqcDataPayload → CloseAction
  unauthenticated : PqcClosePayload → CloseAction

unfoldable pub close : Primitives → ℕ → Option (List ℕ) → Method CloseAction
close prims reason message s =
    if state_eq s.state closed
    then (s, err (invalid_state s.state))
    else if state_eq s.state established
    then (do
      frame ← encrypt_data prims (encode_authenticated_close reason message)
      update (λ s. record s { state = closed })
      answer (authenticated frame))
        s
    else (
      record s { state = closed },
      ok (
          unauthenticated
            (record { session_id = s.session_id; reason = reason; message = message })),
    )

unfoldable pub process_close : PqcClosePayload → Method (Unit {0})
process_close received = do
  s ← current
  check (bytes_eq received.session_id s.session_id) (session_not_found received.session_id)
  check (not (state_eq s.state established)) handshake_failed
  update (λ s. record s { state = closed })

unfoldable pub try_authenticated_close :
    (List ℕ → Bool) → List ℕ → PqcSession → PqcSession × Option (ℕ × Option (List ℕ))
try_authenticated_close utf8 plaintext s = elim (decode_authenticated_close utf8 plaintext) [
  | none ↦ (s, none)
  | some found ↦ (record s { state = closed }, some found)
]
