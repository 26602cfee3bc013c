-- ===== src/Tests/Tunnels.antt =====
-- Concrete sessions for the tunnel of crates/libs/styrene-tunnel, over primitives that hide nothing.
use styrene_rs.Base.{
  ℕ, ◌+◌, ◌-◌, ◌≡◌, refl, ap, ◌∙◌, Bool, true, Option, some, List, [], ◌∷◌, ◌++◌, arith, length,
  take, replicate, length-append, length-replicate, take-append_len, ok, err,
}
use styrene_rs.Base.Bytes.{bytes_eq}
use styrene_rs.Tunnel.TunnelError.{established, replay_detected}
use styrene_rs.Tunnel.Crypto.{Primitives, nonce_from_sequence, decrypt}
use styrene_rs.Tunnel.Crypto.Laws.{Laws}
use styrene_rs.Tunnel.Replay.{no_packets, check_replay, mark_seen}
use styrene_rs.Tunnel.Payloads.{PqcDataPayload}
use styrene_rs.Tunnel.Session.{PqcSession, new, decrypt_data, encrypt_data}
use styrene_rs.Tunnel.Session.Handshake.{Draws, handshake, handshake_lem}
use styrene_rs.Tunnel.Session.Frames.{
  admit, receive, Distinct, Live, decrypt_data-admit, receive-Distinct, decrypt_data-encrypt_data,
}

abbrev seal_plainly : List ℕ → List ℕ → List ℕ → Option (List ℕ)
seal_plainly key nonce plaintext = some (plaintext ++ replicate 16 0)

abbrev unseal_plainly : List ℕ → List ℕ → List ℕ → Option (List ℕ)
unseal_plainly key nonce sealed = some (take (length sealed - 16) sealed)

abbrev open_primitives : Primitives
open_primitives = record {
  x25519_public = λ secret. replicate 32 9;
  diffie_hellman = λ secret public. public;
  encapsulation_key = λ keypair. replicate 1184 5;
  kem_encapsulate = λ drawn key. some (replicate 1088 6, replicate 32 7);
  kem_decapsulate = λ keypair ciphertext. some (replicate 32 7);
  hkdf = λ salt material info. some (replicate 96 8);
  seal = seal_plainly;
  unseal = unseal_plainly;
}

unsealed :
    (plaintext : List ℕ)
    → take (length (plaintext ++ replicate 16 0) - 16) (plaintext ++ replicate 16 0) ≡ plaintext
unsealed plaintext =
    take-append_len (length (plaintext ++ replicate 16 0) - 16) plaintext (replicate 16 0)
      (omega (arith, length-append plaintext (replicate 16 0), length-replicate {A = ℕ} 16 0))

open_primitives-Laws : Laws open_primitives
open_primitives-Laws = record {
  public_size = λ secret. length-replicate {A = ℕ} 32 9;
  agreement = λ a b. refl;
  encapsulation_key_size = λ keypair. length-replicate {A = ℕ} 1184 5;
  encapsulation = λ drawn keypair.
      (replicate 1088 6, replicate 32 7, refl, refl, length-replicate {A = ℕ} 1088 6);
  expansion = λ salt material info. (replicate 96 8, refl, length-replicate {A = ℕ} 96 8);
  sealing = λ key nonce plaintext small. (
    plaintext ++ replicate 16 0,
    refl,
    ap some (unsealed plaintext),
    (length-append plaintext (replicate 16 0)
        ∙ ap (λ n. length plaintext + n) (length-replicate {A = ℕ} 16 0)),
  );
}

abbrev session_key : List ℕ
session_key = replicate 32 8

abbrev first_hash : List ℕ
first_hash = replicate 16 1

abbrev second_hash : List ℕ
second_hash = replicate 16 2

abbrev live_session : PqcSession
live_session = record (new first_hash) { state = established; cipher = some session_key }

live_session-Live : Live open_primitives session_key [] live_session
unfolding new
live_session-Live = record { state = refl; cipher = refl; window = refl; once = tt }

abbrev draws : Draws
draws = record {
  session_id = replicate 16 3;
  initiator_secret = replicate 32 10;
  initiator_keypair = 11 ∷ [];
  responder_secret = replicate 32 12;
  encapsulation = 13 ∷ [];
}

handshake_lem_example :
    (handshake open_primitives draws (new first_hash) (new second_hash)).2 ≡ ok tt
handshake_lem_example =
    (handshake_lem open_primitives open_primitives-Laws draws first_hash second_hash
      (length-replicate {A = ℕ} 16 3) (length-replicate {A = ℕ} 16 1)
      (length-replicate {A = ℕ} 16 2)).0

abbrev data_frame : ℕ → PqcDataPayload
data_frame sequence = record {
  session_id = replicate 16 0;
  sequence = sequence;
  ciphertext = nonce_from_sequence sequence ++ (1 ∷ 2 ∷ replicate 16 0);
}

decrypt_data-admit_example :
    decrypt_data open_primitives (data_frame 4) live_session
    ≡ admit open_primitives session_key [] (data_frame 4) live_session
unfolding new
decrypt_data-admit_example =
    decrypt_data-admit open_primitives session_key [] (data_frame 4) live_session refl refl refl

abbrev frames : List PqcDataPayload
frames = data_frame 4 ∷ data_frame 4 ∷ data_frame 2 ∷ []

receive-Distinct_example : Distinct (receive open_primitives frames [] live_session).1
unfolding new
receive-Distinct_example =
    (receive-Distinct open_primitives session_key frames live_session refl refl refl).0

-- The repeated frame is refused, and the late one is accepted.
receive_run :
    ((receive open_primitives frames [] live_session).1 ≡ 2 ∷ 4 ∷ [])
    × ((decrypt_data open_primitives (data_frame 4) live_session).1 ≡ ok (1 ∷ 2 ∷ []))
unfolding new decrypt_data decrypt nonce_from_sequence bytes_eq check_replay mark_seen
receive_run = (refl, refl)

decrypt_data-encrypt_data_example :
    (frame : PqcDataPayload) × (encrypt_data open_primitives (1 ∷ 2 ∷ []) live_session
      ≡ (record live_session { send_sequence = 1 }, ok frame))
    × (frame.sequence ≡ 0)
    × (decrypt_data open_primitives frame live_session ≡ (
      record live_session { replay_window = mark_seen no_packets frame.sequence },
      ok (1 ∷ 2 ∷ []),
    ))
    × (decrypt_data open_primitives frame (decrypt_data open_primitives frame live_session).0 ≡ (
      (decrypt_data open_primitives frame live_session).0,
      err (replay_detected frame.sequence),
    ))
unfolding new
decrypt_data-encrypt_data_example =
    decrypt_data-encrypt_data open_primitives session_key [] (1 ∷ 2 ∷ []) live_session live_session
      open_primitives-Laws refl refl (omega arith) (omega arith) live_session-Live refl refl

abbrev any_text : List ℕ → Bool
any_text text = true
