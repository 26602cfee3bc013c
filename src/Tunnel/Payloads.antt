-- ===== src/Tunnel/Payloads.antt =====
-- crates/libs/styrene-mesh/src/pqc.rs: what the messages of a session carry.
use styrene_rs.Base.{ℕ, Option, List}

pub record PqcInitiatePayload : Type 0 where
  pub version : ℕ
  pub session_id : List ℕ
  pub x25519_public : List ℕ
  pub mlkem_encapsulation_key : List ℕ
  pub identity_hash : List ℕ

pub record PqcRespondPayload : Type 0 where
  pub session_id : List ℕ
  pub x25519_public : List ℕ
  pub mlkem_ciphertext : List ℕ
  pub encrypted_confirm : List ℕ
  pub identity_hash : List ℕ

pub record PqcConfirmPayload : Type 0 where
  pub session_id : List ℕ
  pub encrypted_confirm : List ℕ

pub record PqcDataPayload : Type 0 where
  pub session_id : List ℕ
  pub sequence : ℕ
  pub ciphertext : List ℕ

pub record PqcClosePayload : Type 0 where
  pub session_id : List ℕ
  pub reason : ℕ
  pub message : Option (List ℕ)
