-- ===== src/Tunnel/TunnelError.antt =====
-- crates/libs/styrene-tunnel/src/error.rs and the states of src/session/mod.rs. The texts of the errors
-- are left out.
use styrene_rs.Base.{ℕ, List}

pub data SessionState : Type 0 where
  idle initiating responding established rekeying closed : SessionState

pub data TunnelError : Type 0 where
  crypto : TunnelError
  invalid_state : SessionState → TunnelError
  session_not_found : List ℕ → TunnelError
  handshake_failed : TunnelError
  decryption_failed : TunnelError
  replay_detected : ℕ → TunnelError
  invalid_key_material : TunnelError
