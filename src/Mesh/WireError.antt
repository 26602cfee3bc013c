-- ===== src/Mesh/WireError.antt =====
-- crates/libs/styrene-mesh/src/wire.rs: the errors of the Styrene envelope. A text is its bytes.
use styrene_rs.Base.{ℕ, List}

pub data WireError : Type 0 where
  too_short : ℕ → WireError
  invalid_namespace : WireError
  unsupported_version : ℕ → WireError
  unknown_message_type : ℕ → WireError
  cbor_decode : List ℕ → WireError
  cbor_encode : List ℕ → WireError
