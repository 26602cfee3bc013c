-- ===== src/Error.antt =====
-- crates/libs/styrene-rns/src/error.rs: the error codes of the RNS crate.
pub data RnsError : Type 0 where
  out_of_memory incorrect_signature invalid_argument incorrect_hash : RnsError
  crypto_error packet_error connection_error : RnsError
