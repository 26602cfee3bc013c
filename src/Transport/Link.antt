-- ===== src/Transport/Link.antt =====
-- crates/libs/styrene-rns/src/transport/destination_ext/link.rs: what the other components use of a
-- link, its address and its encryption.
pub mod Cipher
