-- ===== src/Crypt.antt =====
-- crates/libs/styrene-rns/src/crypt: the encryption of packets.
pub mod Fernet
