-- ===== src/Packet.antt =====
-- crates/libs/styrene-rns/src/packet.rs: the RNS packet, its header bits and its wire form.
pub mod Header
pub mod Context
pub mod Codec
pub mod Digest
pub mod Serde
pub mod Deserialize
