-- ===== src/Channel.antt =====
-- crates/libs/styrene-rns/src/transport/channel.rs and the stream messages of channel_buffer.rs.
pub mod Envelope
pub mod StreamData
pub mod Delivery
