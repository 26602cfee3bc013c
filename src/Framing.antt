-- ===== src/Framing.antt =====
-- crates/libs/styrene-rns/src/transport/iface: how a packet is delimited on a byte stream, by
-- HDLC-like frames (hdlc.rs, over TCP and UDP) and by KISS frames (kiss.rs, over serial radios).
pub mod Hdlc
pub mod Kiss
