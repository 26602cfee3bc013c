-- ===== src/Tunnel.antt =====
-- crates/libs/styrene-tunnel: post-quantum sessions between two peers.
pub mod TunnelError
pub mod Crypto
pub mod Replay
pub mod Payloads
pub mod CloseMessage
pub mod Session
