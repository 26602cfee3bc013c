-- ===== src/Tests.antt =====
-- Concrete runs of the modelled code, and its theorems at concrete inputs.
pub mod Buffers
pub mod Frames
pub mod Packets
pub mod Tables
pub mod Messages
pub mod Tunnels
pub mod Access
pub mod Announces
pub mod Transfers
pub mod Receivers
