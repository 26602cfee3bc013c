-- ===== src/Mesh.antt =====
-- crates/libs/styrene-mesh: the Styrene envelope.
pub mod WireError
pub mod MessageType
pub mod Wire
