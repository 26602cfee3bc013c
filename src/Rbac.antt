-- ===== src/Rbac.antt =====
-- crates/libs/styrene-rbac: who may do what.
pub mod Text
pub mod Role
pub mod Capability
pub mod RosterEntry
pub mod Policy
