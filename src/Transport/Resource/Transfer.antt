-- ===== src/Transport/Resource/Transfer.antt =====
-- A whole transfer: what a sender cuts up, a receiver puts together, whatever the order of the parts.
pub mod Slots
pub mod Offer
pub mod Delivery
pub mod Sent
pub mod Complete
