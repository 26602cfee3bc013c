-- ===== src/Transport.antt =====
-- The tables of the transport node: crates/libs/styrene-rns/src/transport. A clock reading
-- (`Instant::now()`) and a draw of the random generator are arguments of the operation that takes
-- them; an instant and a duration are numbers of nanoseconds.
pub mod PathTable
pub mod LinkTable
pub mod PacketCache
pub mod CacheSet
pub mod AnnounceEntry
pub mod AnnounceCache
pub mod AnnounceTable
pub mod Link
pub mod Resource
