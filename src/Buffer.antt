-- ===== src/Buffer.antt =====
-- crates/libs/styrene-rns/src/buffer.rs: the fixed-capacity byte buffers under the codecs.
-- An array `[u8; N]` and a slice are lists of bytes; sums of lengths cannot wrap a `usize`, since
-- no slice is longer than `isize::MAX` bytes. A method on `&mut self` returns the new buffer.
pub mod Contents
pub mod StaticBuffer
pub mod OutputBuffer
pub mod InputBuffer
