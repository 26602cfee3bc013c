-- ===== src/Buffer/InputBuffer.antt =====
-- `InputBuffer`: a borrowed slice and the offset of the next read.
pub mod Reading
use styrene_rs.Base.{
  ℕ, ◌+◌, ◌-◌, List, ◌++◌, ltb, if◌then◌else◌, length, get_or, take, drop, Result, ok, err, ◌>>=◌,
}
use styrene_rs.Error.{RnsError, out_of_memory}

pub record InputBuffer : Type 0 where
  pub buffer : List ℕ
  pub offset : ℕ

unfoldable pub new : List ℕ → InputBuffer
new buffer = record { buffer = buffer; offset = 0 }

-- `read` fills a caller's slice of `size` bytes; what it holds afterwards is the second part.
unfoldable pub read : InputBuffer → ℕ → InputBuffer × Result RnsError (List ℕ)
read b size =
    if ltb (length b.buffer) (b.offset + size)
    then (b, err out_of_memory)
    else (record b { offset = b.offset + size }, ok (take size (drop b.offset b.buffer)))

-- `read_size` copies into the front of a caller's slice `buf`.
unfoldable pub read_size : InputBuffer → List ℕ → ℕ → InputBuffer × List ℕ × Result RnsError ℕ
read_size b buf size =
    if ltb (length b.buffer) (b.offset + size)
    then (b, buf, err out_of_memory)
    else if ltb (length buf) size
    then (b, buf, err out_of_memory)
    else (
      record b { offset = b.offset + size },
      take size (drop b.offset b.buffer) ++ drop size buf,
      ok size,
    )

-- `buf[0]` of the one byte that `read` has filled in.
unfoldable pub read_byte : InputBuffer → InputBuffer × Result RnsError ℕ
unfolding read
read_byte b = let (b', r) = read b 1 in (b', (r >>= λ buf. ok (get_or buf 0 0)))

unfoldable pub read_slice : InputBuffer → ℕ → InputBuffer × Result RnsError (List ℕ)
read_slice b size =
    if ltb (length b.buffer) (b.offset + size)
    then (b, err out_of_memory)
    else (record b { offset = b.offset + size }, ok (take size (drop b.offset b.buffer)))

unfoldable pub bytes_left : InputBuffer → ℕ
bytes_left b = length b.buffer - b.offset
