-- ===== src/Buffer/InputBuffer/Reading.antt =====
-- `InputBuffer` as a cursor over the bytes that are left.
use styrene_rs.Base.{
  ℕ, ◌+◌, ◌≤◌, ◌≡◌, List, arith, ltb, if◌then◌else◌, length, take, drop, length-drop, drop-drop,
  Result, ok, err,
}
use styrene_rs.Error.{RnsError, out_of_memory}
use styrene_rs.Buffer.InputBuffer.{InputBuffer, read_slice, bytes_left}

abbrev pub remaining : InputBuffer → List ℕ
remaining b = drop b.offset b.buffer

-- What a read of `size` bytes promises of the bytes left: they are split, or nothing is read.
abbrev pub split_within : List ℕ → ℕ → List ℕ × Result RnsError (List ℕ)
split_within left size =
    if ltb (length left) size
    then (left, err out_of_memory)
    else (drop size left, ok (take size left))

-- With the cursor inside the buffer, read_slice takes the next bytes off the front, keeps the
-- cursor inside and the count of bytes left exact; a read past the end is refused and moves
-- nothing.
pub read_slice-split_within :
    (b : InputBuffer) (size : ℕ)
    → b.offset ≤ length b.buffer
    → let (b', r) = read_slice b size in
      ((remaining b', r) ≡ split_within (remaining b) size)
      × (b'.offset ≤ length b'.buffer)
      × (bytes_left b' ≡ length (remaining b'))
unfolding read_slice bytes_left
read_slice-split_within b size v = ground (
  arith,
  length-drop b.offset b.buffer,
  length-drop (b.offset + size) b.buffer,
  drop-drop b.offset size b.buffer,
)
