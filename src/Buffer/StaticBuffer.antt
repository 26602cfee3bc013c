-- ===== src/Buffer/StaticBuffer.antt =====
-- `StaticBuffer<N>`: an array of N bytes and the number of bytes in use.
pub mod Refinement
use styrene_rs.Base.{
  ℕ, ◌+◌, ◌-◌, min, Bool, Option, none, some, List, ◌++◌, ltb, ◌==◌, if◌then◌else◌, length, take,
  drop, replicate, splice, Result, ok, err,
}
use styrene_rs.Error.{RnsError, out_of_memory, invalid_argument}

pub record StaticBuffer : Type 0 where
  pub buffer : List ℕ
  pub len : ℕ

-- `as_slice`; `as_mut_slice` lends the same range.
abbrev pub as_slice : StaticBuffer → List ℕ
as_slice b = take b.len b.buffer

unfoldable pub is_empty : StaticBuffer → Bool
is_empty b = b.len == 0

unfoldable pub reset : StaticBuffer → StaticBuffer
reset b = record b { len = 0 }

unfoldable pub resize : StaticBuffer → ℕ → StaticBuffer
resize b n = record b { len = min n (length b.buffer) }

-- The const parameter `N`.
module _ (capacity : ℕ) where
  -- `new` and `Default::default`
  unfoldable pub new : StaticBuffer
  new = record { buffer = replicate capacity 0; len = 0 }

  unfoldable pub write : StaticBuffer → List ℕ → StaticBuffer × Result RnsError ℕ
  write b xs =
      if length xs == 0
      then (b, ok 0)
      else if ltb capacity (b.len + length xs)
      then (b, err out_of_memory)
      else (record { buffer = splice b.buffer b.len xs; len = b.len + length xs }, ok (length xs))

  -- The number of bytes to keep, then `write(..).unwrap_or(0)`.
  unfoldable pub safe_write : StaticBuffer → List ℕ → StaticBuffer × ℕ
  safe_write b xs =
      let (b', r) = write b (take (min (length xs) (capacity - b.len)) xs) in
      (b', elim r [ ok n ↦ n | err _ ↦ 0 ])

  -- `chain_write` is `write(data)?`, with the buffer handed on.
  unfoldable pub chain_write : StaticBuffer → List ℕ → Result RnsError StaticBuffer
  chain_write b xs = let (b', r) = write b xs in elim r [ ok _ ↦ ok b' | err e ↦ err e ]

  unfoldable pub chain_safe_write : StaticBuffer → List ℕ → StaticBuffer
  chain_safe_write b xs = (safe_write b xs).0

  unfoldable pub new_from_slice : List ℕ → StaticBuffer
  unfolding new
  new_from_slice xs = (safe_write new xs).0

-- The whole array is rotated, the bytes past the end too.
unfoldable pub rotate_left : StaticBuffer → ℕ → StaticBuffer × Result RnsError ℕ
rotate_left b mid = if ltb b.len mid then (b, err invalid_argument) else (
  record { buffer = drop mid b.buffer ++ take mid b.buffer; len = b.len - mid },
  ok (b.len - mid),
)

-- The slice index panics (`none`) where `n` is past the array; no check stands before it.
unfoldable pub accuire_buf : StaticBuffer → ℕ → Option StaticBuffer
accuire_buf b n = if ltb (length b.buffer) n then none else some (record b { len = n })

unfoldable pub accuire_buf_max : StaticBuffer → StaticBuffer
accuire_buf_max b = record b { len = length b.buffer }
