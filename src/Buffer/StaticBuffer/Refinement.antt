-- ===== src/Buffer/StaticBuffer/Refinement.antt =====
-- `StaticBuffer<N>` against the list of its bytes: each operation on the array is one on the list.
use styrene_rs.Base.{
  [], ℕ, ◌-◌, ◌≤◌, min, ◌≡◌, sym, ap, ◌∙◌, inl, inr, List, ◌∷◌, ◌++◌, append-nil, arith, ltb,
  Bool-cases, length, take, drop, length-append, length-take, length-drop, length-replicate,
  take-append_le, take_ge, drop-take,
}
use styrene_rs.Buffer.Contents.{append_within, drop_within, take-splice, length-splice}
use styrene_rs.Buffer.StaticBuffer.{
  StaticBuffer, as_slice, new, write, safe_write, new_from_slice, rotate_left,
}

-- The array has its N bytes, and the length is inside it.
pub record IsValid (capacity : ℕ) (b : StaticBuffer) : Type 0 where
  pub full_size : length b.buffer ≡ capacity
  pub within : b.len ≤ capacity

module _ (capacity : ℕ) where
  pub length-as_slice : (b : StaticBuffer) → IsValid capacity b → length (as_slice b) ≡ b.len
  length-as_slice b v = omega (arith, length-take b.len b.buffer)

  pub new-IsValid : IsValid capacity (new capacity)
  unfolding new
  new-IsValid = record { full_size = length-replicate capacity 0; within = omega arith }

  pub write-IsValid :
      (b : StaticBuffer) (xs : List ℕ)
      → IsValid capacity b
      → IsValid capacity (write capacity b xs).0
  unfolding write
  write-IsValid b xs v = ground (arith, length-splice b.len b.buffer xs)

  -- On a valid buffer, StaticBuffer::write appends the bytes and returns their number, or
  -- refuses what does not fit and leaves the bytes in use as they are.
  pub write-append_within :
      (b : StaticBuffer) (xs : List ℕ)
      → IsValid capacity b
      → let (b', r) = write capacity b xs in
        (as_slice b', r) ≡ append_within capacity (as_slice b) xs
  unfolding write
  write-append_within b [] v = ground (arith, length-as_slice b v, append-nil (as_slice b))
  write-append_within b (x ∷ xs) v =
      ground (arith, length-as_slice b v, take-splice b.len b.buffer (x ∷ xs))

  kept_count :
      (b : StaticBuffer) (xs : List ℕ)
      → length (take (min (length xs) (capacity - b.len)) xs) ≡ min (length xs) (capacity - b.len)
  kept_count b xs = omega (arith, length-take (min (length xs) (capacity - b.len)) xs)

  take-min : (n : ℕ) (xs : List ℕ) → take (min (length xs) n) xs ≡ take n xs
  take-min n xs = elim (Bool-cases (ltb (length xs) n)) [
    | inl h ↦
        ap (λ k. take k xs) (ground arith)
        ∙ (take_ge (length xs) xs (omega arith) ∙ sym (take_ge n xs (ground arith)))
    | inr h ↦ ap (λ k. take k xs) (ground arith)
  ]

  -- On a valid buffer, safe_write keeps the invariant, appends the longest prefix that fits and
  -- reports its length.
  pub safe_write_lem :
      (b : StaticBuffer) (xs : List ℕ)
      → IsValid capacity b
      → let (b', n) = safe_write capacity b xs in
        IsValid capacity b'
        × (as_slice b' ≡ as_slice b ++ take (capacity - length (as_slice b)) xs)
        × (n ≡ min (length xs) (capacity - length (as_slice b)))
  unfolding safe_write
  safe_write_lem b xs v = ground (
    arith,
    write-IsValid b (take (min (length xs) (capacity - b.len)) xs) v,
    write-append_within b (take (min (length xs) (capacity - b.len)) xs) v,
    kept_count b xs,
    length-as_slice b v,
    take-min (capacity - b.len) xs,
  )

  -- A buffer made from a slice holds its first N bytes.
  pub as_slice-new_from_slice :
      (xs : List ℕ) → as_slice (new_from_slice capacity xs) ≡ take capacity xs
  unfolding new_from_slice
  as_slice-new_from_slice xs =
      (safe_write_lem (new capacity) xs new-IsValid).1
      ∙ ap (λ k. take k xs) (unfold new in omega arith)

  -- On a valid buffer, rotate_left keeps the invariant and drops that many bytes from the front,
  -- or refuses and changes nothing.
  pub rotate_left_lem :
      (b : StaticBuffer) (mid : ℕ)
      → IsValid capacity b
      → IsValid capacity (rotate_left b mid).0
        × ((as_slice (rotate_left b mid).0, (rotate_left b mid).1) ≡ drop_within (as_slice b) mid)
  unfolding rotate_left
  rotate_left_lem b mid v = ground (
    arith,
    length-as_slice b v,
    length-append (drop mid b.buffer) (take mid b.buffer),
    length-take mid b.buffer,
    length-drop mid b.buffer,
    take-append_le (b.len - mid) (drop mid b.buffer) (take mid b.buffer),
    drop-take mid (b.len - mid) b.buffer,
  )
