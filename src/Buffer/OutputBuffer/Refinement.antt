-- ===== src/Buffer/OutputBuffer/Refinement.antt =====
-- `OutputBuffer` against the list of the bytes written so far.
use styrene_rs.Base.{
  [], ℕ, ◌+◌, ◌≤◌, ◌<◌, ◌≡◌, ap, List, ◌∷◌, ◌++◌, append-nil, arith, length, length-append,
  length-take, splice, ok, err,
}
use styrene_rs.Error.{out_of_memory}
use styrene_rs.Buffer.Contents.{
  append_within, take-splice, length-splice, splice-splice, splice_nil,
}
use styrene_rs.Buffer.OutputBuffer.{OutputBuffer, write, write_byte, as_slice}

abbrev pub IsValid : OutputBuffer → Type 0
IsValid b = b.offset ≤ length b.buffer

-- The buffer after the bytes `xs` have been written at its offset.
abbrev pub appended : List ℕ → OutputBuffer → OutputBuffer
appended xs b = record { buffer = splice b.buffer b.offset xs; offset = b.offset + length xs }

abbrev pub Fits : List ℕ → OutputBuffer → Type 0
Fits xs b = b.offset + length xs ≤ length b.buffer

pub appended-IsValid : (xs : List ℕ) (b : OutputBuffer) → Fits xs b → IsValid (appended xs b)
appended-IsValid xs b h = omega (arith, length-splice b.offset b.buffer xs h)

pub length-appended :
    (xs : List ℕ) (b : OutputBuffer) → Fits xs b → length (appended xs b).buffer ≡ length b.buffer
length-appended xs b h = length-splice b.offset b.buffer xs h

pub as_slice-appended :
    (xs : List ℕ) (b : OutputBuffer) → Fits xs b → as_slice (appended xs b) ≡ as_slice b ++ xs
as_slice-appended xs b h = take-splice b.offset b.buffer xs h

pub appended-appended :
    (xs ys : List ℕ) (b : OutputBuffer)
    → Fits xs b
    → appended ys (appended xs b) ≡ appended (xs ++ ys) b
appended-appended xs ys b h =
    λ i. record { buffer = splice-splice b.offset b.buffer xs ys h i; offset = offsets i }
  where
    offsets : b.offset + length xs + length ys ≡ b.offset + length (xs ++ ys)
    offsets = omega (arith, length-append xs ys)

pub appended_nil : (b : OutputBuffer) → appended [] b ≡ b
appended_nil b = λ i. record { buffer = splice_nil b.offset b.buffer i; offset = offsets i }
  where
    offsets : b.offset + 0 ≡ b.offset
    offsets = omega arith

pub write-Fits :
    (x : ℕ) (xs : List ℕ) (b : OutputBuffer)
    → Fits (x ∷ xs) b
    → write (x ∷ xs) b ≡ (ok (length (x ∷ xs)), appended (x ∷ xs) b)
unfolding write
write-Fits x xs b h = ground arith

pub write_full :
    (x : ℕ) (xs : List ℕ) (b : OutputBuffer)
    → length b.buffer < b.offset + length (x ∷ xs)
    → write (x ∷ xs) b ≡ (err out_of_memory, b)
unfolding write
write_full x xs b h = ground arith

length-as_slice : (b : OutputBuffer) → IsValid b → length (as_slice b) ≡ b.offset
length-as_slice b v = omega (arith, length-take b.offset b.buffer)

-- The bytes in use and the result of `write`, as one step on the list of bytes.
pub write_output-append_within :
    (b : OutputBuffer) (xs : List ℕ)
    → IsValid b
    → let (r, b') = write xs b in
      IsValid b' × ((as_slice b', r) ≡ append_within (length b.buffer) (as_slice b) xs)
unfolding write
write_output-append_within b [] v = ground (arith, length-as_slice b v, append-nil (as_slice b))
write_output-append_within b (x ∷ xs) v = ground (
  arith,
  length-as_slice b v,
  length-splice b.offset b.buffer (x ∷ xs),
  take-splice b.offset b.buffer (x ∷ xs),
)

pub write_byte-Fits :
    (x : ℕ) (b : OutputBuffer) → Fits (x ∷ []) b → write_byte x b ≡ (ok 1, appended (x ∷ []) b)
unfolding write_byte
write_byte-Fits x b h = write-Fits x [] b h

pub write_byte_full :
    (x : ℕ) (b : OutputBuffer)
    → length b.buffer < b.offset + 1
    → (write_byte x b).0 ≡ err out_of_memory
unfolding write_byte
write_byte_full x b h = ap (λ p. p.0) (write_full x [] b h)
