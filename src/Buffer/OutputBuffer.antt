-- ===== src/Buffer/OutputBuffer.antt =====
-- `OutputBuffer`: a borrowed slice and the offset of the next write. A method that may fail and
-- that changes the buffer gives it back after an error too.
pub mod Refinement
use styrene_rs.Base.{
  [], ℕ, ◌+◌, ◌≡◌, Bool, List, ◌∷◌, arith, ltb, ◌==◌, if◌then◌else◌, length, take, splice, Result,
  ok, err,
}
use styrene_rs.Error.{RnsError, out_of_memory}

pub record OutputBuffer : Type 0 where
  pub buffer : List ℕ
  pub offset : ℕ

-- A method: what it answers, beside the buffer that it leaves behind.
abbrev pub Writes : Type 0 → Type 0
Writes R = OutputBuffer → Result RnsError R × OutputBuffer

-- The `?` of the source: an error ends the method, with the buffer as it is.
abbrev pub ◌>>=◌ : {R S : Type 0} → Writes R → (R → Writes S) → Writes S
◌>>=◌ method next before =
    let (answer, after) = method before in
    elim answer [ err error ↦ (err error, after) | ok r ↦ next r after ]

infixl 5 ◌>>=◌
abbrev pub refuse : {R : Type 0} → RnsError → Writes R
refuse error after = (err error, after)

infixl 5 ◌>>◌
abbrev pub ◌>>◌ : {R S : Type 0} → Writes R → Writes S → Writes S
first >> second = first >>= λ ignored. second

abbrev pub done : {R : Type 0} → R → Writes R
done r after = (ok r, after)

-- What a chain does, once its first action is known.
pub bind_ok :
    {A B : Type 0} (m : Writes A) (f : A → Writes B) (b : OutputBuffer) {a : A} {b' : OutputBuffer}
    → m b ≡ (ok a, b')
    → (m >>= f) b ≡ f a b'
bind_ok m f b e = ground arith

pub bind_err :
    {A B : Type 0} (m : Writes A) (f : A → Writes B) (b : OutputBuffer) {e : RnsError}
    → (m b).0 ≡ err e
    → ((m >>= f) b).0 ≡ err e
bind_err m f b h = ground arith

unfoldable pub new : List ℕ → OutputBuffer
new buffer = record { buffer = buffer; offset = 0 }

unfoldable pub write : List ℕ → Writes ℕ
write xs b =
    if length xs == 0
    then (ok 0, b)
    else if ltb (length b.buffer) (b.offset + length xs)
    then (err out_of_memory, b)
    else (
      ok (length xs),
      record { buffer = splice b.buffer b.offset xs; offset = b.offset + length xs },
    )

unfoldable pub write_byte : ℕ → Writes ℕ
unfolding write
write_byte byte = write (byte ∷ [])

unfoldable pub reset : OutputBuffer → OutputBuffer
reset b = record b { offset = 0 }

unfoldable pub is_full : OutputBuffer → Bool
is_full b = b.offset == length b.buffer

abbrev pub current_offset : Writes ℕ
current_offset b = (ok b.offset, b)

-- `as_slice`; `as_mut_slice` lends the same range.
abbrev pub as_slice : OutputBuffer → List ℕ
as_slice b = take b.offset b.buffer
