-- ===== src/Buffer/Contents.antt =====
-- The abstract view of both writable buffers: the bytes written so far, under a capacity.
use styrene_rs.Base.{
  [], ℕ, ◌+◌, ◌-◌, ◌≤◌, ◌≡◌, sym, ap, ◌∙◌, List, ◌++◌, append_assoc, arith, ltb, if◌then◌else◌,
  length, take, drop, length-append, length-take, length-drop, take-append-drop, take-append_ge,
  drop-append_ge, take-append_exact, drop-drop, splice, Result, ok, err,
}
use styrene_rs.Error.{RnsError, out_of_memory, invalid_argument}

-- What `write` promises of the contents: all of the data is appended, or none of it.
abbrev pub append_within : ℕ → List ℕ → List ℕ → List ℕ × Result RnsError ℕ
append_within capacity old xs =
    if ltb capacity (length old + length xs)
    then (old, err out_of_memory)
    else (old ++ xs, ok (length xs))

-- What `rotate_left` promises of the contents: the first `mid` bytes leave, if there are so many.
abbrev pub drop_within : List ℕ → ℕ → List ℕ × Result RnsError ℕ
drop_within old mid =
    if ltb (length old) mid
    then (old, err invalid_argument)
    else (drop mid old, ok (length old - mid))

-- What is read back below the new end after a copy at the old end.
pub take-splice :
    (at : ℕ) (buf xs : List ℕ)
    → at + length xs ≤ length buf
    → take (at + length xs) (splice buf at xs) ≡ take at buf ++ xs
take-splice at buf xs h =
    take-append_ge (at + length xs) (take at buf) rest (omega (arith, length-take at buf))
    ∙ ap (λ l. take at buf ++ l) (ap (λ k. take k rest) front ∙ take-append_exact xs _)
  where
    rest : List ℕ
    rest = xs ++ drop (at + length xs) buf

    front : at + length xs - length (take at buf) ≡ length xs
    front = omega (arith, length-take at buf)

pub length-splice :
    (at : ℕ) (buf xs : List ℕ)
    → at + length xs ≤ length buf
    → length (splice buf at xs) ≡ length buf
length-splice at buf xs h = omega (
  arith,
  length-append (take at buf) (xs ++ drop (at + length xs) buf),
  length-append xs (drop (at + length xs) buf),
  length-take at buf,
  length-drop (at + length xs) buf,
)

-- What lies behind a copy is left as it was.
drop-splice :
    (at k : ℕ) (buf xs : List ℕ)
    → at + length xs ≤ length buf
    → drop (at + length xs + k) (splice buf at xs) ≡ drop (at + length xs + k) buf
drop-splice at k buf xs h =
    drop-append_ge (at + length xs + k) (take at buf) (xs ++ tail)
      (omega (arith, length-take at buf))
    ∙ ap (λ n. drop n (xs ++ tail)) rest_count
    ∙ drop-append_ge (length xs + k) xs tail (omega arith)
    ∙ ap (λ n. drop n tail) (omega arith)
    ∙ drop-drop (at + length xs) k buf
  where
    tail : List ℕ
    tail = drop (at + length xs) buf

    rest_count : at + length xs + k - length (take at buf) ≡ length xs + k
    rest_count = omega (arith, length-take at buf)

-- Two copies, one behind the other, are one copy.
pub splice-splice :
    (at : ℕ) (buf xs ys : List ℕ)
    → at + length xs ≤ length buf
    → splice (splice buf at xs) (at + length xs) ys ≡ splice buf at (xs ++ ys)
splice-splice at buf xs ys h =
    ap (λ l. l ++ (ys ++ drop (at + length xs + length ys) (splice buf at xs)))
      (take-splice at buf xs h)
    ∙ ap (λ l. (take at buf ++ xs) ++ (ys ++ l)) (drop-splice at (length ys) buf xs h)
    ∙ append_assoc (take at buf) xs _
    ∙ ap (λ l. take at buf ++ l) (sym (append_assoc xs ys _))
    ∙ ap (λ n. take at buf ++ ((xs ++ ys) ++ drop n buf)) (omega (arith, length-append xs ys))

pub splice_nil : (at : ℕ) (buf : List ℕ) → splice buf at [] ≡ buf
splice_nil at buf = ap (λ n. take at buf ++ drop n buf) (omega arith) ∙ take-append-drop at buf
