-- ===== src/Base/Bytes.antt =====
-- Bytes as numbers below 256, big-endian words, and facts checked over a whole range of bytes.
use styrene_rs.Base.{
  [], ℕ, zero, suc, ◌+◌, ◌*◌, ◌/◌, ◌%◌, ◌<◌, ◌≡◌, ◌↔◌, Bool, true, false, ◌&&◌, List, ◌∷◌, arith,
  ◌==◌, get_or, if◌then◌else◌, ==_iff, All,
}

abbrev pub IsByte : ℕ → Type 0
IsByte b = b < 256

abbrev pub AllBytes : List ℕ → Type 0
AllBytes = All IsByte

-- `u16::to_be_bytes` and `u16::from_be_bytes`
abbrev pub to_be_bytes : ℕ → List ℕ
to_be_bytes n = (n / 256) ∷ (n % 256) ∷ []

abbrev pub from_be_bytes : ℕ → ℕ → ℕ
from_be_bytes hi lo = hi * 256 + lo

-- The equality of two byte sequences.
unfoldable pub bytes_eq : List ℕ → List ℕ → Bool
bytes_eq [] [] = true
bytes_eq [] (y ∷ ys) = false
bytes_eq (x ∷ xs) [] = false
bytes_eq (x ∷ xs) (y ∷ ys) = x == y && bytes_eq xs ys

pub bytes_eq_iff : (xs ys : List ℕ) → (bytes_eq xs ys ≡ true) ↔ (xs ≡ ys)
unfolding bytes_eq
bytes_eq_iff [] [] = ground arith
bytes_eq_iff [] (y ∷ ys) = ground arith
bytes_eq_iff (x ∷ xs) [] = ground arith
bytes_eq_iff (x ∷ xs) (y ∷ ys) = ground (arith, ==_iff x y, bytes_eq_iff xs ys)

-- Whether a test holds of every number below a bound. For the 256 bytes this is a table to run.
unfoldable pub each_below : ℕ → (ℕ → Bool) → Bool
each_below (suc bound) test = if test bound then each_below bound test else false
each_below zero test = true

pub each_below-holds :
    (bound : ℕ) (test : ℕ → Bool) (byte : ℕ)
    → each_below bound test ≡ true
    → byte < bound
    → test byte ≡ true
unfolding each_below
each_below-holds (suc bound) test byte table small =
    ground (arith, each_below-holds bound test byte)
each_below-holds zero test byte table small = absurd (omega arith)

pub All-get_or : (n : ℕ) (xs : List ℕ) → AllBytes xs → IsByte (get_or xs n 0)
All-get_or n [] h = omega arith
All-get_or zero (x ∷ xs) h = h.0
All-get_or (suc n) (x ∷ xs) h = All-get_or n xs h.1
