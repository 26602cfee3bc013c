-- ===== src/Base/Lists.antt =====
-- Lists measured and indexed by native numbers, under the library's names.
use Prim.Native.Nat.{ℕ, zero, suc, ◌+◌, ◌-◌, ◌≤◌, ◌<◌, min}
use mathlib.Core.Path.{◌≡◌, refl, ap, sym, ◌∙◌}
use mathlib.Core.List.{List, [], ◌∷◌, ◌++◌}
use mathlib.Core.Option.{Option, none, some}
use native.Mathlib.Omega.{arith}

module _ {ℓ} {A : Type ℓ} where
  abbrev pub length : List A → ℕ
  length [] = 0
  length (x ∷ xs) = suc (length xs)

  abbrev pub get_elem? : List A → ℕ → Option A
  get_elem? [] i = none
  get_elem? (x ∷ xs) zero = some x
  get_elem? (x ∷ xs) (suc i) = get_elem? xs i

  abbrev pub get_or : List A → ℕ → A → A
  get_or [] i d = d
  get_or (x ∷ xs) zero d = x
  get_or (x ∷ xs) (suc i) d = get_or xs i d

  -- A write out of bounds changes nothing.
  abbrev pub set : List A → ℕ → A → List A
  set [] i v = []
  set (x ∷ xs) zero v = v ∷ xs
  set (x ∷ xs) (suc i) v = x ∷ set xs i v

  abbrev pub take : ℕ → List A → List A
  take zero xs = []
  take (suc n) [] = []
  take (suc n) (x ∷ xs) = x ∷ take n xs

  abbrev pub drop : ℕ → List A → List A
  drop zero xs = xs
  drop (suc n) [] = []
  drop (suc n) (x ∷ xs) = drop n xs

  abbrev pub replicate : ℕ → A → List A
  replicate zero a = []
  replicate (suc n) a = a ∷ replicate n a

  -- A predicate of every element, which computes to a tuple.
  abbrev pub All {κ} : (A → Type κ) → List A → Type κ
  All P [] = Unit {κ}
  All P (x ∷ xs) = P x × All P xs

  pub length-append : (xs ys : List A) → length (xs ++ ys) ≡ length xs + length ys
  length-append [] ys = omega arith
  length-append (x ∷ xs) ys = omega (arith, length-append xs ys)

  pub length-take : (n : ℕ) (xs : List A) → length (take n xs) ≡ min n (length xs)
  length-take zero xs = omega arith
  length-take (suc n) [] = omega arith
  length-take (suc n) (x ∷ xs) = omega (arith, length-take n xs)

  pub length-drop : (n : ℕ) (xs : List A) → length (drop n xs) ≡ length xs - n
  length-drop zero xs = omega arith
  length-drop (suc n) [] = omega arith
  length-drop (suc n) (x ∷ xs) = omega (arith, length-drop n xs)

  pub length-replicate : (n : ℕ) (a : A) → length (replicate n a) ≡ n
  length-replicate zero a = refl
  length-replicate (suc n) a = ap suc (length-replicate n a)

  pub take-append-drop : (n : ℕ) (xs : List A) → take n xs ++ drop n xs ≡ xs
  take-append-drop zero xs = refl
  take-append-drop (suc n) [] = refl
  take-append-drop (suc n) (x ∷ xs) = ap (λ l. x ∷ l) (take-append-drop n xs)

  -- Taking and dropping at the seam of an append.
  pub take-append_ge :
      (n : ℕ) (xs ys : List A) → length xs ≤ n → take n (xs ++ ys) ≡ xs ++ take (n - length xs) ys
  take-append_ge n [] ys h = ap (λ k. take k ys) (omega arith)
  take-append_ge zero (x ∷ xs) ys h = absurd (omega arith)
  take-append_ge (suc n) (x ∷ xs) ys h =
      ap (λ l. x ∷ l) (take-append_ge n xs ys (omega arith))
      ∙ ap (λ k. x ∷ (xs ++ take k ys)) (omega arith)

  pub drop-append_ge :
      (n : ℕ) (xs ys : List A) → length xs ≤ n → drop n (xs ++ ys) ≡ drop (n - length xs) ys
  drop-append_ge n [] ys h = ap (λ k. drop k ys) (omega arith)
  drop-append_ge zero (x ∷ xs) ys h = absurd (omega arith)
  drop-append_ge (suc n) (x ∷ xs) ys h =
      drop-append_ge n xs ys (omega arith) ∙ ap (λ k. drop k ys) (omega arith)

  pub take-append_le : (n : ℕ) (xs ys : List A) → n ≤ length xs → take n (xs ++ ys) ≡ take n xs
  take-append_le zero xs ys h = refl
  take-append_le (suc n) [] ys h = absurd (omega arith)
  take-append_le (suc n) (x ∷ xs) ys h = ap (λ l. x ∷ l) (take-append_le n xs ys (omega arith))

  pub drop-append_le :
      (n : ℕ) (xs ys : List A) → n ≤ length xs → drop n (xs ++ ys) ≡ drop n xs ++ ys
  drop-append_le zero xs ys h = refl
  drop-append_le (suc n) [] ys h = absurd (omega arith)
  drop-append_le (suc n) (x ∷ xs) ys h = drop-append_le n xs ys (omega arith)

  pub take_ge : (n : ℕ) (xs : List A) → length xs ≤ n → take n xs ≡ xs
  take_ge zero [] h = refl
  take_ge zero (x ∷ xs) h = absurd (omega arith)
  take_ge (suc n) [] h = refl
  take_ge (suc n) (x ∷ xs) h = ap (λ l. x ∷ l) (take_ge n xs (omega arith))

  pub drop_ge : (n : ℕ) (xs : List A) → length xs ≤ n → drop n xs ≡ []
  drop_ge zero [] h = refl
  drop_ge zero (x ∷ xs) h = absurd (omega arith)
  drop_ge (suc n) [] h = refl
  drop_ge (suc n) (x ∷ xs) h = drop_ge n xs (omega arith)

  pub take-append_exact : (xs ys : List A) → take (length xs) (xs ++ ys) ≡ xs
  take-append_exact [] ys = refl
  take-append_exact (x ∷ xs) ys = ap (λ l. x ∷ l) (take-append_exact xs ys)

  pub drop-append_exact : (xs ys : List A) → drop (length xs) (xs ++ ys) ≡ ys
  drop-append_exact [] ys = refl
  drop-append_exact (x ∷ xs) ys = drop-append_exact xs ys

  pub drop-take : (m n : ℕ) (xs : List A) → drop m (take (m + n) xs) ≡ take n (drop m xs)
  drop-take zero n xs = ap (λ k. take k xs) (omega arith)
  drop-take (suc m) n [] = ap (λ k. drop (suc m) (take k [])) (step m n) ∙ drop_nil n
    where
      step : (m n : ℕ) → suc m + n ≡ suc (m + n)
      step m n = omega arith

      drop_nil : (n : ℕ) → [] ≡ take n []
      drop_nil zero = refl
      drop_nil (suc n) = refl
  drop-take (suc m) n (x ∷ xs) =
      ap (λ k. drop (suc m) (take k (x ∷ xs))) (step m n) ∙ drop-take m n xs
    where
      step : (m n : ℕ) → suc m + n ≡ suc (m + n)
      step m n = omega arith

  pub drop-drop : (m n : ℕ) (xs : List A) → drop n (drop m xs) ≡ drop (m + n) xs
  drop-drop zero n xs = ap (λ k. drop k xs) (omega arith)
  drop-drop (suc m) n [] = drop_ge n [] (omega arith) ∙ sym (drop_ge (suc m + n) [] (omega arith))
  drop-drop (suc m) n (x ∷ xs) =
      let step : suc (m + n) ≡ suc m + n = omega arith in
      drop-drop m n xs ∙ ap (λ k. drop k (x ∷ xs)) step

  pub take-append_len : (n : ℕ) (xs ys : List A) → length xs ≡ n → take n (xs ++ ys) ≡ xs
  take-append_len n xs ys h = ap (λ k. take k (xs ++ ys)) (sym h) ∙ take-append_exact xs ys

  pub drop-append_len : (n : ℕ) (xs ys : List A) → length xs ≡ n → drop n (xs ++ ys) ≡ ys
  drop-append_len n xs ys h = ap (λ k. drop k (xs ++ ys)) (sym h) ∙ drop-append_exact xs ys

  pub get_or-append_len :
      (n : ℕ) (xs : List A) (y : A) (ys : List A) (d : A)
      → length xs ≡ n
      → get_or (xs ++ (y ∷ ys)) n d ≡ y
  get_or-append_len n [] y ys d h = ap (λ k. get_or (y ∷ ys) k d) (sym h)
  get_or-append_len zero (x ∷ xs) y ys d h = absurd (omega arith)
  get_or-append_len (suc n) (x ∷ xs) y ys d h = get_or-append_len n xs y ys d (omega arith)

  pub drop-get_or :
      (n : ℕ) (xs : List A) (d : A) → n < length xs → drop n xs ≡ get_or xs n d ∷ drop (n + 1) xs
  drop-get_or n [] d h = absurd (omega arith)
  drop-get_or zero (x ∷ xs) d h = refl
  drop-get_or (suc n) (x ∷ xs) d h =
      let step : suc (n + 1) ≡ suc n + 1 = omega arith in
      drop-get_or n xs d (omega arith) ∙ ap (λ k. get_or xs n d ∷ drop k (x ∷ xs)) step

  -- `buf[at..at + data.len()].copy_from_slice(data)`
  abbrev pub splice : List A → ℕ → List A → List A
  splice buf at xs = take at buf ++ (xs ++ drop (at + length xs) buf)
