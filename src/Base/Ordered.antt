-- ===== src/Base/Ordered.antt =====
-- The source's `BTreeMap` over byte keys: a keyed map whose entries stand in the order of their keys.
use styrene_rs.Base.{
  ℕ, suc, ◌≤◌, ◌≡◌, refl, Bool, true, false, ◌&&◌, ◌||◌, none, some, List, [], ◌∷◌, arith, ltb,
  ◌==◌ as nat_eq, if◌then◌else◌, length, inl, inr, ap, Bool-cases,
}
use mathlib.Core.Path.{subst}
use styrene_rs.Base.Keys.{◌==◌, bytes_key, Map, lookup, remove}
use styrene_rs.Base.Retain.{Unique}
use styrene_rs.Base.Bytes.{bytes_eq, bytes_eq_iff}

-- The lexicographic order.
unfoldable pub bytes_lt : List ℕ → List ℕ → Bool
bytes_lt xs [] = false
bytes_lt [] (y ∷ ys) = true
bytes_lt (x ∷ xs) (y ∷ ys) = ltb x y || (nat_eq x y && bytes_lt xs ys)

bytes_lt_irrefl : (xs : List ℕ) → bytes_lt xs xs ≡ false
unfolding bytes_lt
bytes_lt_irrefl [] = refl
bytes_lt_irrefl (x ∷ xs) = ground (arith, bytes_lt_irrefl xs)

bytes_lt_trans :
    (xs ys zs : List ℕ) → bytes_lt xs ys ≡ true → bytes_lt ys zs ≡ true → bytes_lt xs zs ≡ true
unfolding bytes_lt
bytes_lt_trans [] [] zs a b = absurd (ground (arith, a))
bytes_lt_trans (x ∷ xs) [] zs a b = absurd (ground (arith, a))
bytes_lt_trans xs (y ∷ ys) [] a b = absurd (ground (arith, b))
bytes_lt_trans [] (y ∷ ys) (z ∷ zs) a b = refl
bytes_lt_trans (x ∷ xs) (y ∷ ys) (z ∷ zs) a b = ground (arith, bytes_lt_trans xs ys zs, a, b)

bytes_lt_total :
    (xs ys : List ℕ) → bytes_lt ys xs ≡ false → bytes_eq xs ys ≡ false → bytes_lt xs ys ≡ true
unfolding bytes_lt bytes_eq
bytes_lt_total [] [] a b = absurd (ground (arith, b))
bytes_lt_total [] (y ∷ ys) a b = refl
bytes_lt_total (x ∷ xs) [] a b = absurd (ground (arith, a))
bytes_lt_total (x ∷ xs) (y ∷ ys) a b = ground (arith, bytes_lt_total xs ys, a, b)

module _ {κ} {V : Type κ} where
  -- `BTreeMap::insert`
  unfoldable pub put : List ℕ → V → Map (List ℕ) V → Map (List ℕ) V
  put key value [] = (key, value) ∷ []
  put key value ((stored, old) ∷ rest) =
      let further = put key value rest in
      if stored == key
      then (key, value) ∷ rest
      else if bytes_lt key stored
      then (key, value) ∷ (stored, old) ∷ rest
      else (stored, old) ∷ further

  pub lookup-put :
      (key other : List ℕ) (value : V) (m : Map (List ℕ) V)
      → lookup other (put key value m) ≡ (if key == other then some value else lookup other m)
  unfolding lookup put
  lookup-put key other value [] = ground arith
  lookup-put key other value ((stored, old) ∷ rest) = ground (
    arith,
    lookup-put key other value rest,
    bytes_eq_iff stored other,
    bytes_eq_iff stored key,
    bytes_eq_iff key other,
  )

  pub length-put :
      (key : List ℕ) (value : V) (m : Map (List ℕ) V) → length (put key value m) ≤ suc (length m)
  unfolding put
  length-put key value [] = omega arith
  length-put key value ((stored, old) ∷ rest) = ground (arith, length-put key value rest)

  pub length-remove : (key : List ℕ) (m : Map (List ℕ) V) → length (remove key m) ≤ length m
  unfolding remove
  length-remove key [] = omega arith
  length-remove key ((stored, old) ∷ rest) = ground (arith, length-remove key rest)

  -- Each key is less than the next.
  abbrev pub Before : List ℕ → Map (List ℕ) V → Type 0
  Before key [] = Unit
  Before key ((stored, old) ∷ rest) = bytes_lt key stored ≡ true

  abbrev pub Sorted : Map (List ℕ) V → Type 0
  Sorted [] = Unit
  Sorted ((stored, old) ∷ rest) = Before stored rest × Sorted rest

  Before-put :
      (first key : List ℕ) (value : V) (m : Map (List ℕ) V)
      → Before first m
      → bytes_lt first key ≡ true
      → Before first (put key value m)
  unfolding put
  Before-put first key value [] before less = less
  Before-put first key value ((stored, old) ∷ rest) before less =
      elim (Bool-cases (stored == key)) [
        | inl same ↦ rw same less
        | inr other ↦ elim (Bool-cases (bytes_lt key stored)) [
          | inl here ↦ rw (other, here) less
          | inr later ↦ rw (other, later) before
        ]
      ]

  pub put-Sorted :
      (key : List ℕ) (value : V) (m : Map (List ℕ) V) → Sorted m → Sorted (put key value m)
  unfolding put
  put-Sorted key value [] s = (tt, tt)
  put-Sorted key value ((stored, old) ∷ rest) (before, s) = elim (Bool-cases (stored == key)) [
    | inl same ↦ rw same (subst (λ k. Before k rest) ((bytes_eq_iff stored key).0 same) before, s)
    | inr other ↦ elim (Bool-cases (bytes_lt key stored)) [
      | inl here ↦ rw (other, here) (here, (before, s))
      | inr later ↦
          rw (other, later)
            (
              Before-put stored key value rest before (
                  ground (arith, bytes_lt_total stored key, bytes_eq_iff stored key, other, later)),
              put-Sorted key value rest s,
            )
    ]
  ]

  Before-step :
      (low high : List ℕ) (m : Map (List ℕ) V)
      → bytes_lt low high ≡ true
      → Before high m
      → Before low m
  Before-step low high [] less before = tt
  Before-step low high ((stored, old) ∷ rest) less before =
      bytes_lt_trans low high stored less before

  Before-lookup :
      (key : List ℕ) (m : Map (List ℕ) V) → Before key m → Sorted m → lookup key m ≡ none
  unfolding lookup
  Before-lookup key [] before s = refl
  Before-lookup key ((stored, old) ∷ rest) before (next, s) =
      let rest_none = Before-lookup key rest (Before-step key stored rest before next) s in
      elim (Bool-cases (stored == key)) [
        | inl same ↦ absurd (
            ground (
              arith,
              before,
              ap (bytes_lt key) ((bytes_eq_iff stored key).0 same),
              bytes_lt_irrefl key,
            ))
        | inr other ↦ rw other rest_none
      ]

  pub Sorted-Unique : (m : Map (List ℕ) V) → Sorted m → Unique m
  Sorted-Unique [] s = tt
  Sorted-Unique ((stored, old) ∷ rest) (before, s) =
      (Before-lookup stored rest before s, Sorted-Unique rest s)

  remove_absent : (key : List ℕ) (m : Map (List ℕ) V) → lookup key m ≡ none → remove key m ≡ m
  unfolding lookup remove
  remove_absent key [] absent = refl
  remove_absent key ((stored, old) ∷ rest) absent = ground (arith, absent, remove_absent key rest)

  Before-remove :
      (first key : List ℕ) (m : Map (List ℕ) V)
      → Before first m
      → Sorted m
      → Before first (remove key m)
  unfolding remove
  Before-remove first key [] before s = tt
  Before-remove first key ((stored, old) ∷ rest) before (next, s) =
      elim (Bool-cases (stored == key)) [
        | inl same ↦
            rw same (Before-remove first key rest (Before-step first stored rest before next) s)
        | inr other ↦ rw other before
      ]

  pub remove-Sorted : (key : List ℕ) (m : Map (List ℕ) V) → Sorted m → Sorted (remove key m)
  unfolding remove
  remove-Sorted key [] s = tt
  remove-Sorted key ((stored, old) ∷ rest) (before, s) = elim (Bool-cases (stored == key)) [
    | inl same ↦ rw same (remove-Sorted key rest s)
    | inr other ↦ rw other (Before-remove stored key rest before s, remove-Sorted key rest s)
  ]
