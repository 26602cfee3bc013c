-- ===== src/Transport/Resource/Receiver/Collisions.antt =====
-- Two parts whose digests begin with the same bytes.
use styrene_rs.Base.{
  [], ℕ, zero, suc, ◌<◌, ◌≡◌, ◌≢◌, refl, ap, Bool, true, false, ◌&&◌, not, Option, none, some, List,
  ◌∷◌, arith, length, set, get_elem?, Option-cases, Bool-cases, inl, inr, ◌==◌,
}
use styrene_rs.Hash.{Hash}
use styrene_rs.Transport.Link.Cipher.{LinkCipher}
use styrene_rs.Transport.Resource.Utils.{position, map_hash}
use styrene_rs.Transport.Resource.Receiver.{
  ResourceReceiver, PartOutcome, incomplete, completed, store_part, assemble, finish, place,
  handle_part, known_as,
}
use styrene_rs.Transport.Resource.Receiver.Assembly.{joined}

-- The position found passes the test, and no position before it does.
pub position_least {ℓ} :
    {A : Type ℓ} (test : A → Bool) (xs : List A) (i j : ℕ) (x : A)
    → position test xs ≡ some j
    → i < j
    → get_elem? xs i ≡ some x
    → test x ≡ false
unfolding position
position_least test [] i j x p before e = ground arith
position_least test (y ∷ xs) zero j x p before e = ground arith
position_least test (y ∷ xs) (suc i) zero x p before e = absurd (omega arith)
position_least test (y ∷ xs) (suc i) (suc j) x p before e =
    position_least test xs i j x (ground arith) (omega arith) e

pub position_passes {ℓ} :
    {A : Type ℓ} (test : A → Bool) (xs : List A) (j : ℕ) (x : A)
    → position test xs ≡ some j
    → get_elem? xs j ≡ some x
    → test x ≡ true
unfolding position
position_passes test [] j x p e = ground arith
position_passes test (y ∷ xs) zero x p e = ground arith
position_passes test (y ∷ xs) (suc j) x p e = position_passes test xs j x (ground arith) e

joined_empty :
    (parts : List (Option (List ℕ))) (j : ℕ) → get_elem? parts j ≡ some none → joined parts ≡ none
unfolding joined
joined_empty [] j e = ground arith
joined_empty (none ∷ parts) j e = refl
joined_empty (some part ∷ parts) zero e = ground arith
joined_empty (some part ∷ parts) (suc j) e = rw (joined_empty parts j e) refl

set_other {ℓ} :
    {A : Type ℓ} (xs : List A) (i j : ℕ) (v : A) → i ≢ j → get_elem? (set xs i v) j ≡ get_elem? xs j
set_other [] i j v ne = refl
set_other (x ∷ xs) zero zero v ne = absurd (ne refl)
set_other (x ∷ xs) zero (suc j) v ne = refl
set_other (x ∷ xs) (suc i) zero v ne = refl
set_other (x ∷ xs) (suc i) (suc j) v ne = set_other xs i j v (λ p. ne (ap suc p))

abbrev pub is_completed : PartOutcome → Bool
is_completed (completed packet content) = true
is_completed _ = false

-- A slot behind another with the same hash, and empty.
pub record IsShadowed (r : ResourceReceiver) (j : ℕ) : Type 0 where
  pub hash : List ℕ
  pub front : ℕ
  pub before : front < j
  pub there : get_elem? r.hashmap front ≡ some (some hash)
  pub here : get_elem? r.hashmap j ≡ some (some hash)
  pub empty : get_elem? r.parts j ≡ some none

store-IsShadowed :
    (now index j : ℕ) (part : List ℕ) (r : ResourceReceiver)
    → index ≢ j
    → IsShadowed r j
    → IsShadowed (store_part now index part r) j
unfolding store_part
store-IsShadowed now index j part r other s = elim (Option-cases (get_elem? r.parts index)) [
  | inl absent ↦ ground (arith, s)
  | inr (slot, present) ↦ ground (arith, s, set_other r.parts index j (some part) other)
]

module _ (sha256 : List ℕ → Hash) (bunzip : List ℕ → Option (List ℕ)) (link : LinkCipher) where
  finish_stuck :
      (r : ResourceReceiver) (j : ℕ)
      → IsShadowed r j
      → finish sha256 bunzip link r ≡ (r, incomplete)
  unfolding finish assemble
  finish_stuck r j s =
      let missing = joined_empty r.parts j s.empty in
      elim (Bool-cases (r.received == length r.parts && not (length r.parts == 0))) [
        | inl test ↦ rw (test, missing) refl
        | inr test ↦ rw test refl
      ]

  place_stuck :
      (now j : ℕ) (part : List ℕ) (r : ResourceReceiver) (found : Option ℕ)
      → found ≢ some j
      → IsShadowed r j
      → let (r', outcome) = place sha256 bunzip link now part r found in
        IsShadowed r' j × (is_completed outcome ≡ false)
  unfolding place
  place_stuck now j part r none other s = (s, refl)
  place_stuck now j part r (some index) other s =
      let s' = store-IsShadowed now index j part r (λ p. other (ap some p)) s in
      rw (finish_stuck (store_part now index part r) j s') (s', refl)

  -- A receiver with an empty slot whose hash also stands in an earlier slot keeps that slot
  -- empty and does not complete, whatever part arrives.
  pub handle_part-IsShadowed :
      (now j : ℕ) (part : List ℕ) (r : ResourceReceiver)
      → IsShadowed r j
      → let (r', outcome) = handle_part sha256 bunzip link now part r in
        IsShadowed r' j × (is_completed outcome ≡ false)
  unfolding handle_part
  handle_part-IsShadowed now j part r s =
      let test : Option (List ℕ) → Bool = known_as (map_hash sha256 part r.origin.random_hash) in
      let other : position test r.hashmap ≢ some j = λ p.
        clash _ (position_passes test r.hashmap j (some s.hash) p s.here)
          (position_least test r.hashmap s.front j (some s.hash) p s.before s.there) in
      ground (arith, place_stuck now j part r (position test r.hashmap) other s)
    where
      clash : (b : Bool) → b ≡ true → b ≡ false → ⊥
      clash b e d = cc
