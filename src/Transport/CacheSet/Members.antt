-- ===== src/Transport/CacheSet/Members.antt =====
-- The members of the set and of its queue, and what an insert may make of them.
use styrene_rs.Base.{
  [], ℕ, ◌+◌, ◌≤◌, ◌≡◌, refl, Bool, true, false, ◌||◌, List, ◌∷◌, ◌++◌, arith, ◌==◌ as nat_eq,
  if◌then◌else◌, length,
}
use styrene_rs.Base.Keys.{Eq, ◌==◌}
use styrene_rs.Transport.CacheSet.{CacheSet, holds, discard}

module _ {ℓ} {T : Type ℓ} ⦃e : Eq T⦄ where
  -- No member stands twice.
  abbrev pub Distinct : List T → Type 0
  Distinct [] = Unit
  Distinct (x ∷ xs) = (holds x xs ≡ false) × Distinct xs

  pub record IsValid (c : CacheSet T) : Type ℓ where
    pub distinct_members : Distinct c.members
    pub distinct_queue : Distinct c.queue
    pub same_members : (x : T) → holds x c.members ≡ holds x c.queue
    pub same_length : length c.members ≡ length c.queue
    pub bounded : length c.queue ≤ c.capacity
    pub some_room : 1 ≤ c.capacity

  -- What the set promises, on the queue alone: a new value goes to the back, and the oldest leaves
  -- when there is no room.
  abbrev pub push : ℕ → T → List T → List T × Bool
  push capacity value [] = (value ∷ [], true)
  push capacity value (oldest ∷ rest) =
      if holds value (oldest ∷ rest)
      then (oldest ∷ rest, false)
      else if nat_eq (length (oldest ∷ rest)) capacity
      then (rest ++ (value ∷ []), true)
      else (oldest ∷ (rest ++ (value ∷ [])), true)

  pub holds-append : (x y : T) (xs : List T) → holds x (xs ++ (y ∷ [])) ≡ (holds x xs || y == x)
  unfolding holds
  holds-append x y [] = ground arith
  holds-append x y (z ∷ zs) = ground (arith, holds-append x y zs)

  pub holds-discard :
      (x y : T) (xs : List T)
      → Distinct xs
      → holds x (discard y xs) ≡ (if y == x then false else holds x xs)
  unfolding holds discard
  holds-discard x y [] d = ground arith
  holds-discard x y (z ∷ zs) d =
      ground (arith, holds-discard x y zs d.1, e.same_iff z y, e.same_iff z x, e.same_iff y x)

  pub discard-Distinct : (y : T) (xs : List T) → Distinct xs → Distinct (discard y xs)
  unfolding discard
  discard-Distinct y [] d = tt
  discard-Distinct y (z ∷ zs) d =
      ground (arith, discard-Distinct y zs d.1, holds-discard z y zs d.1)

  pub append-Distinct :
      (y : T) (xs : List T) → Distinct xs → holds y xs ≡ false → Distinct (xs ++ (y ∷ []))
  unfolding holds
  append-Distinct y [] d h = (refl, tt)
  append-Distinct y (z ∷ zs) d h =
      ground (arith, append-Distinct y zs d.1, holds-append z y zs, e.same_iff z y, e.same_iff y z)

  pub length-discard :
      (y : T) (xs : List T) → holds y xs ≡ true → length (discard y xs) + 1 ≡ length xs
  unfolding holds discard
  length-discard y [] h = cc
  length-discard y (z ∷ zs) h = ground (arith, length-discard y zs)
