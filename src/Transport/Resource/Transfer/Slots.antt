-- ===== src/Transport/Resource/Transfer/Slots.antt =====
-- The slots of a receiver, each empty or holding the part of the sender that belongs in it.
use styrene_rs.Base.{
  [], ℕ, zero, suc, ◌<◌, ◌≡◌, ◌≢◌, refl, ap, ◌∙◌, true, Option, none, some, List, ◌∷◌, ◌++◌, map,
  arith, length, set, get_elem?, ◌⊎◌, inl, inr, Bool-cases,
}
use styrene_rs.Base.Bytes.{bytes_eq, bytes_eq_iff}
use styrene_rs.Transport.Resource.Messages.{concat}
use styrene_rs.Transport.Resource.Utils.{position}
use styrene_rs.Transport.Resource.Receiver.{known_as}
use styrene_rs.Transport.Resource.Receiver.Assembly.{joined}
use styrene_rs.Transport.Resource.Receiver.Counting.{filled, filled_le}

abbrev pub Kept : List (List ℕ) → List (Option (List ℕ)) → Type 0
Kept [] [] = Unit
Kept [] (slot ∷ slots) = ⊥
Kept (part ∷ parts) [] = ⊥
Kept (part ∷ parts) (none ∷ slots) = Kept parts slots
Kept (part ∷ parts) (some kept ∷ slots) = (kept ≡ part) × Kept parts slots

pub Kept-length :
    (parts : List (List ℕ)) (slots : List (Option (List ℕ)))
    → Kept parts slots
    → length slots ≡ length parts
Kept-length [] [] k = refl
Kept-length [] (slot ∷ slots) k = elim k [ ]
Kept-length (part ∷ parts) [] k = elim k [ ]
Kept-length (part ∷ parts) (none ∷ slots) k = ap suc (Kept-length parts slots k)
Kept-length (part ∷ parts) (some kept ∷ slots) k = ap suc (Kept-length parts slots k.1)

pub Kept-set :
    (parts : List (List ℕ)) (slots : List (Option (List ℕ))) (i : ℕ) (part : List ℕ)
    → Kept parts slots
    → get_elem? parts i ≡ some part
    → Kept parts (set slots i (some part))
Kept-set [] slots i part k e = ground arith
Kept-set (p ∷ parts) [] i part k e = k
Kept-set (p ∷ parts) (none ∷ slots) zero part k e = ground arith
Kept-set (p ∷ parts) (some q ∷ slots) zero part k e = ground arith
Kept-set (p ∷ parts) (none ∷ slots) (suc i) part k e = Kept-set parts slots i part k e
Kept-set (p ∷ parts) (some q ∷ slots) (suc i) part k e = (k.0, Kept-set parts slots i part k.1 e)

-- The slot of a part is empty, or the part is in it.
pub Kept-slot :
    (parts : List (List ℕ)) (slots : List (Option (List ℕ))) (i : ℕ) (part : List ℕ)
    → Kept parts slots
    → get_elem? parts i ≡ some part
    → (get_elem? slots i ≡ some none) ⊎ (get_elem? slots i ≡ some (some part))
Kept-slot [] slots i part k e = ground arith
Kept-slot (p ∷ parts) [] i part k e = elim k [ ]
Kept-slot (p ∷ parts) (none ∷ slots) zero part k e = inl refl
Kept-slot (p ∷ parts) (some q ∷ slots) zero part k e = inr (ground arith)
Kept-slot (p ∷ parts) (none ∷ slots) (suc i) part k e = Kept-slot parts slots i part k e
Kept-slot (p ∷ parts) (some q ∷ slots) (suc i) part k e = Kept-slot parts slots i part k.1 e

pub Kept-joined :
    (parts : List (List ℕ)) (slots : List (Option (List ℕ)))
    → Kept parts slots
    → filled slots ≡ length slots
    → joined slots ≡ some (concat parts)
unfolding joined concat
Kept-joined [] [] k h = refl
Kept-joined [] (slot ∷ slots) k h = elim k [ ]
Kept-joined (p ∷ parts) [] k h = elim k [ ]
Kept-joined (p ∷ parts) (none ∷ slots) k h = absurd (omega (arith, filled_le slots))
Kept-joined (p ∷ parts) (some q ∷ slots) k h =
    rw (Kept-joined parts slots k.1 (omega arith)) (ap (λ part. some (part ++ concat parts)) k.0)

-- An empty slot after a part was put in another one was empty before.
pub empty-set :
    (slots : List (Option (List ℕ))) (i j : ℕ) (part : List ℕ)
    → get_elem? (set slots i (some part)) j ≡ some none
    → (get_elem? slots j ≡ some none) × (j ≢ i)
empty-set [] i j part e = ground arith
empty-set (s ∷ slots) zero zero part e = ground arith
empty-set (s ∷ slots) zero (suc j) part e = (e, λ p. omega arith)
empty-set (s ∷ slots) (suc i) zero part e = (e, λ p. omega arith)
empty-set (s ∷ slots) (suc i) (suc j) part e =
    let (before, other) = empty-set slots i j part e in (before, λ p. other (omega arith))

-- As long as not all slots are filled, there is an empty one.
pub some_empty :
    (slots : List (Option (List ℕ)))
    → filled slots < length slots
    → (j : ℕ) × (get_elem? slots j ≡ some none)
some_empty [] h = absurd (omega arith)
some_empty (none ∷ slots) h = (0, refl)
some_empty (some q ∷ slots) h = let (j, e) = some_empty slots (omega arith) in (suc j, e)

-- No two places hold the same.
abbrev pub Distinct : List (List ℕ) → Type 0
Distinct hashes =
    (i j : ℕ) (hash : List ℕ)
    → get_elem? hashes i ≡ some hash
    → get_elem? hashes j ≡ some hash
    → i ≡ j

position_found :
    (hashes : List (List ℕ)) (i : ℕ) (hash : List ℕ)
    → get_elem? hashes i ≡ some hash
    → (j : ℕ) × (position (known_as hash) (map some hashes) ≡ some j)
      × (get_elem? hashes j ≡ some hash)
unfolding position
position_found [] i hash e = ground arith
position_found (x ∷ hashes) zero hash e =
    let test : bytes_eq x hash ≡ true = (bytes_eq_iff x hash).1 (ground arith) in
    (0, rw test refl, e)
position_found (x ∷ hashes) (suc i) hash e = elim (Bool-cases (bytes_eq x hash)) [
  | inl test ↦ (0, rw test refl, ap some ((bytes_eq_iff x hash).0 test))
  | inr test ↦ let (j, p, g) = position_found hashes i hash e in (suc j, rw (test, p) refl, g)
]

pub position-Distinct :
    (hashes : List (List ℕ)) (i : ℕ) (hash : List ℕ)
    → Distinct hashes
    → get_elem? hashes i ≡ some hash
    → position (known_as hash) (map some hashes) ≡ some i
position-Distinct hashes i hash once e =
    let (j, p, g) = position_found hashes i hash e in p ∙ ap some (once j i hash g e)

pub absent_slot :
    (parts : List (List ℕ)) (slots : List (Option (List ℕ))) (i : ℕ)
    → Kept parts slots
    → get_elem? parts i ≡ none
    → get_elem? slots i ≡ none
absent_slot [] [] i k e = refl
absent_slot [] (slot ∷ slots) i k e = elim k [ ]
absent_slot (p ∷ parts) [] i k e = refl
absent_slot (p ∷ parts) (slot ∷ slots) zero k e = ground arith
absent_slot (p ∷ parts) (none ∷ slots) (suc i) k e = absent_slot parts slots i k e
absent_slot (p ∷ parts) (some q ∷ slots) (suc i) k e = absent_slot parts slots i k.1 e
