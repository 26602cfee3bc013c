-- ===== src/Base/Keys.antt =====
-- Equality of keys as an interface, and the keyed maps of the source (`HashMap`, `HashSet`) as
-- association lists: what a map holds is read by `lookup`, so the order of the list is no matter.
use styrene_rs.Base.{
  [], ℕ, suc, ◌≤◌, ◌≡◌, refl, ◌∙◌, ◌≢◌, ◌↔◌, Bool, true, false, Option, none, some, List, ◌∷◌,
  arith, ◌==◌ as nat_eq, ==_iff, if◌then◌else◌, not, length,
}
use styrene_rs.Base.Bytes.{bytes_eq, bytes_eq_iff}

-- `PartialEq`, with the law that the source's keys obey.
pub record Eq {ℓ} (K : Type ℓ) : Type ℓ where
  pub same : K → K → Bool
  pub same_iff : (j k : K) → (same j k ≡ true) ↔ (j ≡ k)

abbrev pub Map {ℓ κ} : Type ℓ → Type κ → Type (ℓ ⊔ κ)
Map K V = List (K × V)

-- Addresses and digests are byte lists; sequence numbers and types are numbers.
instance abbrev pub bytes_key : Eq (List ℕ)
bytes_key = record { same_iff = bytes_eq_iff; same = bytes_eq }

instance abbrev pub nat_key : Eq ℕ
nat_key = record { same_iff = ==_iff; same = nat_eq }

infix 50 ◌==◌
abbrev pub ◌==◌ {ℓ} : {K : Type ℓ} ⦃keys : Eq K⦄ → K → K → Bool
◌==◌ ⦃keys = keys⦄ j k = keys.same j k

module _ {ℓ} {K : Type ℓ} ⦃e : Eq K⦄ where
  pub ==_refl : (k : K) → (k == k) ≡ true
  ==_refl k = (e.same_iff k k).1 refl

  pub ==_sym : (j k : K) → (j == k) ≡ (k == j)
  ==_sym j k = ground (arith, e.same_iff j k, e.same_iff k j)

  pub ne→== : (j k : K) → j ≢ k → (j == k) ≡ false
  ne→== j k h = ground (arith, e.same_iff j k)

  pub ==→eq : (j k : K) → (j == k) ≡ true → j ≡ k
  ==→eq j k h = (e.same_iff j k).0 h

  module _ {κ} {V : Type κ} where
    -- `get`: the value of the first entry with the key.
    unfoldable pub lookup : K → Map K V → Option V
    lookup key ((stored, value) ∷ rest) =
        if not (stored == key) then lookup key rest else some value
    lookup key [] = none

    unfoldable pub contains_key : K → Map K V → Bool
    contains_key key entries = elim (lookup key entries) [ some _ ↦ true | none ↦ false ]

    -- `insert`: in the place of the entry with the key, or as the last entry.
    unfoldable pub insert : K → V → Map K V → Map K V
    insert key value ((stored, old) ∷ rest) =
        if not (stored == key) then (stored, old) ∷ insert key value rest else (key, value) ∷ rest
    insert key value [] = (key, value) ∷ []

    unfoldable pub remove : K → Map K V → Map K V
    remove key ((stored, old) ∷ rest) =
        if not (stored == key) then (stored, old) ∷ remove key rest else remove key rest
    remove key [] = []

    pub lookup-insert :
        (key other : K) (value : V) (entries : Map K V)
        → lookup other (insert key value entries)
          ≡ (if key == other then some value else lookup other entries)
    unfolding lookup insert
    lookup-insert key other value ((stored, old) ∷ rest) = ground (
      arith,
      lookup-insert key other value rest,
      e.same_iff stored other,
      e.same_iff stored key,
      e.same_iff key other,
    )
    lookup-insert key other value [] = ground arith

    pub lookup-insert_self : (k : K) (v : V) (m : Map K V) → lookup k (insert k v m) ≡ some v
    lookup-insert_self k v m = lookup-insert k k v m ∙ rw (==_refl k)

    pub lookup-insert_ne :
        (k j : K) (v : V) (m : Map K V) → k ≢ j → lookup j (insert k v m) ≡ lookup j m
    lookup-insert_ne k j v m h = lookup-insert k j v m ∙ rw (ne→== k j h)

    pub lookup-remove :
        (k j : K) (m : Map K V) → lookup j (remove k m) ≡ (if k == j then none else lookup j m)
    unfolding lookup remove
    lookup-remove k j [] = ground arith
    lookup-remove k j ((i, w) ∷ m) =
        ground (arith, e.same_iff k j, e.same_iff i k, e.same_iff i j, lookup-remove k j m)

    pub lookup-remove_self : (k : K) (m : Map K V) → lookup k (remove k m) ≡ none
    lookup-remove_self k m = lookup-remove k k m ∙ rw (==_refl k)

    pub lookup-remove_ne : (k j : K) (m : Map K V) → k ≢ j → lookup j (remove k m) ≡ lookup j m
    lookup-remove_ne k j m h = lookup-remove k j m ∙ rw (ne→== k j h)

    pub contains_key_iff : (k : K) (m : Map K V) → (contains_key k m ≡ false) ↔ (lookup k m ≡ none)
    unfolding contains_key
    contains_key_iff k m = ground arith

    pub length-insert : (k : K) (v : V) (m : Map K V) → length (insert k v m) ≤ suc (length m)
    unfolding insert
    length-insert k v [] = omega arith
    length-insert k v ((i, w) ∷ m) = ground (arith, length-insert k v m)
