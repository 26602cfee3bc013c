-- ===== src/Transport/CacheSet.antt =====
-- crates/libs/styrene-rns/src/transport/utils/cache_set.rs: a set that forgets its oldest member.
-- The hash set is a list whose order is no matter, the queue a list with the oldest in front.
pub mod Members
pub mod Bounded
use styrene_rs.Base.{
  [], ℕ, Bool, true, false, ◌||◌, List, ◌∷◌, ◌++◌, ◌==◌ as nat_eq, if◌then◌else◌, length,
}
use styrene_rs.Base.Keys.{Eq, ◌==◌}

pub record CacheSet {ℓ} (T : Type ℓ) : Type ℓ where
  pub capacity : ℕ
  pub members : List T
  pub queue : List T

abbrev pub new {ℓ} : {T : Type ℓ} → ℕ → CacheSet T
new capacity = record { capacity = capacity; members = []; queue = [] }

module _ {ℓ} {T : Type ℓ} ⦃e : Eq T⦄ where
  unfoldable pub holds : T → List T → Bool
  holds x [] = false
  holds x (y ∷ ys) = y == x || holds x ys

  -- `HashSet::remove`
  unfoldable pub discard : T → List T → List T
  discard x [] = []
  discard x (y ∷ ys) = if y == x then ys else y ∷ discard x ys

  unfoldable pub insert : T → CacheSet T → CacheSet T × Bool
  insert value c =
      if holds value c.members
      then (c, false)
      else if nat_eq (length c.members) c.capacity
      then elim c.queue [
        | [] ↦ (record c { members = value ∷ c.members; queue = value ∷ [] }, true)
        | oldest ∷ rest ↦ (
          record c { members = value ∷ discard oldest c.members; queue = rest ++ (value ∷ []) },
          true,
        )
      ]
      else (record c { members = value ∷ c.members; queue = c.queue ++ (value ∷ []) }, true)

  unfoldable pub contains : T → CacheSet T → Bool
  unfolding holds
  contains value c = holds value c.members
