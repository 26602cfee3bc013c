-- ===== src/Base/Retain.antt =====
-- Maps as the source builds them, with each key once, and the removal of the entries that a scan
-- over the map picks out.
use styrene_rs.Base.{
  [], ◌≡◌, refl, ◌∙◌, inl, inr, Bool, true, false, Option, none, some, List, ◌∷◌, arith,
  if◌then◌else◌, Option-cases,
}
use styrene_rs.Base.Keys.{Eq, ◌==◌, Map, lookup, insert, remove, lookup-insert, lookup-remove}

-- What is left of a looked-up value when the test picks it.
abbrev pub unless {κ} : {V : Type κ} → (V → Bool) → Option V → Option V
unless p none = none
unless p (some v) = if p v then none else some v

mem {ℓ} : {K : Type ℓ} ⦃e : Eq K⦄ → K → List K → Bool
mem k [] = false
mem k (j ∷ ks) = if j == k then true else mem k ks

module _ {ℓ κ} {K : Type ℓ} ⦃e : Eq K⦄ {V : Type κ} where
  -- No key stands twice, as in every map that the source can build.
  abbrev pub Unique : Map K V → Type κ
  Unique [] = Unit {κ}
  Unique ((k, v) ∷ m) = (lookup k m ≡ none) × Unique m

  pub insert-Unique : (k : K) (v : V) (m : Map K V) → Unique m → Unique (insert k v m)
  unfolding insert
  insert-Unique k v [] u = (unfold lookup in refl, tt)
  insert-Unique k v ((j, w) ∷ m) u =
      ground (arith, insert-Unique k v m u.1, lookup-insert k j v m, e.same_iff k j, e.same_iff j k)

  pub remove-Unique : (k : K) (m : Map K V) → Unique m → Unique (remove k m)
  unfolding remove
  remove-Unique k [] u = tt
  remove-Unique k ((j, w) ∷ m) u = ground (arith, remove-Unique k m u.1, lookup-remove k j m)

  -- The keys of the entries that a test picks out, and the map after they are removed one by one.
  unfoldable pub keys_where : (K → V → Bool) → Map K V → List K
  keys_where p [] = []
  keys_where p ((k, v) ∷ m) = if p k v then k ∷ keys_where p m else keys_where p m

  unfoldable pub remove_all : List K → Map K V → Map K V
  remove_all [] m = m
  remove_all (k ∷ ks) m = remove_all ks (remove k m)

  pub remove_all-Unique : (ks : List K) (m : Map K V) → Unique m → Unique (remove_all ks m)
  unfolding remove_all
  remove_all-Unique [] m u = u
  remove_all-Unique (k ∷ ks) m u = remove_all-Unique ks (remove k m) (remove-Unique k m u)

  lookup-remove_all :
      (ks : List K) (k : K) (m : Map K V)
      → lookup k (remove_all ks m) ≡ (if mem k ks then none else lookup k m)
  unfolding remove_all mem
  lookup-remove_all [] k m = refl
  lookup-remove_all (j ∷ ks) k m =
      ground (arith, lookup-remove_all ks k (remove j m), lookup-remove j k m)

  mem-keys_where-none :
      (p : K → V → Bool) (k : K) (m : Map K V) → lookup k m ≡ none → mem k (keys_where p m) ≡ false
  unfolding mem keys_where lookup
  mem-keys_where-none p k [] h = refl
  mem-keys_where-none p k ((j, v) ∷ m) h = ground (arith, mem-keys_where-none p k m)

  mem-keys_where-some :
      (p : K → V → Bool) (k : K) (v : V) (m : Map K V)
      → Unique m
      → lookup k m ≡ some v
      → mem k (keys_where p m) ≡ p k v
  unfolding mem keys_where lookup
  mem-keys_where-some p k v [] u h = cc
  mem-keys_where-some p k v ((j, w) ∷ m) u h =
      ground (arith, e.same_iff j k, mem-keys_where-some p k v m u.1, mem-keys_where-none p k m)

  -- Removing the picked keys removes exactly the entries that the test picks.
  pub lookup-remove_where :
      (p : K → V → Bool) (k : K) (m : Map K V)
      → Unique m
      → lookup k (remove_all (keys_where p m) m) ≡ unless (p k) (lookup k m)
  lookup-remove_where p k m u = elim (Option-cases (lookup k m)) [
    | inl absent ↦
        lookup-remove_all (keys_where p m) k m ∙ rw (mem-keys_where-none p k m absent, absent)
    | inr (v, present) ↦
        lookup-remove_all (keys_where p m) k m ∙ rw (mem-keys_where-some p k v m u present, present)
  ]
