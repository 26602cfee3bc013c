-- ===== src/Transport/CacheSet/Bounded.antt =====
-- The set and the queue hold the same members, and there are never more than the capacity.
use styrene_rs.Base.{
  [], ℕ, ◌<◌, ◌≡◌, refl, sym, ap, ◌∙◌, inl, inr, Bool, true, false, List, ◌∷◌, ◌++◌, arith, ltb,
  ltb→lt, Bool-cases, length, length-append,
}
use styrene_rs.Base.Keys.{Eq, ==_refl}
use styrene_rs.Transport.CacheSet.{CacheSet, holds, discard, insert, contains}
use styrene_rs.Transport.CacheSet.Members.{
  Distinct, IsValid, push, holds-append, holds-discard, discard-Distinct, append-Distinct,
  length-discard,
}

module _ {ℓ} {T : Type ℓ} ⦃e : Eq T⦄ where
  -- The record after a value is added where there is room.
  abbrev grown : T → CacheSet T → CacheSet T
  grown value c = record c { members = value ∷ c.members; queue = c.queue ++ (value ∷ []) }

  grown-IsValid :
      (value : T) (c : CacheSet T)
      → IsValid c
      → holds value c.members ≡ false
      → length c.queue < c.capacity
      → IsValid (grown value c)
  unfolding holds
  grown-IsValid value c v absent room = record {
    distinct_members = (absent, v.distinct_members);
    distinct_queue =
        append-Distinct value c.queue v.distinct_queue (sym (v.same_members value) ∙ absent);
    same_members = λ x. ground (arith, v.same_members x, holds-append x value c.queue);
    same_length = omega (arith, v.same_length, length-append c.queue (value ∷ []));
    bounded = omega (arith, length-append c.queue (value ∷ []));
    some_room = v.some_room;
  }

  -- The record after the oldest member has made room.
  abbrev turned : T → T → List T → CacheSet T → CacheSet T
  turned value oldest rest c = record c {
    members = value ∷ discard oldest c.members;
    queue = rest ++ (value ∷ []);
  }

  turned-IsValid :
      (value oldest : T) (rest : List T) (c : CacheSet T)
      → IsValid c
      → c.queue ≡ oldest ∷ rest
      → holds value c.members ≡ false
      → IsValid (turned value oldest rest c)
  turned-IsValid value oldest rest c v q absent =
      let same : (x : T) → holds x c.members ≡ holds x (oldest ∷ rest) =
        λ x. v.same_members x ∙ ap (holds x) q in
      let d : Distinct (oldest ∷ rest) = rw q at v.distinct_queue in
      let sizes : length c.queue ≡ length (oldest ∷ rest) = ap length q in
      record {
        distinct_members = (
          unfold holds in ground (arith, holds-discard value oldest c.members v.distinct_members),
          discard-Distinct oldest c.members v.distinct_members,
        );
        distinct_queue =
            append-Distinct value rest d.1
              (unfold holds in ground (arith, same value, e.same_iff oldest value));
        same_members = λ x.
            unfold holds in
            ground (
              arith,
              same x,
              d.0,
              holds-discard x oldest c.members v.distinct_members,
              holds-append x value rest,
              e.same_iff oldest x,
            );
        same_length =
            unfold holds in
            ground (
              arith,
              v.same_length,
              sizes,
              same oldest,
              ==_refl oldest,
              length-discard oldest c.members,
              length-append rest (value ∷ []),
            );
        bounded = omega (arith, v.bounded, sizes, length-append rest (value ∷ []));
        some_room = v.some_room;
      }

  insert_room :
      (value : T) (c : CacheSet T)
      → holds value c.members ≡ false
      → length c.members < c.capacity
      → insert value c ≡ (grown value c, true)
  unfolding insert
  insert_room value c absent room = ground arith

  insert_full :
      (value oldest : T) (rest : List T) (c : CacheSet T)
      → holds value c.members ≡ false
      → length c.members ≡ c.capacity
      → c.queue ≡ oldest ∷ rest
      → insert value c ≡ (turned value oldest rest c, true)
  unfolding insert
  insert_full value oldest rest c absent full q = ground arith

  push_held :
      (capacity : ℕ) (value : T) (q : List T)
      → holds value q ≡ true
      → push capacity value q ≡ (q, false)
  push_held capacity value [] h = unfold holds in cc
  push_held capacity value (x ∷ q) h = rw h

  push_absent :
      (capacity : ℕ) (value : T) (q : List T)
      → holds value q ≡ false
      → length q < capacity
      → push capacity value q ≡ (q ++ (value ∷ []), true)
  push_absent capacity value [] h room = refl
  push_absent capacity value (x ∷ q) h room = ground arith

  Refines : T → CacheSet T → CacheSet T × Bool → Type ℓ
  Refines value c (c', is_new) =
      IsValid c'
      × ((c'.queue, is_new) ≡ push c.capacity value c.queue)
      × (c'.capacity ≡ c.capacity)
      × (contains value c' ≡ true)

  grown-Refines :
      (value : T) (c : CacheSet T)
      → IsValid c
      → holds value c.members ≡ false
      → length c.queue < c.capacity
      → Refines value c (grown value c, true)
  unfolding Refines contains
  grown-Refines value c v absent room = (
    grown-IsValid value c v absent room,
    sym (push_absent c.capacity value c.queue (sym (v.same_members value) ∙ absent) room),
    refl,
    unfold holds in ground (arith, ==_refl value),
  )

  turned-Refines :
      (value oldest : T) (rest : List T) (c : CacheSet T)
      → IsValid c
      → c.queue ≡ oldest ∷ rest
      → holds value c.members ≡ false
      → length c.queue ≡ c.capacity
      → Refines value c (turned value oldest rest c, true)
  unfolding Refines contains
  turned-Refines value oldest rest c v q absent full = (
    turned-IsValid value oldest rest c v q absent,
    ground (arith, v.same_members value),
    refl,
    unfold holds in ground (arith, ==_refl value),
  )

  insert_absent :
      (value : T) (c : CacheSet T) (q : List T)
      → IsValid c
      → c.queue ≡ q
      → holds value c.members ≡ false
      → Refines value c (insert value c)
  insert_absent value c [] v e absent =
      let empty : length c.queue ≡ 0 = ap length e in
      rw (insert_room value c absent (omega (arith, v.same_length, v.some_room, empty)))
        (grown-Refines value c v absent (omega (arith, v.some_room, empty)))
  insert_absent value c (oldest ∷ rest) v e absent =
      elim (Bool-cases (ltb (length c.queue) c.capacity)) [
        | inl room ↦
            let less : length c.queue < c.capacity = ltb→lt _ _ room in
            rw (insert_room value c absent (omega (arith, less, v.same_length)))
              (grown-Refines value c v absent less)
        | inr full ↦
            let exact : length c.queue ≡ c.capacity = ground (arith, v.bounded) in
            rw (insert_full value oldest rest c absent (v.same_length ∙ exact) e)
              (turned-Refines value oldest rest c v e absent exact)
      ]

  -- An insert into a valid set of capacity at least 1 does on the queue what a push does (a new
  -- value goes to the back, the oldest leaves a full queue), answers whether the value is new,
  -- contains the value afterwards, keeps the capacity, and keeps set and queue equal, distinct
  -- and bounded.
  pub insert-push :
      (value : T) (c : CacheSet T)
      → IsValid c
      → let (c', is_new) = insert value c in
        IsValid c'
        × ((c'.queue, is_new) ≡ push c.capacity value c.queue)
        × (c'.capacity ≡ c.capacity)
        × (contains value c' ≡ true)
  unfolding Refines
  insert-push value c v = elim (Bool-cases (holds value c.members)) [
    | inl held ↦
        let same : insert value c ≡ (c, false) = unfold insert in rw held in
        rw same (
          v,
          sym (push_held c.capacity value c.queue (sym (v.same_members value) ∙ held)),
          refl,
          unfold contains in held,
        )
    | inr absent ↦ insert_absent value c c.queue v refl absent
  ]
