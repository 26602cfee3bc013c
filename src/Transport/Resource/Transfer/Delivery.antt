-- ===== src/Transport/Resource/Transfer/Delivery.antt =====
-- The parts of a sender arrive in some order, some of them again and again, until all were there.
use mathlib.Core.List.{Memᴰ}
use styrene_rs.Base.{
  [], ℕ, zero, suc, ◌<◌, ◌≡◌, ◌≢◌, refl, ap, ◌∙◌, sym, true, false, Option, none, some, List, ◌∷◌,
  map, arith, length, get_elem?, inl, inr, Option-cases, Bool-cases, ltb, ltb→lt, ◌==◌, ==_iff, ok,
}
use styrene_rs.Hash.{Hash}
use styrene_rs.Packet.Codec.{Packet}
use styrene_rs.Transport.Link.Cipher.{LinkCipher}
use styrene_rs.Transport.Resource.Messages.{concat}
use styrene_rs.Transport.Resource.Utils.{map_hash, position}
use styrene_rs.Transport.Resource.Receiver.{
  ResourceReceiver, PartOutcome, no_match, incomplete, part_failed, completed, store_part, conclude,
  assemble, finish, place, handle_part, known_as,
}
use styrene_rs.Transport.Resource.Receiver.Assembly.{Origin, ResourcePayload, joined, recover}
use styrene_rs.Transport.Resource.Receiver.Counting.{filled, filled_le, filled-set}
use styrene_rs.Transport.Resource.Transfer.Slots.{
  Kept, Kept-length, Kept-set, Kept-slot, Kept-joined, absent_slot, empty-set, some_empty, Distinct,
  position-Distinct,
}

-- The parts at the places of a list arrive, until an outcome ends the transfer.
abbrev pub stop_or : ResourceReceiver × PartOutcome → (ResourceReceiver → PartOutcome) → PartOutcome
stop_or (r, completed packet content) more = completed packet content
stop_or (r, part_failed) more = part_failed
stop_or (r, no_match) more = more r
stop_or (r, incomplete) more = more r

module _ (sha256 : List ℕ → Hash) (parts : List (List ℕ)) (bunzip : List ℕ → Option (List ℕ))
    (link : LinkCipher) where
  unfoldable pub arrive : ℕ → List ℕ → ResourceReceiver → PartOutcome
  arrive now [] r = incomplete
  arrive now (i ∷ order) r = elim (get_elem? parts i) [
    | none ↦ arrive now order r
    | some part ↦ stop_or (handle_part sha256 bunzip link now part r) (arrive now order)
  ]

module _ (sha256 : List ℕ → Hash) (parts : List (List ℕ)) (origin : Origin) where
  abbrev pub hashes : List (List ℕ)
  hashes = map (λ part. map_hash sha256 part origin.random_hash) parts

  -- A receiver of these parts, some of which it has.
  pub record Tracks (r : ResourceReceiver) : Type 0 where
    pub same_origin : r.origin ≡ origin
    pub known : r.hashmap ≡ map some hashes
    pub kept : Kept parts r.parts
    pub counted : r.received ≡ filled r.parts
    pub whole : r.split ≡ false

  store-Tracks :
      (now i : ℕ) (part : List ℕ) (r : ResourceReceiver)
      → Tracks r
      → get_elem? parts i ≡ some part
      → Tracks (store_part now i part r)
  unfolding store_part
  store-Tracks now i part r t e = elim (Kept-slot parts r.parts i part t.kept e) [
    | inl empty ↦
        ground (arith, t, Kept-set parts r.parts i part t.kept e, filled-set r.parts i part)
    | inr full ↦ ground (arith, t)
  ]

  -- Which slots are empty after a part was stored.
  still_empty :
      (now i j : ℕ) (part : List ℕ) (r : ResourceReceiver)
      → Tracks r
      → get_elem? parts i ≡ some part
      → get_elem? (store_part now i part r).parts j ≡ some none
      → (get_elem? r.parts j ≡ some none) × (j ≢ i)
  unfolding store_part
  still_empty now i j part r t e missing = elim (Kept-slot parts r.parts i part t.kept e) [
    | inl empty ↦ empty-set r.parts i j part (ground arith)
    | inr full ↦
        let before : get_elem? r.parts j ≡ some none = ground arith in
        (before, λ p. clash part (sym before ∙ ap (get_elem? r.parts) p ∙ full))
  ]
    where
      clash : (part : List ℕ) → ¬ (some none ≡ some (some part))
      clash part e = cc

  hash_at :
      (i : ℕ) (part : List ℕ)
      → get_elem? parts i ≡ some part
      → get_elem? hashes i ≡ some (map_hash sha256 part origin.random_hash)
  hash_at i part e = mapped parts i part e
    where
      mapped :
          (ps : List (List ℕ)) (i : ℕ) (part : List ℕ)
          → get_elem? ps i ≡ some part
          → get_elem? (map (λ part. map_hash sha256 part origin.random_hash) ps) i
            ≡ some (map_hash sha256 part origin.random_hash)
      mapped [] i part e = ground arith
      mapped (p ∷ ps) zero part e = ground arith
      mapped (p ∷ ps) (suc i) part e = mapped ps i part e

  module _ (bunzip : List ℕ → Option (List ℕ)) (link : LinkCipher) (once : Distinct hashes) where
    -- A part of the sender goes into its slot.
    handle_part_lem :
        (now i : ℕ) (part : List ℕ) (r : ResourceReceiver)
        → Tracks r
        → get_elem? parts i ≡ some part
        → handle_part sha256 bunzip link now part r
          ≡ finish sha256 bunzip link (store_part now i part r)
    unfolding handle_part place
    handle_part_lem now i part r t e =
        let found : position (known_as (map_hash sha256 part r.origin.random_hash)) r.hashmap
            ≡ some i =
          (λ k.
            position (known_as (map_hash sha256 part (t.same_origin k).random_hash)) (t.known k))
          ∙ position-Distinct hashes i (map_hash sha256 part origin.random_hash) once
              (hash_at i part e) in
        rw (t.whole, found) refl

    finish_last :
        (r : ResourceReceiver) (packet : Packet) (content : ResourcePayload)
        → Tracks r
        → 0 < length r.parts
        → filled r.parts ≡ length r.parts
        → recover sha256 bunzip link origin (concat parts) ≡ ok (packet, content)
        → (finish sha256 bunzip link r).1 ≡ completed packet content
    unfolding finish assemble conclude
    finish_last r packet content t some_parts full opens =
        let test : (r.received == length r.parts) ≡ true = (==_iff _ _).1 (t.counted ∙ full) in
        let nonempty : (length r.parts == 0) ≡ false = ground arith in
        let stream : joined r.parts ≡ some (concat parts) = Kept-joined parts r.parts t.kept full in
        rw (test, nonempty, stream, t.same_origin, opens) refl

    finish_more :
        (r : ResourceReceiver)
        → Tracks r
        → filled r.parts < length r.parts
        → finish sha256 bunzip link r ≡ (r, incomplete)
    unfolding finish
    finish_more r t more =
        let test : (r.received == length r.parts) ≡ false = ground (arith, t) in rw test refl

    abbrev Awaited : List ℕ → ResourceReceiver → Type 0
    Awaited order r = (j : ℕ) → get_elem? r.parts j ≡ some none → Memᴰ j order

    passed_over : (i j : ℕ) (order : List ℕ) → Memᴰ j (i ∷ order) → j ≢ i → Memᴰ j order
    passed_over i j order (Memᴰ.head p) other = absurd (other p)
    passed_over i j order (Memᴰ.tail m) other = m

    -- Every slot filled in the end: the transfer completes.
    pub arrive_completes :
        (now : ℕ) (order : List ℕ) (r : ResourceReceiver) (packet : Packet)
        (content : ResourcePayload)
        → Tracks r
        → filled r.parts < length r.parts
        → Awaited order r
        → recover sha256 bunzip link origin (concat parts) ≡ ok (packet, content)
        → arrive sha256 parts bunzip link now order r ≡ completed packet content
    unfolding arrive
    arrive_completes now [] r packet content t more awaited opens =
        let (j, empty) = some_empty r.parts more in elim (awaited j empty) [ ]
    arrive_completes now (i ∷ order) r packet content t more awaited opens =
        elim (Option-cases (get_elem? parts i)) [
          | inl absent ↦
              let beyond = absent_slot parts r.parts i t.kept absent in
              rw (arrive, absent)
                (arrive_completes now order r packet content t more
                  (λ j empty.
                    passed_over i j order (awaited j empty)
                      (λ p. clash (sym empty ∙ ap (get_elem? r.parts) p ∙ beyond)))
                  opens)
          | inr (part, e) ↦
              let r1 : ResourceReceiver = store_part now i part r in
              let t1 = store-Tracks now i part r t e in
              let size : length r1.parts ≡ length r.parts =
                Kept-length parts r1.parts t1.kept ∙ sym (Kept-length parts r.parts t.kept) in
              elim (Bool-cases (ltb (filled r1.parts) (length r1.parts))) [
                | inl unfinished ↦
                    rw
                      (
                        arrive,
                        e,
                        handle_part_lem now i part r t e,
                        finish_more r1 t1 (ltb→lt _ _ unfinished),
                      )
                      (arrive_completes now order r1 packet content t1 (ltb→lt _ _ unfinished)
                        (λ j empty.
                          let (before, other) = still_empty now i j part r t e empty in
                          passed_over i j order (awaited j before) other)
                        opens)
                | inr full ↦
                    let all : filled r1.parts ≡ length r1.parts =
                      ground (arith, filled_le r1.parts) in
                    rw (arrive, e, handle_part_lem now i part r t e)
                      (ap
                        (λ outcome.
                          stop_or ((finish sha256 bunzip link r1).0, outcome)
                            (arrive sha256 parts bunzip link now order))
                        (finish_last r1 packet content t1 (omega arith) all opens))
              ]
        ]
      where
        clash : ¬ (◌≡◌ {A = Option (Option (List ℕ))} (some none) none)
        clash e = cc
