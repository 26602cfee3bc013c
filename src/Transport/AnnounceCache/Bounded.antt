-- ===== src/Transport/AnnounceCache/Bounded.antt =====
-- The size of the cache of
-- crates/libs/styrene-rns/src/transport/core_transport/announce_table.rs.
use styrene_rs.Base.{
  ℕ, ◌≤◌, ◌<◌, ◌≡◌, refl, inl, inr, false, none, some, List, [], ◌∷◌, arith, leb, length,
  Bool-cases, ◌∙◌, lt→ltb,
}
use styrene_rs.Base.Keys.{bytes_key, ==_refl, remove}
use styrene_rs.Base.Ordered.{length-put, length-remove, lookup-put}
use styrene_rs.Hash.{AddressHash}
use styrene_rs.Transport.AnnounceEntry.{AnnounceEntry}
use styrene_rs.Transport.AnnounceCache.{
  Entries, AnnounceCache, new, len, remove_first, evict_one, make_room, rotate, insert, get,
}

-- The cache after a sequence of inserts.
abbrev pub insert_all : List (AddressHash × AnnounceEntry) → AnnounceCache → AnnounceCache
insert_all [] c = c
insert_all ((destination, entry) ∷ rest) c = insert_all rest (insert destination entry c)

length-remove_first :
    (entries : Entries) → 0 < length entries → length (remove_first entries) < length entries
unfolding remove
length-remove_first [] some_left = absurd (omega arith)
length-remove_first ((key, e) ∷ entries) some_left =
    ground (arith, length-remove key entries, (bytes_key.same_iff key key).1 refl)

-- One generation only, within the capacity.
pub record IsBounded (c : AnnounceCache) : Type 0 where
  pub single : c.older ≡ none
  pub within : length c.newer ≤ c.capacity

-- Room is made in the one generation, which then is not full.
make_room_lem :
    (c : AnnounceCache)
    → 0 < c.capacity
    → IsBounded c
    → ((make_room c).older ≡ none)
      × (length (make_room c).newer < c.capacity)
      × ((make_room c).capacity ≡ c.capacity)
unfolding make_room
make_room_lem c room b =
    let counted : len c ≡ length c.newer = unfold len in rw b.single (omega arith) in
    let evicted : evict_one c ≡ record c { newer = remove_first c.newer } =
      unfold evict_one in rw b.single refl in
    let shorter = length-remove_first c.newer in
    elim (Bool-cases (leb c.capacity (length c.newer))) [
      | inl full ↦
          rw (lt→ltb 0 c.capacity room, counted, full, evicted)
            (b.single, ground (arith, full, room, shorter, b.within), refl)
      | inr free ↦
          rw (lt→ltb 0 c.capacity room, counted, free) (b.single, ground (arith, free), refl)
    ]

insert-IsBounded :
    (destination : AddressHash) (entry : AnnounceEntry) (c : AnnounceCache)
    → 0 < c.capacity
    → IsBounded c
    → IsBounded (insert destination entry c)
      × ((insert destination entry c).capacity ≡ c.capacity)
      × (get destination (insert destination entry c) ≡ some entry)
unfolding insert rotate get
insert-IsBounded destination entry c room b =
    let (single, short, same) = make_room_lem c room b in
    let open_still : leb (make_room c).capacity (length (make_room c).newer) ≡ false =
      ground (arith, short, same) in
    let longer = length-put destination entry (make_room c).newer in
    rw open_still (
      record { single = single; within = omega (arith, longer, short, same) },
      same,
      rw (get, lookup-put destination destination entry (make_room c).newer, ==_refl destination)
          refl,
    )

insert_all-IsBounded :
    (entries : List (AddressHash × AnnounceEntry)) (c : AnnounceCache)
    → 0 < c.capacity
    → IsBounded c
    → IsBounded (insert_all entries c) × ((insert_all entries c).capacity ≡ c.capacity)
insert_all-IsBounded [] c room b = (b, refl)
insert_all-IsBounded ((destination, entry) ∷ rest) c room b =
    let (next, same, _) = insert-IsBounded destination entry c room b in
    let (all, kept) =
      insert_all-IsBounded rest (insert destination entry c) (omega (arith, room, same)) next in
    (all, kept ∙ same)

-- After any sequence of inserts into a new cache with a capacity above zero, the cache has no
-- more entries than its capacity, its older generation was never made, and a further insert is
-- found by get.
pub len-insert_all :
    (capacity : ℕ) (entries : List (AddressHash × AnnounceEntry)) (destination : AddressHash)
    (entry : AnnounceEntry)
    → 0 < capacity
    → (let c = insert_all entries (new capacity) in
        (len c ≤ capacity)
        × (c.older ≡ none)
        × (get destination (insert destination entry c) ≡ some entry))
len-insert_all capacity entries destination entry room =
    let c = insert_all entries (new capacity) in
    let (b, same) =
      insert_all-IsBounded entries (new capacity) room
        (record { single = refl; within = omega arith }) in
    let counted : len c ≡ length c.newer = unfold len in rw b.single (omega arith) in
    let (_, _, found) = insert-IsBounded destination entry c (omega (arith, room, same)) b in
    (omega (arith, counted, b.within, same), b.single, found)
