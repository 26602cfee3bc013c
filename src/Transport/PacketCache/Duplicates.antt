-- ===== src/Transport/PacketCache/Duplicates.antt =====
-- Each packet is new once, until it has not been seen for the retention time.
use styrene_rs.Base.{
  [], ℕ, ◌-◌, ◌≤◌, min, ◌≡◌, refl, ap, ◌∙◌, ◌↔◌, inl, inr, true, false, none, some, List, ◌++◌,
  arith, if◌then◌else◌, Option-cases,
}
use styrene_rs.Base.Keys.{bytes_key, ◌==◌, lookup, lookup-insert}
use styrene_rs.Base.Retain.{
  Unique, insert-Unique, remove_all-Unique, keys_where, remove_all, unless, lookup-remove_where,
}
use styrene_rs.Hash.{Hash}
use styrene_rs.Packet.Codec.{Packet}
use styrene_rs.Packet.Digest.{packet_hash}
use styrene_rs.Base.Bytes.{bytes_eq_iff}
use styrene_rs.Transport.PacketCache.{PacketCache, is_expired, release, update}

abbrev pub IsSettled : PacketCache → Type 0
IsSettled c = (c.remove_cache ≡ []) × Unique c.tracks

module _ (sha256 : List ℕ → Hash) where
  -- update answers "new" exactly for a digest that is not tracked, tracks the digest from now on
  -- with the least hop count seen, and leaves every other digest alone.
  pub update_lem :
      (now : ℕ) (p : Packet) (c : PacketCache) (h : Hash)
      → let (c', is_new) = update sha256 now p c in
        ((is_new ≡ true) ↔ (lookup (packet_hash sha256 p) c.tracks ≡ none))
        × (lookup h c'.tracks ≡ (
            if packet_hash sha256 p == h
            then some (record {
              time = now;
              min_hops = elim (lookup h c.tracks) [
                | none ↦ p.header.hops
                | some t ↦ min p.header.hops t.min_hops
              ];
            })
            else lookup h c.tracks))
  unfolding update
  update_lem now p c h =
      let hash = packet_hash sha256 p in
      elim (Option-cases (lookup hash c.tracks)) [
        | inl absent ↦ ground (
          arith,
          bytes_eq_iff hash h,
          lookup-insert hash h (record { time = now; min_hops = p.header.hops }) c.tracks,
        )
        | inr (t, present) ↦ ground (
          arith,
          bytes_eq_iff hash h,
          lookup-insert hash h (record { time = now; min_hops = min p.header.hops t.min_hops })
              c.tracks,
        )
      ]

  update-IsSettled :
      (now : ℕ) (p : Packet) (c : PacketCache) → IsSettled c → IsSettled (update sha256 now p c).0
  unfolding update
  update-IsSettled now p c v =
      let hash = packet_hash sha256 p in
      elim (Option-cases (lookup hash c.tracks)) [
        | inl absent ↦ ground (
          arith,
          insert-Unique hash (record { time = now; min_hops = p.header.hops }) c.tracks v.1,
        )
        | inr (t, present) ↦ ground (
          arith,
          insert-Unique hash (record { time = now; min_hops = min p.header.hops t.min_hops })
              c.tracks v.1,
        )
      ]

  -- `release` forgets exactly the digests not seen for longer than the duration.
  pub lookup-release :
      (now duration : ℕ) (c : PacketCache) (h : Hash)
      → IsSettled c
      → lookup h (release now duration c).tracks
        ≡ unless (is_expired now duration) (lookup h c.tracks)
  unfolding release
  lookup-release now duration c h v =
      ap
        (λ l.
          lookup h (remove_all (l ++ keys_where (λ _. is_expired now duration) c.tracks) c.tracks))
        v.0
      ∙ lookup-remove_where (λ _. is_expired now duration) h c.tracks v.1

  release-IsSettled :
      (now duration : ℕ) (c : PacketCache) → IsSettled c → IsSettled (release now duration c)
  unfolding release
  release-IsSettled now duration c v = (refl, remove_all-Unique _ c.tracks v.1)

  -- In a cache between calls, a packet with the digest of an earlier one is not new, also after
  -- a sweep in between whose retention time has not passed since the earlier one.
  pub duplicate_is_not_new :
      (t₁ t₂ t₃ duration : ℕ) (p q : Packet) (c : PacketCache)
      → IsSettled c
      → packet_hash sha256 p ≡ packet_hash sha256 q
      → t₂ - t₁ ≤ duration
      → (update sha256 t₃ q (release t₂ duration (update sha256 t₁ p c).0)).1 ≡ false
  duplicate_is_not_new t₁ t₂ t₃ duration p q c v same recent =
      let h = packet_hash sha256 p in
      let c₁ = (update sha256 t₁ p c).0 in
      let c₂ = release t₂ duration c₁ in
      ground (
        arith,
        bytes_eq_iff h h,
        (update_lem t₁ p c h).1,
        lookup-release t₂ duration c₁ h (update-IsSettled t₁ p c v),
        (update_lem t₃ q c₂ h).0,
      )
