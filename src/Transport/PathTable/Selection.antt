-- ===== src/Transport/PathTable/Selection.antt =====
-- The path table keeps, for each destination, a shortest path that was announced.
use styrene_rs.Base.{
  [], ℕ, min, ◌≡◌, refl, ap, ◌∙◌, ◌⊎◌, inl, inr, Option, none, some, List, ◌∷◌, arith,
  if◌then◌else◌, Option-cases, saturating_add_one,
}
use styrene_rs.Base.Keys.{bytes_key, ◌==◌, lookup, lookup-insert}
use styrene_rs.Hash.{Hash, AddressHash}
use styrene_rs.Packet.Codec.{Packet}
use styrene_rs.Base.Bytes.{bytes_eq_iff}
use styrene_rs.Transport.PathTable.{PathEntry, PathTable, announced_entry, handle_announce}

-- An announce as it reaches the table.
pub record Received : Type 0 where
  pub now : ℕ
  pub packet : Packet
  pub transport_id : Option AddressHash
  pub iface : AddressHash

-- The smaller of a known hop count and a new one.
abbrev pub nearer : Option ℕ → ℕ → Option ℕ
nearer none n = some n
nearer (some m) n = some (min m n)

abbrev pub entry_hops : Option PathEntry → Option ℕ
entry_hops none = none
entry_hops (some e) = some e.hops

module _ (sha256 : List ℕ → Hash) where
  abbrev receive : Received → PathTable → PathTable
  receive r table = handle_announce sha256 r.now r.packet r.transport_id r.iface table

  -- The table after a sequence of announces.
  unfoldable pub learn : List Received → PathTable → PathTable
  learn [] table = table
  learn (r ∷ rs) table = learn rs (receive r table)

  -- The least hop count that was announced for `d`, plus the hop to here, or what was known before.
  unfoldable pub least_hops : AddressHash → List Received → Option ℕ → Option ℕ
  least_hops d [] known = known
  least_hops d (r ∷ rs) known = least_hops d rs (
      if r.packet.destination == d
      then nearer known (saturating_add_one r.packet.header.hops)
      else known)

  receive_hops :
      (d : AddressHash) (r : Received) (table : PathTable)
      → entry_hops (lookup d (receive r table)) ≡ (
          if r.packet.destination == d
          then nearer (entry_hops (lookup d table)) (saturating_add_one r.packet.header.hops)
          else entry_hops (lookup d table))
  unfolding handle_announce
  receive_hops d r table =
      let dest = r.packet.destination in
      let entry = announced_entry sha256 r.now r.packet r.transport_id r.iface in
      ground (
        arith,
        Option-cases (lookup dest table),
        lookup-insert dest d entry table,
        bytes_eq_iff dest d,
      )

  -- After any announces, the hop count that the path table holds for a destination is the least
  -- of the one held before and of the announced hop counts for it plus one, where the sum stops
  -- at 255.
  pub entry_hops-learn :
      (d : AddressHash) (rs : List Received) (table : PathTable)
      → entry_hops (lookup d (learn rs table)) ≡ least_hops d rs (entry_hops (lookup d table))
  unfolding learn least_hops
  entry_hops-learn d [] table = refl
  entry_hops-learn d (r ∷ rs) table =
      entry_hops-learn d rs (receive r table) ∙ ap (least_hops d rs) (receive_hops d r table)

  -- The entry is the one that some announce of the sequence stands for.
  abbrev pub FromAnnounce : AddressHash → List Received → PathEntry → Type 0
  FromAnnounce d [] e = ⊥
  FromAnnounce d (r ∷ rs) e =
      ((r.packet.destination ≡ d)
        × (e ≡ announced_entry sha256 r.now r.packet r.transport_id r.iface))
      ⊎ FromAnnounce d rs e

  receive_source :
      (d : AddressHash) (r : Received) (table : PathTable) (e : PathEntry)
      → lookup d (receive r table) ≡ some e
      → (lookup d table ≡ some e)
        ⊎ ((r.packet.destination ≡ d)
            × (e ≡ announced_entry sha256 r.now r.packet r.transport_id r.iface))
  unfolding handle_announce
  receive_source d r table e h =
      let dest = r.packet.destination in
      let entry = announced_entry sha256 r.now r.packet r.transport_id r.iface in
      ground (
        arith,
        Option-cases (lookup dest table),
        lookup-insert dest d entry table,
        bytes_eq_iff dest d,
      )

  -- The entry that the path table holds for a destination after any announces was there before,
  -- or is the entry of one of the announces for that destination.
  pub learn_source :
      (d : AddressHash) (rs : List Received) (table : PathTable) (e : PathEntry)
      → lookup d (learn rs table) ≡ some e
      → (lookup d table ≡ some e) ⊎ FromAnnounce d rs e
  unfolding learn
  learn_source d [] table e h = inl h
  learn_source d (r ∷ rs) table e h = elim (learn_source d rs (receive r table) e h) [
    | inr later ↦ inr (inr later)
    | inl here ↦ elim (receive_source d r table e here) [
      | inl old ↦ inl old
      | inr new ↦ inr (inl new)
    ]
  ]
