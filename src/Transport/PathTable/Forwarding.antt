-- ===== src/Transport/PathTable/Forwarding.antt =====
-- How the path table readdresses packets on their way.
use mathlib.Core.List.{Memᴰ}
use styrene_rs.Base.{
  [], ℕ, ◌+◌, min, ◌≡◌, refl, sym, ap, ◌∙◌, ◌⊎◌, inl, inr, Option, none, some, List, ◌∷◌, arith,
  Option-cases, length, saturating_add_one,
}
use styrene_rs.Base.Keys.{bytes_key, lookup}
use styrene_rs.Hash.{Hash, AddressHash, address_hash_size}
use styrene_rs.Packet.Codec.{Packet}
use styrene_rs.Packet.Digest.{packet_hash}
use styrene_rs.Packet.Digest.{packet_hash_same}
use styrene_rs.Packet.Codec.RoundTrip.{IsValid}
use styrene_rs.Packet.Header.{open_access, type2, transport}
use styrene_rs.Transport.PathTable.Selection.{
  Received, entry_hops, learn, least_hops, FromAnnounce, entry_hops-learn, learn_source,
}
use styrene_rs.Transport.PathTable.{
  PathEntry, PathTable, unwrap_or, handle_inbound_packet, handle_packet,
}

-- Every next hop of the table is an address of sixteen bytes.
abbrev pub HopsSized : PathTable → Type 0
HopsSized [] = Unit
HopsSized ((d, e) ∷ table) = (length e.received_from ≡ address_hash_size) × HopsSized table

lookup-HopsSized :
    (d : AddressHash) (table : PathTable) (e : PathEntry)
    → HopsSized table
    → lookup d table ≡ some e
    → length e.received_from ≡ address_hash_size
unfolding lookup
lookup-HopsSized d [] e s h = cc
lookup-HopsSized d ((k, x) ∷ table) e s h = ground (arith, lookup-HopsSized d table e s.1)

-- What a packet carries from end to end.
pub record SameContent (p q : Packet) : Type 0 where
  pub same_destination : p.destination ≡ q.destination
  pub same_context : p.context ≡ q.context
  pub same_body : p.body ≡ q.body
  pub same_packet_type : p.header.packet_type ≡ q.header.packet_type
  pub same_destination_type : p.header.destination_type ≡ q.header.destination_type
  pub same_context_flag : p.header.context_flag ≡ q.header.context_flag

-- Content that is the same has one digest, so the duplicate filter sees one packet on every hop.
pub SameContent-packet_hash :
    (sha256 : List ℕ → Hash) (p q : Packet)
    → SameContent p q
    → packet_hash sha256 p ≡ packet_hash sha256 q
SameContent-packet_hash sha256 p q s =
    packet_hash_same sha256 p q s.same_destination_type s.same_packet_type s.same_destination
      s.same_context s.same_body

-- A valid outgoing packet keeps its content and its hop count and stays valid on every branch of
-- handle_packet, where the entries of the table hold addresses of 16 bytes.
pub handle_packet_lem :
    (p : Packet) (table : PathTable)
    → HopsSized table
    → IsValid p
    → let q = (handle_packet p table).0 in
      SameContent q p × (q.header.hops ≡ p.header.hops) × IsValid q
unfolding handle_packet
handle_packet_lem p table sized v = elim (Option-cases (lookup p.destination table)) [
  | inl absent ↦ ground arith
  | inr (e, present) ↦ ground (arith, lookup-HopsSized p.destination table e sized present)
]

least_hops-learn :
    (sha256 : List ℕ → Hash) (a : AddressHash) (rs : List Received)
    → least_hops sha256 a rs none ≡ entry_hops (lookup a (learn sha256 rs []))
unfolding lookup
least_hops-learn sha256 a rs = sym (entry_hops-learn sha256 a rs [])

-- What the entry holds of an announce of the sequence for the address.
abbrev IsLearned : AddressHash → List Received → PathEntry → Type 0
IsLearned a rs e =
    (r : Received) × Memᴰ r rs
    × (r.packet.destination ≡ a)
    × (e.received_from ≡ unwrap_or r.transport_id a)
    × (e.iface ≡ r.iface)
    × (e.hops ≡ saturating_add_one r.packet.header.hops)

announced-IsLearned :
    (sha256 : List ℕ → Hash) (a : AddressHash) (rs : List Received) (e : PathEntry)
    → FromAnnounce sha256 a rs e
    → IsLearned a rs e
announced-IsLearned sha256 a [] e f = absurd f
announced-IsLearned sha256 a (r ∷ rs) e (inl (here, same)) = (
  r,
  Memᴰ.head refl,
  here,
  ap PathEntry.received_from same ∙ ap (unwrap_or r.transport_id) here,
  ap PathEntry.iface same,
  ap PathEntry.hops same,
)
announced-IsLearned sha256 a (r ∷ rs) e (inr later) =
    let (x, held, here, sender, iface, hops) = announced-IsLearned sha256 a rs e later in
    (x, Memᴰ.tail held, here, sender, iface, hops)

lookup-IsLearned :
    (sha256 : List ℕ → Hash) (a : AddressHash) (rs : List Received) (e : PathEntry)
    → lookup a (learn sha256 rs []) ≡ some e
    → IsLearned a rs e
unfolding lookup
lookup-IsLearned sha256 a rs e h = elim (learn_source sha256 a rs [] e h) [
  | inl old ↦ cc
  | inr new ↦ announced-IsLearned sha256 a rs e new
]

-- What is set when a packet is sent on through the transport to a next hop.
pub record IsTransported (p : Packet) (next_hop : AddressHash) (q : Packet) : Type 0 where
  pub content : SameContent q p
  pub one_hop : q.header.hops ≡ min (p.header.hops + 1) 255
  pub addressed : q.transport ≡ some next_hop
  pub type_2 : q.header.header_type ≡ type2
  pub by_transport : q.header.propagation_type ≡ transport
  pub open_ifac : q.header.ifac_flag ≡ open_access
  pub no_ifac : q.ifac ≡ none

-- After any announces on an empty table, an inbound packet whose address to look up was not
-- announced is left as it is and goes to no interface. Any other is sent on as one of the
-- announces for that address says, one whose hop count (plus one, up to 255) is the least
-- announced: through the interface it came from, to the transport it came through or else to the
-- address itself. Its content is kept, its hop count grows by one up to 255, and its header is
-- that of a type-2 packet in transport without an access code.
pub handle_inbound_packet-learn :
    (sha256 : List ℕ → Hash) (rs : List Received) (p : Packet) (address : Option AddressHash)
    → let a = unwrap_or address p.destination in
      let (q, iface) = handle_inbound_packet p address (learn sha256 rs []) in
      ((least_hops sha256 a rs none ≡ none) × (q ≡ p) × (iface ≡ none))
      ⊎ ((r : Received) × Memᴰ r rs
          × (r.packet.destination ≡ a)
          × (least_hops sha256 a rs none ≡ some (min (r.packet.header.hops + 1) 255))
          × IsTransported p (unwrap_or r.transport_id a) q
          × (iface ≡ some r.iface))
unfolding handle_inbound_packet
handle_inbound_packet-learn sha256 rs p address =
    let a = unwrap_or address p.destination in
    elim (Option-cases (lookup a (learn sha256 rs []))) [
      | inl absent ↦
          rw (handle_inbound_packet, absent)
            (inl (least_hops-learn sha256 a rs ∙ rw absent refl, refl, refl))
      | inr (e, present) ↦
          let (r, held, here, sender, iface, hops) = lookup-IsLearned sha256 a rs e present in
          rw (handle_inbound_packet, present)
            (inr (
              r,
              held,
              here,
              least_hops-learn sha256 a rs ∙ rw present (ap some (hops ∙ ground arith)),
              record {
                content = record {
                  same_destination = refl;
                  same_context = refl;
                  same_body = refl;
                  same_packet_type = refl;
                  same_destination_type = refl;
                  same_context_flag = refl;
                };
                one_hop = ground arith;
                addressed = ap some sender;
                type_2 = refl;
                by_transport = refl;
                open_ifac = refl;
                no_ifac = refl;
              },
              ap some iface,
            ))
    ]
