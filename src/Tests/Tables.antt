-- ===== src/Tests/Tables.antt =====
-- The tables of crates/libs/styrene-rns/src/transport at concrete inputs.
use mathlib.Core.List.{Memᴰ}
use styrene_rs.Base.{
  [], ℕ, ◌≡◌, refl, ◌⊎◌, ◌+◌, min, none, some, true, false, List, ◌∷◌, arith, take, drop, replicate,
}
use styrene_rs.Base.Bytes.{bytes_eq}
use styrene_rs.Base.Keys.{bytes_key, nat_key, lookup, insert, remove, contains_key}
use styrene_rs.Base.Retain.{keys_where, remove_all}
use styrene_rs.Hash.{Hash, AddressHash, new_from_hash}
use styrene_rs.Packet.Header.{open_access, unset, type1, broadcast, single, payload}
use styrene_rs.Packet.Context.{none_context}
use styrene_rs.Packet.Codec.{Packet}
use styrene_rs.Transport.PathTable.{unwrap_or, handle_announce, handle_inbound_packet}
use styrene_rs.Transport.PathTable.Selection.{
  Received, entry_hops, learn, least_hops, entry_hops-learn,
}
use styrene_rs.Transport.PathTable.Forwarding.{IsTransported, handle_inbound_packet-learn}
use styrene_rs.Transport.LinkTable
use styrene_rs.Transport.LinkTable.{
  LinkEntry, LinkTable, link_id, requested_entry, add, original_destination, handle_keepalive,
  handle_proof, remove_stale,
}
use styrene_rs.Transport.LinkTable.Lifecycle.{
  LinkEvent, added, kept_alive, proved, swept, step, run, Outcome, original_destination_needs_proof,
  step-Outcome,
}
use styrene_rs.Transport.CacheSet
use styrene_rs.Transport.CacheSet.{CacheSet, holds, contains}
use styrene_rs.Transport.CacheSet.Members.{IsValid, push}
use styrene_rs.Transport.CacheSet.Bounded.{insert-push}

-- A stand-in for the digest: the first 32 bytes, without the types.
abbrev digest : List ℕ → Hash
digest l = take 32 (drop 1 l)

abbrev address : ℕ → AddressHash
address n = replicate 16 n

abbrev packet_to : ℕ → ℕ → Packet
packet_to destination hops = record {
  header = record {
    ifac_flag = open_access;
    header_type = type1;
    context_flag = unset;
    propagation_type = broadcast;
    destination_type = single;
    packet_type = payload;
    hops = hops;
  };
  ifac = none;
  destination = address destination;
  transport = none;
  context = none_context;
  body = record { buffer = 1 ∷ 2 ∷ []; len = 2 };
}

abbrev heard : ℕ → ℕ → Received
heard destination hops = record {
  now = hops;
  packet = packet_to destination hops;
  transport_id = some (address (10 + hops));
  iface = address (20 + hops);
}

abbrev announces : List Received
announces = heard 1 5 ∷ heard 2 1 ∷ heard 1 2 ∷ heard 1 9 ∷ []

entry_hops-learn_example :
    entry_hops (lookup (address 1) (learn digest announces []))
    ≡ least_hops digest (address 1) announces none
unfolding lookup
entry_hops-learn_example = entry_hops-learn digest (address 1) announces []

least_hops_run : least_hops digest (address 1) announces none ≡ some 3
unfolding least_hops bytes_eq
least_hops_run = refl

-- The nearest of the three announces for the first destination has two hops.
handle_inbound_packet-learn_example :
    let (q, iface) = handle_inbound_packet (packet_to 1 255) none (learn digest announces []) in
    ((least_hops digest (address 1) announces none ≡ none) × (q ≡ packet_to 1 255) × (iface ≡ none))
    ⊎ ((r : Received) × Memᴰ r announces
        × (r.packet.destination ≡ address 1)
        × (least_hops digest (address 1) announces none ≡ some (min (r.packet.header.hops + 1) 255))
        × IsTransported (packet_to 1 255) (unwrap_or r.transport_id (address 1)) q
        × (iface ≡ some r.iface))
handle_inbound_packet-learn_example =
    handle_inbound_packet-learn digest announces (packet_to 1 255) none

handle_inbound_packet_run :
    let (q, iface) = handle_inbound_packet (packet_to 1 255) none (learn digest announces []) in
    (q.transport ≡ some (address 12))
    × (q.header.hops ≡ 255)
    × (iface ≡ some (address 22))
    × (handle_inbound_packet (packet_to 7 3) none (learn digest announces [])
        ≡ (packet_to 7 3, none))
unfolding handle_inbound_packet learn handle_announce lookup insert bytes_eq
handle_inbound_packet_run = (refl, refl, refl, refl)

abbrev request : Packet
request = packet_to 6 1

abbrev pending_link : LinkEntry
pending_link = requested_entry 10 50 request (address 6) (address 7) (address 8) (address 9)

abbrev links : LinkTable
links = record { entries = (address 5, pending_link) ∷ []; proof_timeout = 50; idle_timeout = 100 }

abbrev other_request : Packet
other_request = packet_to 9 1

-- Two links are requested, and the second of them is proved.
abbrev events : List LinkEvent
events =
    added 10 request (address 6) (address 7) (address 8) (address 9)
    ∷ added 11 other_request (address 5) (address 7) (address 8) (address 9)
    ∷ kept_alive 20 request
    ∷ proved 25 other_request
    ∷ swept 30
    ∷ []

original_destination_needs_proof_example :
    original_destination (address 6) (run digest events (LinkTable.new 50 100)) ≡ none
original_destination_needs_proof_example =
    original_destination_needs_proof digest (address 6) events 50 100
      (tt, (tt, (tt, (ground arith, (tt, tt)))))

links_run :
    let t = run digest events (LinkTable.new 50 100) in
    (link_id digest request ≡ address 6)
    × (contains_key (address 6) t.entries ≡ true)
    × (original_destination (address 9) t ≡ some (address 5))
unfolding run step add link_id handle_keepalive handle_proof remove_stale original_destination
    contains_key lookup insert remove remove_all keys_where bytes_eq new_from_hash
links_run = (refl, refl, refl)

step-Outcome_example :
    Outcome digest
      (swept 70)
      100
      pending_link
      (lookup (address 5) (step digest (swept 70) links).entries)
unfolding lookup bytes_eq
step-Outcome_example = step-Outcome digest (address 5) (swept 70) links pending_link (refl, tt) refl

-- Two members in a set of two.
abbrev full_set : CacheSet ℕ
full_set = record { capacity = 2; members = 5 ∷ 4 ∷ []; queue = 4 ∷ 5 ∷ [] }

full_set-IsValid : IsValid full_set
unfolding holds
full_set-IsValid = record {
  distinct_members = (refl, (refl, tt));
  distinct_queue = (refl, (refl, tt));
  same_members = λ x. ground arith;
  same_length = refl;
  bounded = omega arith;
  some_room = omega arith;
}

insert-push_example :
    let (c', is_new) = CacheSet.insert 6 full_set in
    IsValid c'
    × ((c'.queue, is_new) ≡ push 2 6 full_set.queue)
    × (c'.capacity ≡ 2)
    × (contains 6 c' ≡ true)
insert-push_example = insert-push 6 full_set full_set-IsValid

full_set_run :
    ((CacheSet.insert 6 full_set).0.queue ≡ 5 ∷ 6 ∷ []) × ((CacheSet.insert 5 full_set).1 ≡ false)
unfolding CacheSet.insert holds
full_set_run = (refl, refl)
