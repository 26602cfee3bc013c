-- ===== src/Transport/LinkTable/Routing.antt =====
-- What a proof or a keepalive for a link that passes through is turned into.
use styrene_rs.Base.{ℕ, ◌+◌, min, ◌≡◌, true, none, some, arith, length}
use styrene_rs.Base.Keys.{bytes_key, lookup, lookup-insert_self}
use styrene_rs.Hash.{AddressHash, address_hash_size}
use styrene_rs.Packet.Codec.{Packet}
use styrene_rs.Packet.Codec.RoundTrip.{IsValid}
use styrene_rs.Transport.PathTable.Forwarding.{SameContent}
use styrene_rs.Transport.LinkTable.{
  LinkEntry, LinkTable, send_backwards, original_destination, handle_keepalive, handle_proof,
}

-- The packet that goes back along the link: same content, one hop more, and well formed.
abbrev pub SentBack : Packet → LinkEntry → Packet × AddressHash → Type 0
SentBack p e (q, iface) =
    SameContent q p
    × (q.header.hops ≡ min (p.header.hops + 1) 255)
    × IsValid q
    × (q.transport ≡ some e.next_hop)
    × (iface ≡ e.received_from)

send_backwards-SentBack :
    (p : Packet) (e : LinkEntry)
    → length p.destination ≡ address_hash_size
    → length e.next_hop ≡ address_hash_size
    → SentBack p e (send_backwards p e)
unfolding send_backwards
send_backwards-SentBack p e hd hn = ground arith

-- A proof for a link that nobody asked for is dropped, and so is a keepalive.
pub unknown_link_dropped :
    (now : ℕ) (p : Packet) (t : LinkTable)
    → lookup p.destination t.entries ≡ none
    → (handle_proof now p t ≡ (t, none)) × (handle_keepalive now p t ≡ (t, none))
unfolding handle_proof handle_keepalive
unknown_link_dropped now p t h = ground arith

-- A proof for a link in the table, with addresses of 16 bytes, is sent back towards the
-- initiator of the link, and from then on the destination of the link is reported.
pub handle_proof_known :
    (now : ℕ) (p : Packet) (t : LinkTable) (e : LinkEntry)
    → length p.destination ≡ address_hash_size
    → length e.next_hop ≡ address_hash_size
    → lookup p.destination t.entries ≡ some e
    → let (t', answer) = handle_proof now p t in
      (back : Packet × AddressHash) × (answer ≡ some back)
      × SentBack p e back
      × (original_destination p.destination t' ≡ some e.original_destination)
unfolding handle_proof original_destination
handle_proof_known now p t e hd hn h =
    let proved : LinkEntry = record e {
      remaining_hops = p.header.hops;
      validated = true;
      timestamp = now;
    } in
    (
      send_backwards p proved,
      ground arith,
      send_backwards-SentBack p proved hd hn,
      ground (arith, lookup-insert_self p.destination proved t.entries),
    )
