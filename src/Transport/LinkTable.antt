-- ===== src/Transport/LinkTable.antt =====
-- crates/libs/styrene-rns/src/transport/core_transport/link_table.rs: the links that pass through
-- this node, from a link request to its proof, and until they fall idle.
pub mod Lifecycle
pub mod Routing
use styrene_rs.Base.{
  [], ℕ, ◌+◌, ◌-◌, ◌*◌, bit_and, Bool, true, false, Option, none, some, List, ◌∷◌, ◌++◌, ltb, leb,
  if◌then◌else◌, saturating_add_one, length, take,
}
use styrene_rs.Base.Keys.{bytes_key, Map, lookup, insert}
use styrene_rs.Base.Retain.{keys_where, remove_all}
use styrene_rs.Hash.{Hash, AddressHash, new_from_hash}
use styrene_rs.Packet.Header.{open_access, type2, transport, to_meta}
use styrene_rs.Packet.Context.{context_code}
use styrene_rs.Packet.Codec.{Packet}
use styrene_rs.Buffer.StaticBuffer.{as_slice}

-- `ed25519_dalek::PUBLIC_KEY_LENGTH`
abbrev pub public_key_length : ℕ
public_key_length = 32

-- `LinkId::from(&Packet)` of destination_ext/link/id.rs: the digest of the request without the
-- bytes behind the two keys.
unfoldable pub link_id : (List ℕ → Hash) → Packet → AddressHash
link_id sha256 p =
    let body = as_slice p.body in
    let surplus =
      if ltb (public_key_length * 2) (length body)
      then length body - public_key_length * 2
      else 0 in
    new_from_hash (
      sha256 (
        bit_and (to_meta p.header) 15
        ∷ (p.destination ++ (context_code p.context ∷ take (length body - surplus) body))))

pub record LinkEntry : Type 0 where
  pub timestamp : ℕ
  pub proof_timeout : ℕ
  pub next_hop : AddressHash
  pub next_hop_iface : AddressHash
  pub received_from : AddressHash
  pub original_destination : AddressHash
  pub taken_hops : ℕ
  pub remaining_hops : ℕ
  pub validated : Bool

pub record LinkTable : Type 0 where
  pub entries : Map AddressHash LinkEntry
  pub proof_timeout : ℕ
  pub idle_timeout : ℕ

unfoldable pub send_backwards : Packet → LinkEntry → Packet × AddressHash
send_backwards p entry = (
  record {
    header = record p.header {
      ifac_flag = open_access;
      header_type = type2;
      hops = saturating_add_one p.header.hops;
    };
    ifac = none;
    destination = p.destination;
    transport = some entry.next_hop;
    context = p.context;
    body = p.body;
  },
  entry.received_from,
)

abbrev pub new : ℕ → ℕ → LinkTable
new proof_timeout idle_timeout = record {
  entries = [];
  proof_timeout = proof_timeout;
  idle_timeout = idle_timeout;
}

abbrev pub requested_entry :
    ℕ → ℕ → Packet → AddressHash → AddressHash → AddressHash → AddressHash → LinkEntry
requested_entry now timeout request destination received_from next_hop iface = record {
  timestamp = now;
  proof_timeout = now + timeout;
  next_hop = next_hop;
  next_hop_iface = iface;
  received_from = received_from;
  original_destination = destination;
  taken_hops = saturating_add_one request.header.hops;
  remaining_hops = 0;
  validated = false;
}

unfoldable pub add :
    (List ℕ → Hash)
    → ℕ
    → Packet
    → AddressHash
    → AddressHash
    → AddressHash
    → AddressHash
    → LinkTable
    → LinkTable
add sha256 now request destination received_from next_hop iface t =
    let id = link_id sha256 request in
    elim (lookup id t.entries) [
      | some _ ↦ t
      | none ↦ record t {
        entries =
            insert id
              (requested_entry now t.proof_timeout request destination received_from next_hop iface)
              t.entries;
      }
    ]

unfoldable pub original_destination : AddressHash → LinkTable → Option AddressHash
original_destination id t = elim (lookup id t.entries) [
  | none ↦ none
  | some e ↦ if e.validated then some e.original_destination else none
]

unfoldable pub proof_validation_context :
    AddressHash → LinkTable → Option (AddressHash × AddressHash)
proof_validation_context id t = elim (lookup id t.entries) [
  | none ↦ none
  | some e ↦ some (e.original_destination, e.next_hop_iface)
]

unfoldable pub handle_keepalive : ℕ → Packet → LinkTable → LinkTable × Option (Packet × AddressHash)
handle_keepalive now p t = elim (lookup p.destination t.entries) [
  | none ↦ (t, none)
  | some e ↦
      let touched = record e { timestamp = now } in
      (
        record t { entries = insert p.destination touched t.entries },
        some (send_backwards p touched),
      )
]

unfoldable pub handle_proof : ℕ → Packet → LinkTable → LinkTable × Option (Packet × AddressHash)
handle_proof now p t = elim (lookup p.destination t.entries) [
  | none ↦ (t, none)
  | some e ↦
      let proved = record e { remaining_hops = p.header.hops; validated = true; timestamp = now } in
      (record t { entries = insert p.destination proved t.entries }, some (send_backwards p proved))
]

-- The test of `remove_stale` on one entry.
abbrev pub is_stale : ℕ → ℕ → LinkEntry → Bool
is_stale now idle_timeout e =
    if e.validated then leb (e.timestamp + idle_timeout) now else leb e.proof_timeout now

unfoldable pub remove_stale : ℕ → LinkTable → LinkTable
remove_stale now t = record t {
  entries = remove_all (keys_where (λ _. is_stale now t.idle_timeout) t.entries) t.entries;
}
