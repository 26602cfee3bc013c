-- ===== src/Transport/PathTable.antt =====
-- crates/libs/styrene-rns/src/transport/core_transport/path_table.rs
pub mod Selection
pub mod Forwarding
use styrene_rs.Base.{
  ℕ, Bool, true, false, Option, none, some, List, leb, if◌then◌else◌, saturating_add_one,
}
use styrene_rs.Base.Keys.{bytes_key, Map, lookup, insert}
use styrene_rs.Hash.{Hash, AddressHash}
use styrene_rs.Packet.Header.{open_access, type1, type2, transport, group, plain, announce}
use styrene_rs.Packet.Codec.{Packet}
use styrene_rs.Packet.Digest.{packet_hash}

pub record PathEntry : Type 0 where
  pub timestamp : ℕ
  pub received_from : AddressHash
  pub hops : ℕ
  pub iface : AddressHash
  pub entry_hash : Hash

abbrev pub PathTable : Type 0
PathTable = Map AddressHash PathEntry

abbrev pub unwrap_or : Option AddressHash → AddressHash → AddressHash
unwrap_or none d = d
unwrap_or (some a) d = a

unfoldable pub next_hop_full : AddressHash → PathTable → Option (AddressHash × AddressHash)
next_hop_full destination table = elim (lookup destination table) [
  | none ↦ none
  | some e ↦ some (e.received_from, e.iface)
]

unfoldable pub next_hop_iface : AddressHash → PathTable → Option AddressHash
next_hop_iface destination table = elim (lookup destination table) [
  | none ↦ none
  | some e ↦ some e.iface
]

unfoldable pub next_hop : AddressHash → PathTable → Option AddressHash
next_hop destination table = elim (lookup destination table) [
  | none ↦ none
  | some e ↦ some e.received_from
]

-- The entry that an announce stands for.
abbrev pub announced_entry :
    (List ℕ → Hash) → ℕ → Packet → Option AddressHash → AddressHash → PathEntry
announced_entry sha256 now packet transport_id iface = record {
  timestamp = now;
  received_from = unwrap_or transport_id packet.destination;
  hops = saturating_add_one packet.header.hops;
  iface = iface;
  entry_hash = packet_hash sha256 packet;
}

unfoldable pub handle_announce :
    (List ℕ → Hash) → ℕ → Packet → Option AddressHash → AddressHash → PathTable → PathTable
handle_announce sha256 now packet transport_id iface table =
    let hops = saturating_add_one packet.header.hops in
    let added =
      insert packet.destination (announced_entry sha256 now packet transport_id iface) table in
    elim (lookup packet.destination table) [
      | none ↦ added
      | some existing ↦ if leb existing.hops hops then table else added
    ]

unfoldable pub handle_inbound_packet :
    Packet → Option AddressHash → PathTable → Packet × Option AddressHash
handle_inbound_packet p lookup_address table =
    elim (lookup (unwrap_or lookup_address p.destination) table) [
      | none ↦ (p, none)
      | some entry ↦ (
        record {
          header = record {
            ifac_flag = open_access;
            header_type = type2;
            context_flag = p.header.context_flag;
            propagation_type = transport;
            destination_type = p.header.destination_type;
            packet_type = p.header.packet_type;
            hops = saturating_add_one p.header.hops;
          };
          ifac = none;
          destination = p.destination;
          transport = some entry.received_from;
          context = p.context;
          body = p.body;
        },
        some entry.iface,
      )
    ]

unfoldable pub refresh : ℕ → AddressHash → PathTable → PathTable
refresh now destination table = elim (lookup destination table) [
  | none ↦ table
  | some entry ↦ insert destination (record entry { timestamp = now }) table
]

abbrev is_type2 : Packet → Bool
is_type2 p = elim p.header.header_type [ type1 ↦ false | type2 ↦ true ]

abbrev is_announce : Packet → Bool
is_announce p = elim p.header.packet_type [ announce ↦ true | _ ↦ false ]

abbrev is_plain_or_group : Packet → Bool
is_plain_or_group p = elim p.header.destination_type [ plain ↦ true | group ↦ true | _ ↦ false ]

unfoldable pub handle_packet : Packet → PathTable → Packet × Option AddressHash
handle_packet p table =
    if is_type2 p
    then (p, none)
    else if is_announce p
    then (p, none)
    else if is_plain_or_group p
    then (p, none)
    else elim (lookup p.destination table) [
      | none ↦ (p, none)
      | some entry ↦ if leb entry.hops 1 then (p, some entry.iface) else (
        record p {
          header = record p.header { header_type = type2; propagation_type = transport };
          transport = some entry.received_from;
        },
        some entry.iface,
      )
    ]
