-- ===== src/Transport/AnnounceEntry.antt =====
-- crates/libs/styrene-rns/src/transport/core_transport/announce_table.rs: an announce that waits to be
-- sent on. The clock is an argument, read twice; `drawn` is the random number of the retry window.
pub mod Retransmission
use styrene_rs.Base.{
  ℕ, ◌+◌, ◌*◌, ◌/◌, ◌%◌, ◌^◌, Option, none, some, ltb, if◌then◌else◌, saturating_add_one,
}
use styrene_rs.Hash.{AddressHash}
use styrene_rs.Packet.Header.{open_access, type2, broadcast, single, announce}
use styrene_rs.Packet.Context.{none_context, path_response}
use styrene_rs.Packet.Codec.{Packet}

-- Of crates/libs/styrene-rns/src/transport/iface/mod.rs.
pub data TxMessageType : Type 0 where
  to_all : Option AddressHash → TxMessageType
  direct : AddressHash → TxMessageType

pub record TxMessage : Type 0 where
  pub tx_type : TxMessageType
  pub packet : Packet

-- In nanoseconds.
abbrev pub pathfinder_retry_grace : ℕ
pathfinder_retry_grace = 5 * 10 ^ 9

abbrev pub pathfinder_retry_window : ℕ
pathfinder_retry_window = 500 * 10 ^ 6

pub record AnnounceEntry : Type 0 where
  pub packet : Packet
  pub timestamp : ℕ
  pub timeout : ℕ
  pub received_from : AddressHash
  pub retries : ℕ
  pub hops : ℕ
  pub response_to_iface : Option AddressHash

-- A whole number of milliseconds, from a random 32-bit number.
abbrev pub retry_window : ℕ → ℕ
retry_window drawn = drawn % (pathfinder_retry_window / 10 ^ 6 + 1) * 10 ^ 6

unfoldable pub announce_packet : AddressHash → AnnounceEntry → Packet
announce_packet transport_id entry = record {
  header = record {
    ifac_flag = open_access;
    header_type = type2;
    context_flag = entry.packet.header.context_flag;
    propagation_type = broadcast;
    destination_type = single;
    packet_type = announce;
    hops = entry.hops;
  };
  ifac = none;
  destination = entry.packet.destination;
  transport = some transport_id;
  context = elim entry.response_to_iface [ none ↦ none_context | some _ ↦ path_response ];
  body = entry.packet.body;
}

unfoldable pub retransmit :
    ℕ → ℕ → ℕ → AddressHash → AnnounceEntry → AnnounceEntry × Option TxMessage
retransmit now later drawn transport_id entry = if ltb now entry.timeout then (entry, none) else (
  record entry {
    retries = saturating_add_one entry.retries;
    timeout = later + pathfinder_retry_grace + retry_window drawn;
  },
  some (record {
    tx_type = elim entry.response_to_iface [
      | some iface ↦ direct iface
      | none ↦ to_all (some entry.received_from)
    ];
    packet = announce_packet transport_id entry;
  }),
)
