-- ===== src/Tests/Announces.antt =====
-- The announces of crates/libs/styrene-rns/src/transport/core_transport/announce_table.rs at concrete
-- inputs.
use styrene_rs.Base.{
  ◌*◌, ◌+◌, ◌^◌, [], ℕ, ◌≡◌, refl, Bool, true, false, none, some, List, ◌∷◌, ◌++◌, arith, replicate,
  ◌≤◌, if◌then◌else◌,
}
use styrene_rs.Base.Bytes.{bytes_eq}
use styrene_rs.Base.Keys.{bytes_key, lookup, contains_key}
use styrene_rs.Base.Retain.{remove_all}
use styrene_rs.Base.Ordered.{bytes_lt}
use styrene_rs.Hash.{AddressHash}
use styrene_rs.Packet.Header.{open_access, unset, type1, broadcast, single, payload}
use styrene_rs.Packet.Context.{none_context}
use styrene_rs.Packet.Codec.{Packet}
use styrene_rs.Transport.AnnounceEntry.{AnnounceEntry, retransmit}
use styrene_rs.Transport.AnnounceEntry.Retransmission.{Poll, poll_all}
use styrene_rs.Transport.AnnounceCache
use styrene_rs.Transport.AnnounceCache.{AnnounceCache}
use styrene_rs.Transport.AnnounceCache.Bounded.{insert_all, len-insert_all}
use styrene_rs.Transport.AnnounceTable
use styrene_rs.Transport.AnnounceTable.{
  AnnounceTable, add_response, try_entry, retire_all, sweep, nothing_skipped, to_retransmit,
  path_response_grace,
}
use styrene_rs.Transport.AnnounceTable.Due.{after_sending, tried, announcement, announcements}
use styrene_rs.Transport.AnnounceTable.Sweep.{to_retransmit_lem}
use styrene_rs.Transport.AnnounceTable.Ordering.{IsOrdered}
use styrene_rs.Transport.AnnounceTable.Response.{
  Sweeping, sweeps, all_before, add_response-to_retransmit,
}

abbrev address : ℕ → AddressHash
address n = replicate 16 n

abbrev packet_to : ℕ → ℕ → Packet
packet_to destination hops = record {
  header = record {
    ifac_flag = open_access;
    header_type = type1;
    context_flag = unset;
    propagation_type = broadcast;
    destination_type = single;
    packet_type = payload;
    hops = hops;
  };
  ifac = none;
  destination = address destination;
  transport = none;
  context = none_context;
  body = record { buffer = 1 ∷ 2 ∷ []; len = 2 };
}

abbrev waiting_announce : AnnounceEntry
waiting_announce = record {
  packet = packet_to 2 1;
  timestamp = 0;
  timeout = 10;
  received_from = address 3;
  retries = 0;
  hops = 2;
  response_to_iface = none;
}

abbrev first_poll : Poll
first_poll = record { now = 10; later = 11; drawn = 700 }

abbrev second_poll : Poll
second_poll = record { now = 4 * 10 ^ 9; later = 4 * 10 ^ 9; drawn = 1 }

abbrev third_poll : Poll
third_poll = record { now = 6 * 10 ^ 9; later = 6 * 10 ^ 9; drawn = 2 }

abbrev polls : List Poll
polls = first_poll ∷ second_poll ∷ third_poll ∷ []

polls_run : (poll_all (address 9) polls waiting_announce).1 ≡ 2
unfolding poll_all retransmit
polls_run = refl

abbrev entries : List (AddressHash × AnnounceEntry)
entries =
    (address 3, waiting_announce)
    ∷ (address 1, waiting_announce)
    ∷ (address 2, waiting_announce)
    ∷ []

len-insert_all_example :
    (AnnounceCache.len (insert_all entries (AnnounceCache.new 2)) ≤ 2)
    × ((insert_all entries (AnnounceCache.new 2)).older ≡ none)
    × (AnnounceCache.get (address 4) (
          AnnounceCache.insert
            (address 4)
            waiting_announce
            (insert_all entries (AnnounceCache.new 2)))
        ≡ some waiting_announce)
len-insert_all_example = len-insert_all 2 entries (address 4) waiting_announce (omega arith)

abbrev table : AnnounceTable
table = record (AnnounceTable.new 2 1) {
  map = (address 1, waiting_announce) ∷ (address 2, waiting_announce) ∷ [];
  responses = (address 2, waiting_announce) ∷ [];
}

table-IsOrdered : IsOrdered table
table-IsOrdered = record { map = (unfold bytes_lt in (refl, (tt, tt))); responses = (tt, tt) }

abbrev late_clock : AddressHash → Poll
late_clock d = record { now = 10 ^ 9; later = 10 ^ 9; drawn = 3 }

to_retransmit_lem_example :
    let (t', messages) = to_retransmit (10 ^ 9) late_clock late_clock (address 9) table in
    let pending : AddressHash → Bool = λ d. contains_key d table.responses in
    (lookup (address 1) t'.map ≡ (
      if contains_key (address 1) table.responses
      then lookup (address 1) table.map
      else tried 1 (10 ^ 9) (late_clock (address 1)) (lookup (address 1) table.map)))
    × (lookup (address 1) t'.responses
        ≡ tried 1 (10 ^ 9) (late_clock (address 1)) (lookup (address 1) table.responses))
    × (messages
        ≡ announcements pending 1 (10 ^ 9) late_clock (address 9) table.map
          ++ announcements nothing_skipped 1 (10 ^ 9) late_clock (address 9) table.responses)
to_retransmit_lem_example =
    to_retransmit_lem (10 ^ 9) late_clock late_clock (address 9) (address 1) table
      table-IsOrdered.map table-IsOrdered.responses

-- The announce is due and stays for another try; two messages go out, as its neighbour is skipped
-- for the pending response.
table_run :
    let (t', messages) = to_retransmit (10 ^ 9) late_clock late_clock (address 9) table in
    (lookup (address 1) t'.map ≡ some (after_sending (late_clock (address 1)) waiting_announce))
    × (messages
        ≡ announcement (address 9) waiting_announce
          ∷ announcement (address 9) waiting_announce
          ∷ [])
unfolding to_retransmit sweep try_entry retransmit retire_all remove_all lookup contains_key
    bytes_eq
table_run = (refl, refl)

abbrev sweep_at : ℕ → Sweeping
sweep_at now = record {
  now = now;
  clock = late_clock;
  response_clock = late_clock;
  transport_id = address 9;
}

-- The first is before the end of the grace.
abbrev two_sweeps : List Sweeping
two_sweeps = sweep_at 1000 ∷ sweep_at (10 ^ 9) ∷ []

add_response-to_retransmit_example :
    let t' = sweeps two_sweeps (add_response 7 (address 1) (address 5) 2 table).0 in
    (contains_key (address 1) t'.responses ≡ all_before (7 + path_response_grace) two_sweeps)
    × (lookup (address 1) t'.map ≡ none)
unfolding add_response
add_response-to_retransmit_example =
    add_response-to_retransmit 7 2 (address 1) (address 5) two_sweeps table table-IsOrdered
      (omega arith) (omega arith, (omega arith, tt)) (unfold lookup bytes_eq in refl)

two_sweeps_run :
    (all_before (7 + path_response_grace) (sweep_at 1000 ∷ []) ≡ true)
    × (all_before (7 + path_response_grace) two_sweeps ≡ false)
two_sweeps_run = (refl, refl)
