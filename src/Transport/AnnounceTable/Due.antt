-- ===== src/Transport/AnnounceTable/Due.antt =====
-- What a sweep of crates/libs/styrene-rns/src/transport/core_transport/announce_table.rs does with an entry,
-- and which messages it sends, in terms of the entry's retries and times only.
use styrene_rs.Base.{
  ℕ, ◌+◌, ◌≡◌, refl, inl, inr, Bool, not, ◌&&◌, Option, none, some, List, [], ◌∷◌, arith, ltb, leb,
  saturating_add_one, if◌then◌else◌, Bool-cases,
}
use styrene_rs.Hash.{AddressHash}
use styrene_rs.Transport.AnnounceEntry.{
  AnnounceEntry, TxMessage, to_all, direct, announce_packet, pathfinder_retry_grace, retry_window,
  retransmit,
}
use styrene_rs.Transport.AnnounceEntry.Retransmission.{Poll}
use styrene_rs.Transport.AnnounceCache.{Entries}
use styrene_rs.Transport.AnnounceTable.{try_entry, sweep}

-- An entry with a retry left whose time has come, at the sweep and again when it is sent.
abbrev pub is_due : ℕ → ℕ → Poll → AnnounceEntry → Bool
is_due limit now poll entry =
    leb entry.retries limit && leb entry.timeout now && leb entry.timeout poll.now

-- The entry once it was sent.
abbrev pub after_sending : Poll → AnnounceEntry → AnnounceEntry
after_sending poll entry = record entry {
  retries = saturating_add_one entry.retries;
  timeout = poll.later + pathfinder_retry_grace + retry_window poll.drawn;
}

-- What a sweep leaves of an entry: nothing if its retries exceed the limit before or after.
abbrev pub tried : ℕ → ℕ → Poll → Option AnnounceEntry → Option AnnounceEntry
tried limit now poll none = none
tried limit now poll (some entry) =
    let entry' = if is_due limit now poll entry then after_sending poll entry else entry in
    if ltb limit entry'.retries then none else some entry'

-- The message for an entry: to the interface that asked, or to all but the sender.
abbrev pub announcement : AddressHash → AnnounceEntry → TxMessage
announcement transport_id entry = record {
  tx_type = elim entry.response_to_iface [
    | some iface ↦ direct iface
    | none ↦ to_all (some entry.received_from)
  ];
  packet = announce_packet transport_id entry;
}

-- One message for each entry that is due and not skipped, in their order.
unfoldable pub announcements :
    (AddressHash → Bool) → ℕ → ℕ → (AddressHash → Poll) → AddressHash → Entries → List TxMessage
announcements skipped limit now clock transport_id [] = []
announcements skipped limit now clock transport_id ((d, entry) ∷ entries) =
    let rest = announcements skipped limit now clock transport_id entries in
    if not (skipped d) && is_due limit now (clock d) entry
    then announcement transport_id entry ∷ rest
    else rest

pub try_entry-tried :
    (limit now : ℕ) (poll : Poll) (transport_id : AddressHash) (entry : AnnounceEntry)
    → (let entry' = (try_entry limit now poll transport_id entry).0 in
        (if ltb limit entry'.retries then none else some entry')
        ≡ tried limit now poll (some entry))
unfolding try_entry retransmit
try_entry-tried limit now poll transport_id entry = ground arith

try_entry_message :
    (limit now : ℕ) (poll : Poll) (transport_id : AddressHash) (entry : AnnounceEntry)
    → (try_entry limit now poll transport_id entry).1
      ≡ (if is_due limit now poll entry then some (announcement transport_id entry) else none)
unfolding try_entry retransmit
try_entry_message limit now poll transport_id entry = ground arith

pub messages-sweep :
    (skipped : AddressHash → Bool) (limit now : ℕ) (clock : AddressHash → Poll)
    (transport_id : AddressHash) (entries : Entries)
    → (sweep skipped limit now clock transport_id entries).1
      ≡ announcements skipped limit now clock transport_id entries
unfolding announcements sweep
messages-sweep skipped limit now clock transport_id [] = refl
messages-sweep skipped limit now clock transport_id ((d, entry) ∷ entries) =
    let rest = messages-sweep skipped limit now clock transport_id entries in
    let message = try_entry_message limit now (clock d) transport_id entry in
    elim (Bool-cases (skipped d)) [
      | inl passed ↦ rw (passed, rest) refl
      | inr free ↦ elim (Bool-cases (is_due limit now (clock d) entry)) [
        | inl due ↦ rw (free, message, rest, due) refl
        | inr early ↦ rw (free, message, rest, early) refl
      ]
    ]
