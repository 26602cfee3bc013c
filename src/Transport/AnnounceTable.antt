-- ===== src/Transport/AnnounceTable.antt =====
-- crates/libs/styrene-rns/src/transport/core_transport/announce_table.rs (`AnnounceTable`). A sweep reads
-- the clock and the random generator for each entry it tries: `clock` gives what it reads there.
pub mod Due
pub mod Sweep
pub mod Ordering
pub mod Waiting
pub mod Response
use styrene_rs.Base.{
  ℕ, ◌+◌, ◌-◌, ◌*◌, ◌^◌, Bool, true, false, ◌&&◌, Option, none, some, List, [], ◌∷◌, ◌++◌, ltb,
  ◌==◌ as nat_eq, if◌then◌else◌, length, saturating_add_one,
}
use styrene_rs.Base.Keys.{bytes_key, lookup, remove, contains_key}
use styrene_rs.Base.Retain.{remove_all}
use styrene_rs.Base.Ordered.{put}
use styrene_rs.Hash.{AddressHash}
use styrene_rs.Packet.Codec.{Packet}
use styrene_rs.Transport.AnnounceEntry.{AnnounceEntry, TxMessage, retry_window, retransmit}
use styrene_rs.Transport.AnnounceEntry.Retransmission.{Poll}
use styrene_rs.Transport.AnnounceCache
use styrene_rs.Transport.AnnounceCache.{Entries, AnnounceCache}

-- In nanoseconds.
abbrev pub path_response_grace : ℕ
path_response_grace = 400 * 10 ^ 6

pub record AnnounceTable : Type 0 where
  pub map : Entries
  pub responses : Entries
  pub cache : AnnounceCache
  pub retry_limit : ℕ

abbrev pub new : ℕ → ℕ → AnnounceTable
new cache_capacity retry_limit = record {
  map = [];
  responses = [];
  cache = AnnounceCache.new cache_capacity;
  retry_limit = retry_limit;
}

abbrev pub is_empty : AnnounceTable → Bool
is_empty t =
    nat_eq (length t.map) 0 && nat_eq (length t.responses) 0 && AnnounceCache.is_empty t.cache

unfoldable pub add : ℕ → ℕ → Packet → AddressHash → AddressHash → AnnounceTable → AnnounceTable
add now drawn announce destination received_from t =
    if contains_key destination t.map then t else record t {
      map =
          put destination
            (record {
              packet = announce;
              timestamp = now;
              timeout = now + retry_window drawn;
              received_from = received_from;
              retries = 0;
              hops = saturating_add_one announce.header.hops;
              response_to_iface = none;
            })
            t.map;
    }

unfoldable pub do_add_response :
    ℕ → AnnounceEntry → AddressHash → AddressHash → ℕ → AnnounceTable → AnnounceTable
do_add_response now response destination to_iface hops t = record t {
  responses =
      put destination
        (record response {
          retries = t.retry_limit;
          hops = hops;
          timeout = now + path_response_grace;
          response_to_iface = some to_iface;
        })
        t.responses;
}

unfoldable pub add_response :
    ℕ → AddressHash → AddressHash → ℕ → AnnounceTable → AnnounceTable × Bool
add_response now destination to_iface hops t = elim (lookup destination t.map) [
  | some entry ↦ (
    do_add_response now entry destination to_iface hops
        (record t { map = remove destination t.map }),
    true,
  )
  | none ↦ elim (AnnounceCache.get destination t.cache) [
    | some entry ↦ (do_add_response now entry destination to_iface hops t, true)
    | none ↦ (t, false)
  ]
]

abbrev pub clear : AnnounceTable → AnnounceTable
clear t = record t { map = []; responses = []; cache = AnnounceCache.clear t.cache }

-- An entry of the map that is spent moves to the cache.
unfoldable pub retire : AddressHash → AnnounceTable → AnnounceTable
retire destination t = elim (lookup destination t.map) [
  | none ↦ t
  | some announce ↦ record t {
    map = remove destination t.map;
    cache = AnnounceCache.insert destination announce t.cache;
  }
]

unfoldable pub retire_all : List AddressHash → AnnounceTable → AnnounceTable
retire_all [] t = t
retire_all (destination ∷ rest) t = retire_all rest (retire destination t)

unfoldable pub new_packet :
    Poll → AddressHash → AddressHash → AnnounceTable → AnnounceTable × Option TxMessage
new_packet poll dest_hash transport_id t = elim (lookup dest_hash t.map) [
  | none ↦ (t, none)
  | some entry ↦
      let (entry', message) =
        if ltb t.retry_limit entry.retries
        then (entry, none)
        else retransmit poll.now poll.later poll.drawn transport_id entry in
      let t' = record t { map = put dest_hash entry' t.map } in
      (if ltb t.retry_limit entry'.retries then retire dest_hash t' else t', message)
]

-- What a sweep does with one entry: the entry after it, the message, and whether it is spent.
unfoldable pub try_entry :
    ℕ → ℕ → Poll → AddressHash → AnnounceEntry → AnnounceEntry × Option TxMessage × Bool
try_entry limit now poll transport_id entry =
    if ltb limit entry.retries
    then (entry, none, true)
    else if ltb now entry.timeout
    then (entry, none, false)
    else (let (entry', message) = retransmit poll.now poll.later poll.drawn transport_id entry in
        (entry', message, elim message [ some _ ↦ ltb limit entry'.retries | none ↦ false ]))

abbrev pub push_some : Option TxMessage → List TxMessage → List TxMessage
push_some none messages = messages
push_some (some message) messages = message ∷ messages

-- The entries in the order of their keys, those that `skipped` names left alone: the entries after it, the
-- messages and the spent keys.
unfoldable pub sweep :
    (AddressHash → Bool)
    → ℕ
    → ℕ
    → (AddressHash → Poll)
    → AddressHash
    → Entries
    → Entries × List TxMessage × List AddressHash
sweep skipped limit now clock transport_id [] = ([], [], [])
sweep skipped limit now clock transport_id ((destination, entry) ∷ entries) =
    let (entries', messages, completed) = sweep skipped limit now clock transport_id entries in
    if skipped destination
    then ((destination, entry) ∷ entries', messages, completed)
    else (let (entry', message, spent) =
          try_entry limit now (clock destination) transport_id entry in
        (
          (destination, entry') ∷ entries',
          push_some message messages,
          if spent then destination ∷ completed else completed,
        ))

abbrev pub nothing_skipped : AddressHash → Bool
nothing_skipped destination = false

unfoldable pub to_retransmit :
    ℕ
    → (AddressHash → Poll)
    → (AddressHash → Poll)
    → AddressHash
    → AnnounceTable
    → AnnounceTable × List TxMessage
to_retransmit now clock response_clock transport_id t =
    let (map', messages, completed) =
      sweep (λ d. contains_key d t.responses) t.retry_limit now clock transport_id t.map in
    let (responses', answers, completed_responses) =
      sweep nothing_skipped t.retry_limit now response_clock transport_id t.responses in
    let t' = retire_all completed (record t { map = map'; responses = responses' }) in
    (record t' { responses = remove_all completed_responses t'.responses }, messages ++ answers)

abbrev pub old_announce_age : ℕ
old_announce_age = 300 * 10 ^ 9

unfoldable pub sweep_old :
    ℕ → (AddressHash → Poll) → AddressHash → Entries → Entries × List TxMessage
sweep_old now clock transport_id [] = ([], [])
sweep_old now clock transport_id ((destination, entry) ∷ entries) =
    let (entries', messages) = sweep_old now clock transport_id entries in
    let poll = clock destination in
    if ltb (now - entry.timeout) old_announce_age
    then ((destination, entry) ∷ entries', messages)
    else (let (entry', message) = retransmit poll.now poll.later poll.drawn transport_id entry in
        ((destination, entry') ∷ entries', push_some message messages))

unfoldable pub to_retransmit_old :
    ℕ
    → (AddressHash → Poll)
    → (AddressHash → Poll)
    → AddressHash
    → AnnounceTable
    → AnnounceTable × List TxMessage
to_retransmit_old now clock older_clock transport_id t =
    let (newer', messages) = sweep_old now clock transport_id t.cache.newer in
    let swept = record t.cache { newer = newer' } in
    elim t.cache.older [
      | none ↦ (record t { cache = swept }, messages)
      | some older ↦
          let (older', more) = sweep_old now older_clock transport_id older in
          (record t { cache = record swept { older = some older' } }, messages ++ more)
    ]
