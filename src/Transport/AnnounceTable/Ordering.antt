-- ===== src/Transport/AnnounceTable/Ordering.antt =====
-- The operations of the announce table of
-- crates/libs/styrene-rns/src/transport/core_transport/announce_table.rs keep its maps in order.
use styrene_rs.Base.{
  ℕ, inl, inr, Bool, none, List, [], ◌∷◌, ltb, if◌then◌else◌, Bool-cases, Option-cases,
}
use styrene_rs.Base.Keys.{bytes_key, lookup, remove, contains_key}
use styrene_rs.Base.Retain.{remove_all}
use styrene_rs.Base.Ordered.{Before, Sorted, put, put-Sorted, remove-Sorted}
use styrene_rs.Hash.{AddressHash}
use styrene_rs.Packet.Codec.{Packet}
use styrene_rs.Transport.AnnounceEntry.{AnnounceEntry, retransmit}
use styrene_rs.Transport.AnnounceEntry.Retransmission.{Poll}
use styrene_rs.Transport.AnnounceCache
use styrene_rs.Transport.AnnounceCache.{Entries, AnnounceCache}
use styrene_rs.Transport.AnnounceTable.{
  AnnounceTable, add, do_add_response, add_response, retire, retire_all, new_packet, sweep,
  to_retransmit, nothing_skipped,
}

pub record IsOrdered (t : AnnounceTable) : Type 0 where
  pub map : Sorted t.map
  pub responses : Sorted t.responses

module _ (skipped : AddressHash → Bool) (limit now : ℕ) (clock : AddressHash → Poll)
    (transport_id : AddressHash) where
  Before-sweep :
      (key : AddressHash) (entries : Entries)
      → Before key entries
      → Before key (sweep skipped limit now clock transport_id entries).0
  unfolding sweep
  Before-sweep key [] before = tt
  Before-sweep key ((destination, entry) ∷ entries) before =
      elim (Bool-cases (skipped destination)) [
        | inl passed ↦ rw passed before
        | inr free ↦ rw free before
      ]

  sweep-Sorted :
      (entries : Entries)
      → Sorted entries
      → Sorted (sweep skipped limit now clock transport_id entries).0
  unfolding sweep
  sweep-Sorted [] s = tt
  sweep-Sorted ((destination, entry) ∷ entries) (before, s) =
      let first = Before-sweep destination entries before in
      let rest = sweep-Sorted entries s in
      elim (Bool-cases (skipped destination)) [
        | inl passed ↦ rw passed (first, rest)
        | inr free ↦ rw free (first, rest)
      ]

retire-IsOrdered :
    (destination : AddressHash) (t : AnnounceTable) → IsOrdered t → IsOrdered (retire destination t)
unfolding retire
retire-IsOrdered destination t o = elim (Option-cases (lookup destination t.map)) [
  | inl absent ↦ rw (retire, absent) o
  | inr (e, present) ↦
      rw (retire, present)
        (record { map = remove-Sorted destination t.map o.map; responses = o.responses })
]

retire_all-IsOrdered :
    (ks : List AddressHash) (t : AnnounceTable) → IsOrdered t → IsOrdered (retire_all ks t)
unfolding retire_all
retire_all-IsOrdered [] t o = o
retire_all-IsOrdered (k ∷ ks) t o = retire_all-IsOrdered ks (retire k t) (retire-IsOrdered k t o)

remove_all-Sorted : (ks : List AddressHash) (m : Entries) → Sorted m → Sorted (remove_all ks m)
unfolding remove_all
remove_all-Sorted [] m s = s
remove_all-Sorted (k ∷ ks) m s = remove_all-Sorted ks (remove k m) (remove-Sorted k m s)

-- add, add_response, new_packet and to_retransmit keep the announces and the responses of a
-- table in the order of their keys, each key once.
pub operations-IsOrdered :
    (t : AnnounceTable)
    → IsOrdered t
    → ((now drawn : ℕ) (announce : Packet) (destination received_from : AddressHash)
        → IsOrdered (add now drawn announce destination received_from t))
      × ((now hops : ℕ) (destination to_iface : AddressHash)
          → IsOrdered (add_response now destination to_iface hops t).0)
      × ((poll : Poll) (dest_hash transport_id : AddressHash)
          → IsOrdered (new_packet poll dest_hash transport_id t).0)
      × ((now : ℕ) (clock response_clock : AddressHash → Poll) (transport_id : AddressHash)
          → IsOrdered (to_retransmit now clock response_clock transport_id t).0)
operations-IsOrdered t o = (adding, responding, sending, sweeping)
  where
    adding :
        (now drawn : ℕ) (announce : Packet) (destination received_from : AddressHash)
        → IsOrdered (add now drawn announce destination received_from t)
    adding now drawn announce destination received_from =
        elim (Bool-cases (contains_key destination t.map)) [
          | inl present ↦ (unfold add in rw (add, present) o)
          | inr absent ↦
              (unfold add in
                rw (add, absent)
                  (record { map = put-Sorted destination _ t.map o.map; responses = o.responses }))
        ]

    responding :
        (now hops : ℕ) (destination to_iface : AddressHash)
        → IsOrdered (add_response now destination to_iface hops t).0
    responding now hops destination to_iface =
        unfold add_response do_add_response in
        elim (Option-cases (lookup destination t.map)) [
          | inr (e, present) ↦
              rw (add_response, present)
                (record {
                  map = remove-Sorted destination t.map o.map;
                  responses = put-Sorted destination _ t.responses o.responses;
                })
          | inl absent ↦ elim (Option-cases (AnnounceCache.get destination t.cache)) [
            | inl missing ↦ rw (add_response, absent, missing) o
            | inr (e, cached) ↦
                rw (add_response, absent, cached)
                  (record {
                    map = o.map;
                    responses = put-Sorted destination _ t.responses o.responses;
                  })
          ]
        ]

    sending :
        (poll : Poll) (dest_hash transport_id : AddressHash)
        → IsOrdered (new_packet poll dest_hash transport_id t).0
    sending poll dest_hash transport_id =
        unfold new_packet in
        elim (Option-cases (lookup dest_hash t.map)) [
          | inl absent ↦ rw (new_packet, absent) o
          | inr (entry, present) ↦
              let next : AnnounceEntry =
                (if ltb t.retry_limit entry.retries
                  then (entry, none)
                  else retransmit poll.now poll.later poll.drawn transport_id entry).0 in
              let t' : AnnounceTable = record t { map = put dest_hash next t.map } in
              let o' : IsOrdered t' = record {
                map = put-Sorted dest_hash next t.map o.map;
                responses = o.responses;
              } in
              elim (Bool-cases (ltb t.retry_limit next.retries)) [
                | inl used ↦ rw (new_packet, present, used) (retire-IsOrdered dest_hash t' o')
                | inr left ↦ rw (new_packet, present, left) o'
              ]
        ]

    sweeping :
        (now : ℕ) (clock response_clock : AddressHash → Poll) (transport_id : AddressHash)
        → IsOrdered (to_retransmit now clock response_clock transport_id t).0
    sweeping now clock response_clock transport_id =
        unfold to_retransmit in
        let skipped : AddressHash → Bool = λ d. contains_key d t.responses in
        let (map', _, completed) = sweep skipped t.retry_limit now clock transport_id t.map in
        let (responses', _, spent) =
          sweep nothing_skipped t.retry_limit now response_clock transport_id t.responses in
        let swept =
          retire_all-IsOrdered completed (record t { map = map'; responses = responses' })
            (record {
              map = sweep-Sorted skipped t.retry_limit now clock transport_id t.map o.map;
              responses =
                  sweep-Sorted nothing_skipped t.retry_limit now response_clock transport_id
                    t.responses o.responses;
            }) in
        record { map = swept.map; responses = remove_all-Sorted spent _ swept.responses }
