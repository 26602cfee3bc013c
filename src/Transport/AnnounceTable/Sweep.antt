-- ===== src/Transport/AnnounceTable/Sweep.antt =====
-- A sweep over the announces of
-- crates/libs/styrene-rns/src/transport/core_transport/announce_table.rs, destination by destination.
use styrene_rs.Base.{
  ℕ, ◌≡◌, refl, sym, ap, ◌∙◌, inl, inr, Bool, not, ◌&&◌, none, some, List, [], ◌∷◌, ◌++◌, arith,
  ltb, if◌then◌else◌, Bool-cases, Option-cases,
}
use styrene_rs.Base.Keys.{bytes_key, ◌==◌, lookup, remove, contains_key, lookup-remove}
use styrene_rs.Base.Retain.{Unique, unless, keys_where, remove_all, lookup-remove_where}
use styrene_rs.Base.Ordered.{Sorted, Sorted-Unique}
use styrene_rs.Hash.{AddressHash}
use styrene_rs.Transport.AnnounceEntry.{AnnounceEntry, retransmit}
use styrene_rs.Transport.AnnounceEntry.Retransmission.{Poll}
use styrene_rs.Transport.AnnounceCache.{Entries}
use styrene_rs.Transport.AnnounceTable.{
  AnnounceTable, retire, retire_all, try_entry, sweep, to_retransmit, nothing_skipped,
}
use styrene_rs.Transport.AnnounceTable.Due.{tried, announcements, try_entry-tried, messages-sweep}

-- What becomes of one entry.
abbrev after_try :
    ℕ → ℕ → (AddressHash → Poll) → AddressHash → AddressHash → AnnounceEntry → AnnounceEntry
after_try limit now clock transport_id destination entry =
    (try_entry limit now (clock destination) transport_id entry).0

-- Whether its retries are used up, as the sweep decides after the try.
abbrev spent : ℕ → AnnounceEntry → Bool
spent limit entry = ltb limit entry.retries

try_spent :
    (limit now : ℕ) (poll : Poll) (transport_id : AddressHash) (entry : AnnounceEntry)
    → (try_entry limit now poll transport_id entry).2
      ≡ spent limit (try_entry limit now poll transport_id entry).0
unfolding try_entry retransmit
try_spent limit now poll transport_id entry = ground arith

module _ (skipped : AddressHash → Bool) (limit now : ℕ) (clock : AddressHash → Poll)
    (transport_id : AddressHash) where
  lookup-sweep :
      (d : AddressHash) (entries : Entries)
      → lookup d (sweep skipped limit now clock transport_id entries).0 ≡ elim (lookup d entries) [
        | none ↦ none
        | some entry ↦
            some (if skipped d then entry else after_try limit now clock transport_id d entry)
      ]
  unfolding lookup sweep
  lookup-sweep d [] = refl
  lookup-sweep d ((destination, entry) ∷ entries) = elim (Bool-cases (destination == d)) [
    | inl here ↦
        let same = (bytes_key.same_iff destination d).0 here in
        elim (Bool-cases (skipped destination)) [
          | inl passed ↦ rw (passed, here, ap skipped (sym same) ∙ passed) refl
          | inr free ↦
              rw (free, here, ap skipped (sym same) ∙ free)
                (ap (λ x. some (after_try limit now clock transport_id x entry)) same)
        ]
    | inr other ↦ elim (Bool-cases (skipped destination)) [
      | inl passed ↦ rw (passed, other) (lookup-sweep d entries)
      | inr free ↦ rw (free, other) (lookup-sweep d entries)
    ]
  ]

  completed-sweep :
      (entries : Entries)
      → (sweep skipped limit now clock transport_id entries).2
        ≡ keys_where
            (λ d entry. not (skipped d) && spent limit entry)
            (sweep skipped limit now clock transport_id entries).0
  unfolding keys_where sweep
  completed-sweep [] = refl
  completed-sweep ((destination, entry) ∷ entries) =
      let rest = completed-sweep entries in
      let used = try_spent limit now (clock destination) transport_id entry in
      elim (Bool-cases (skipped destination)) [
        | inl passed ↦ rw (passed, rest, passed) refl
        | inr free ↦ rw (free, used, rest, free) refl
      ]

  sweep-Unique :
      (entries : Entries)
      → Unique entries
      → Unique (sweep skipped limit now clock transport_id entries).0
  unfolding sweep
  sweep-Unique [] u = tt
  sweep-Unique ((destination, entry) ∷ entries) (once, u) =
      let absent = lookup-sweep destination entries in
      let rest = sweep-Unique entries u in
      elim (Bool-cases (skipped destination)) [
        | inl passed ↦ rw passed (absent ∙ rw once refl, rest)
        | inr free ↦ rw free (absent ∙ rw once refl, rest)
      ]

  -- The entries that are left once the spent ones are removed.
  swept :
      (d : AddressHash) (entries : Entries)
      → Sorted entries
      → (let (entries', _, completed) = sweep skipped limit now clock transport_id entries in
          lookup d (remove_all completed entries')
          ≡ (if skipped d then lookup d entries else tried limit now (clock d) (lookup d entries)))
  swept d entries sorted =
      let entries' = (sweep skipped limit now clock transport_id entries).0 in
      let p : AddressHash → AnnounceEntry → Bool =
        λ d entry. not (skipped d) && spent limit entry in
      ap (λ ks. lookup d (remove_all ks entries')) (completed-sweep entries)
      ∙ lookup-remove_where p d entries' (sweep-Unique entries (Sorted-Unique entries sorted))
      ∙ ap (unless (p d)) (lookup-sweep d entries)
      ∙ elim (Option-cases (lookup d entries)) [
        | inl absent ↦ elim (Bool-cases (skipped d)) [
          | inl passed ↦ rw (absent, passed) refl
          | inr free ↦ rw (absent, free) refl
        ]
        | inr (e, present) ↦ elim (Bool-cases (skipped d)) [
          | inl passed ↦ rw (present, passed) refl
          | inr free ↦ rw (present, free) (try_entry-tried limit now (clock d) transport_id e)
        ]
      ]

lookup-retire :
    (d destination : AddressHash) (t : AnnounceTable)
    → (lookup d (retire destination t).map ≡ (if destination == d then none else lookup d t.map))
      × ((retire destination t).responses ≡ t.responses)
      × ((retire destination t).retry_limit ≡ t.retry_limit)
unfolding retire
lookup-retire d destination t = elim (Option-cases (lookup destination t.map)) [
  | inl absent ↦
      rw (retire, absent)
        (
          elim (Bool-cases (destination == d)) [
            | inl here ↦ rw here (
                ap (λ k. lookup k t.map) (sym ((bytes_key.same_iff destination d).0 here)) ∙ absent)
            | inr other ↦ rw other refl
          ],
          refl,
          refl,
        )
  | inr (e, present) ↦ rw (retire, present) (lookup-remove destination d t.map, refl, refl)
]

-- Retiring the spent keys takes them from the map as a removal would.
lookup-retire_all :
    (d : AddressHash) (ks : List AddressHash) (t : AnnounceTable) (m : Entries)
    → lookup d t.map ≡ lookup d m
    → (lookup d (retire_all ks t).map ≡ lookup d (remove_all ks m))
      × ((retire_all ks t).responses ≡ t.responses)
      × ((retire_all ks t).retry_limit ≡ t.retry_limit)
unfolding retire_all remove_all
lookup-retire_all d [] t m same = (same, refl, refl)
lookup-retire_all d (k ∷ ks) t m same =
    let (found, kept, limit) = lookup-retire d k t in
    let (rest, later, last) =
      lookup-retire_all d ks (retire k t) (remove k m)
        (found ∙ rw same (sym (lookup-remove k d m))) in
    (rest, later ∙ kept, last ∙ limit)

-- A sweep of to_retransmit over a table whose maps are in order. For each destination it leaves
-- an announce that has a pending response as it is. Any other announce and any response that is
-- due, with a retry left and its time reached at the sweep and when it is sent, counts one more
-- retry and waits for the retry grace and the random window; the others stay as they are; and
-- what then has more retries than the limit is removed. It sends one message for each announce
-- that is due and has no pending response and then one for each response that is due.
pub to_retransmit_lem :
    (now : ℕ) (clock response_clock : AddressHash → Poll) (transport_id d : AddressHash)
    (t : AnnounceTable)
    → Sorted t.map
    → Sorted t.responses
    → (let (t', messages) = to_retransmit now clock response_clock transport_id t in
        let pending : AddressHash → Bool = λ d. contains_key d t.responses in
        (lookup d t'.map ≡ (
          if contains_key d t.responses
          then lookup d t.map
          else tried t.retry_limit now (clock d) (lookup d t.map)))
        × (lookup d t'.responses
            ≡ tried t.retry_limit now (response_clock d) (lookup d t.responses))
        × (messages
            ≡ announcements pending t.retry_limit now clock transport_id t.map
              ++ announcements nothing_skipped t.retry_limit now response_clock transport_id
                  t.responses))
unfolding to_retransmit
to_retransmit_lem now clock response_clock transport_id d t sorted sorted_responses =
    let pending : AddressHash → Bool = λ d. contains_key d t.responses in
    let (map', _, completed) = sweep pending t.retry_limit now clock transport_id t.map in
    let (responses', _, completed_responses) =
      sweep nothing_skipped t.retry_limit now response_clock transport_id t.responses in
    let (found, kept, _) =
      lookup-retire_all d completed (record t { map = map'; responses = responses' }) map' refl in
    (
      found ∙ swept pending t.retry_limit now clock transport_id d t.map sorted,
      ap (λ r. lookup d (remove_all completed_responses r)) kept
          ∙ swept nothing_skipped t.retry_limit now response_clock transport_id d t.responses
              sorted_responses,
      rw
          (
            messages-sweep pending t.retry_limit now clock transport_id t.map,
            messages-sweep nothing_skipped t.retry_limit now response_clock transport_id
                t.responses,
          )
          refl,
    )

pub retry_limit-to_retransmit :
    (now : ℕ) (clock response_clock : AddressHash → Poll) (transport_id : AddressHash)
    (t : AnnounceTable)
    → (to_retransmit now clock response_clock transport_id t).0.retry_limit ≡ t.retry_limit
unfolding to_retransmit
retry_limit-to_retransmit now clock response_clock transport_id t =
    let pending : AddressHash → Bool = λ d. contains_key d t.responses in
    let (map', _, completed) = sweep pending t.retry_limit now clock transport_id t.map in
    let responses' =
      (sweep nothing_skipped t.retry_limit now response_clock transport_id t.responses).0 in
    (lookup-retire_all [] completed (record t { map = map'; responses = responses' }) map' refl).2
