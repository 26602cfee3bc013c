-- ===== src/Transport/LinkTable/Lifecycle.antt =====
-- The life of a link in the table, over any sequence of the table's operations.
use styrene_rs.Base.{
  [], ℕ, ◌≡◌, ◌≢◌, inl, inr, true, false, Option, none, some, List, ◌∷◌, arith, Option-cases, All,
}
use styrene_rs.Base.Keys.{bytes_key, lookup, lookup-insert}
use styrene_rs.Base.Retain.{
  Unique, insert-Unique, remove_all-Unique, keys_where, unless, lookup-remove_where,
}
use styrene_rs.Hash.{Hash, AddressHash}
use styrene_rs.Packet.Codec.{Packet}
use styrene_rs.Base.Bytes.{bytes_eq_iff}
use styrene_rs.Transport.LinkTable.{
  LinkEntry, LinkTable, link_id, requested_entry, add, original_destination, handle_keepalive,
  handle_proof, is_stale, remove_stale, new,
}

-- A call of one of the operations that change the table.
pub data LinkEvent : Type 0 where
  added : ℕ → Packet → AddressHash → AddressHash → AddressHash → AddressHash → LinkEvent
  kept_alive : ℕ → Packet → LinkEvent
  proved : ℕ → Packet → LinkEvent
  swept : ℕ → LinkEvent

module _ (sha256 : List ℕ → Hash) where
  unfoldable pub step : LinkEvent → LinkTable → LinkTable
  step (added now p d f n i) t = add sha256 now p d f n i t
  step (kept_alive now p) t = (handle_keepalive now p t).0
  step (proved now p) t = (handle_proof now p t).0
  step (swept now) t = remove_stale now t

  unfoldable pub run : List LinkEvent → LinkTable → LinkTable
  run [] t = t
  run (ev ∷ evs) t = run evs (step ev t)

  pub step-Unique : (ev : LinkEvent) (t : LinkTable) → Unique t.entries → Unique (step ev t).entries
  unfolding step
  step-Unique (added now p d f n i) t u =
      unfold add in
      ground (
        arith,
        insert-Unique (link_id sha256 p) (requested_entry now t.proof_timeout p d f n i) t.entries
            u,
      )
  step-Unique (kept_alive now p) t u = elim (Option-cases (lookup p.destination t.entries)) [
    | inl absent ↦ unfold handle_keepalive in ground arith
    | inr (e, present) ↦
        unfold handle_keepalive in
        ground (arith, insert-Unique p.destination (record e { timestamp = now }) t.entries u)
  ]
  step-Unique (proved now p) t u = elim (Option-cases (lookup p.destination t.entries)) [
    | inl absent ↦ unfold handle_proof in ground arith
    | inr (e, present) ↦
        unfold handle_proof in
        ground (
          arith,
          insert-Unique p.destination
              (record e { remaining_hops = p.header.hops; validated = true; timestamp = now })
              t.entries u,
        )
  ]
  step-Unique (swept now) t u =
      unfold remove_stale in
      remove_all-Unique (keys_where (λ _. is_stale now t.idle_timeout) t.entries) t.entries u

  -- In a table with unique link identifiers, remove_stale removes exactly the entries that are
  -- stale: idle for at least the idle timeout after the proof, or still unproved at the deadline
  -- of the proof.
  pub lookup-remove_stale :
      (now : ℕ) (id : AddressHash) (t : LinkTable)
      → Unique t.entries
      → lookup id (remove_stale now t).entries
        ≡ unless (is_stale now t.idle_timeout) (lookup id t.entries)
  unfolding remove_stale
  lookup-remove_stale now id t u =
      lookup-remove_where (λ _. is_stale now t.idle_timeout) id t.entries u

  -- The event is no proof for the link.
  abbrev pub NoProofOf : AddressHash → LinkEvent → Type 0
  NoProofOf id (proved now p) = p.destination ≢ id
  NoProofOf id (added now p d f n i) = Unit
  NoProofOf id (kept_alive now p) = Unit
  NoProofOf id (swept now) = Unit

  abbrev pub IsUnproved : Option LinkEntry → Type 0
  IsUnproved none = Unit
  IsUnproved (some e) = e.validated ≡ false

  step-IsUnproved :
      (id : AddressHash) (ev : LinkEvent) (t : LinkTable)
      → Unique t.entries
      → NoProofOf id ev
      → IsUnproved (lookup id t.entries)
      → IsUnproved (lookup id (step ev t).entries)
  unfolding step
  step-IsUnproved id (added now p d f n i) t u h v =
      unfold add in
      ground (
        arith,
        Option-cases (lookup id t.entries),
        lookup-insert (link_id sha256 p) id (requested_entry now t.proof_timeout p d f n i)
            t.entries,
        bytes_eq_iff (link_id sha256 p) id,
      )
  step-IsUnproved id (kept_alive now p) t u h v =
      elim (Option-cases (lookup p.destination t.entries)) [
        | inl absent ↦ unfold handle_keepalive in ground arith
        | inr (e, present) ↦
            unfold handle_keepalive in
            ground (
              arith,
              lookup-insert p.destination id (record e { timestamp = now }) t.entries,
              bytes_eq_iff p.destination id,
            )
      ]
  step-IsUnproved id (proved now p) t u h v = elim (Option-cases (lookup p.destination t.entries)) [
    | inl absent ↦ unfold handle_proof in ground arith
    | inr (e, present) ↦
        unfold handle_proof in
        ground (
          arith,
          lookup-insert p.destination id
              (record e { remaining_hops = p.header.hops; validated = true; timestamp = now })
              t.entries,
          bytes_eq_iff p.destination id,
        )
  ]
  step-IsUnproved id (swept now) t u h v =
      ground (arith, lookup-remove_stale now id t u, Option-cases (lookup id t.entries))

  run-IsUnproved :
      (id : AddressHash) (evs : List LinkEvent) (t : LinkTable)
      → Unique t.entries
      → All (NoProofOf id) evs
      → IsUnproved (lookup id t.entries)
      → IsUnproved (lookup id (run evs t).entries)
  unfolding run
  run-IsUnproved id [] t u h v = v
  run-IsUnproved id (ev ∷ evs) t u h v =
      run-IsUnproved id evs (step ev t) (step-Unique ev t u) h.1 (step-IsUnproved id ev t u h.0 v)

  -- After any events on a new table none of which is a proof addressed to the link, the link has
  -- no destination to report.
  pub original_destination_needs_proof :
      (id : AddressHash) (evs : List LinkEvent) (proof_timeout idle_timeout : ℕ)
      → All (NoProofOf id) evs
      → original_destination id (run evs (new proof_timeout idle_timeout)) ≡ none
  unfolding original_destination
  original_destination_needs_proof id evs proof_timeout idle_timeout h =
      let end = run evs (new proof_timeout idle_timeout) in
      ground (
        arith,
        run-IsUnproved id evs (new proof_timeout idle_timeout) tt h (unfold lookup in tt),
        Option-cases (lookup id end.entries),
      )

  -- The route that a link request set, and a proof once given.
  pub record KeepsRoute (before after : LinkEntry) : Type 0 where
    pub same_next_hop : after.next_hop ≡ before.next_hop
    pub same_next_hop_iface : after.next_hop_iface ≡ before.next_hop_iface
    pub same_received_from : after.received_from ≡ before.received_from
    pub same_destination : after.original_destination ≡ before.original_destination
    pub same_deadline : after.proof_timeout ≡ before.proof_timeout
    pub stays_validated : before.validated ≡ true → after.validated ≡ true

  -- Only a sweep may lose the entry, and only a stale one.
  abbrev pub Outcome : LinkEvent → ℕ → LinkEntry → Option LinkEntry → Type 0
  Outcome ev idle_timeout before (some after) = KeepsRoute before after
  Outcome (swept now) idle_timeout before none = is_stale now idle_timeout before ≡ true
  Outcome (added now p d f n i) idle_timeout before none = ⊥
  Outcome (kept_alive now p) idle_timeout before none = ⊥
  Outcome (proved now p) idle_timeout before none = ⊥

  -- In a table with unique link identifiers, every event keeps the route, the deadline and the
  -- proof of a link in the table; only a sweep may remove it, and then it was stale.
  pub step-Outcome :
      (id : AddressHash) (ev : LinkEvent) (t : LinkTable) (e : LinkEntry)
      → Unique t.entries
      → lookup id t.entries ≡ some e
      → Outcome ev t.idle_timeout e (lookup id (step ev t).entries)
  unfolding step
  step-Outcome id (added now p d f n i) t e u h =
      unfold add in
      ground (
        arith,
        Option-cases (lookup (link_id sha256 p) t.entries),
        lookup-insert (link_id sha256 p) id (requested_entry now t.proof_timeout p d f n i)
            t.entries,
        bytes_eq_iff (link_id sha256 p) id,
      )
  step-Outcome id (kept_alive now p) t e u h =
      elim (Option-cases (lookup p.destination t.entries)) [
        | inl absent ↦ unfold handle_keepalive in ground arith
        | inr (x, present) ↦
            unfold handle_keepalive in
            ground (
              arith,
              lookup-insert p.destination id (record x { timestamp = now }) t.entries,
              bytes_eq_iff p.destination id,
            )
      ]
  step-Outcome id (proved now p) t e u h = elim (Option-cases (lookup p.destination t.entries)) [
    | inl absent ↦ unfold handle_proof in ground arith
    | inr (x, present) ↦
        unfold handle_proof in
        ground (
          arith,
          lookup-insert p.destination id
              (record x { remaining_hops = p.header.hops; validated = true; timestamp = now })
              t.entries,
          bytes_eq_iff p.destination id,
        )
  ]
  step-Outcome id (swept now) t e u h = ground (arith, lookup-remove_stale now id t u)
