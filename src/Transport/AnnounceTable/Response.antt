-- ===== src/Transport/AnnounceTable/Response.antt =====
-- A path response of crates/libs/styrene-rns/src/transport/core_transport/announce_table.rs, from its request to
-- the sweep that sends it.
use styrene_rs.Base.{
  ℕ, ◌+◌, ◌≤◌, ◌<◌, ◌≡◌, refl, sym, ◌∙◌, inl, inr, Bool, true, false, ◌&&◌, none, List, [], ◌∷◌,
  arith, ltb, Bool-cases, All,
}
use styrene_rs.Base.Keys.{bytes_key, lookup, contains_key}
use styrene_rs.Hash.{AddressHash}
use styrene_rs.Transport.AnnounceEntry.Retransmission.{Poll}
use styrene_rs.Transport.AnnounceTable.{
  AnnounceTable, path_response_grace, add_response, to_retransmit,
}
use styrene_rs.Transport.AnnounceTable.Sweep.{to_retransmit_lem, retry_limit-to_retransmit}
use styrene_rs.Transport.AnnounceTable.Waiting.{Waits, add_response-Waits, retry_limit-add_response}
use styrene_rs.Transport.AnnounceTable.Ordering.{IsOrdered, operations-IsOrdered}

-- What a sweep is given: its time, what it reads of the clock for each entry, and the address of this node.
pub record Sweeping : Type 0 where
  pub now : ℕ
  pub clock : AddressHash → Poll
  pub response_clock : AddressHash → Poll
  pub transport_id : AddressHash

abbrev swept_table : Sweeping → AnnounceTable → AnnounceTable
swept_table w t = (to_retransmit w.now w.clock w.response_clock w.transport_id t).0

-- The table after a sequence of sweeps.
unfoldable pub sweeps : List Sweeping → AnnounceTable → AnnounceTable
sweeps [] t = t
sweeps (w ∷ ws) t = sweeps ws (swept_table w t)

-- The clock does not run back between the start of the sweep and its response for the destination.
abbrev pub RunsForward : AddressHash → Sweeping → Type 0
RunsForward destination w = w.now ≤ (w.response_clock destination).now

-- Every sweep is before the end.
abbrev pub all_before : ℕ → List Sweeping → Bool
all_before end [] = true
all_before end (w ∷ ws) = ltb w.now end && all_before end ws

-- Neither a response nor an announce.
record IsGone (destination : AddressHash) (t : AnnounceTable) : Type 0 where
  ordered : IsOrdered t
  off_responses : lookup destination t.responses ≡ none
  off_map : lookup destination t.map ≡ none

swept_table-IsOrdered :
    (w : Sweeping) (t : AnnounceTable) → IsOrdered t → IsOrdered (swept_table w t)
swept_table-IsOrdered w t o =
    (operations-IsOrdered t o).3 w.now w.clock w.response_clock w.transport_id

swept_table-IsGone :
    (destination : AddressHash) (w : Sweeping) (t : AnnounceTable)
    → IsGone destination t
    → IsGone destination (swept_table w t)
swept_table-IsGone destination w t g =
    let (in_map, in_responses, _) =
      to_retransmit_lem w.now w.clock w.response_clock w.transport_id destination t g.ordered.map
        g.ordered.responses in
    record {
      ordered = swept_table-IsOrdered w t g.ordered;
      off_responses = in_responses ∙ rw g.off_responses refl;
      off_map = in_map ∙ rw g.off_map (ground arith);
    }

swept_table_early :
    (destination : AddressHash) (end : ℕ) (w : Sweeping) (t : AnnounceTable)
    → ltb w.now end ≡ true
    → Waits destination end t
    → Waits destination end (swept_table w t)
swept_table_early destination end w t early s =
    let (in_map, in_responses, _) =
      to_retransmit_lem w.now w.clock w.response_clock w.transport_id destination t s.ordered.map
        s.ordered.responses in
    let limit = retry_limit-to_retransmit w.now w.clock w.response_clock w.transport_id t in
    record {
      ordered = swept_table-IsOrdered w t s.ordered;
      response = s.response;
      stored = in_responses ∙ rw s.stored (ground (arith, early, s.until, s.last_retry));
      last_retry = s.last_retry ∙ sym limit;
      until = s.until;
      off_map = in_map ∙ rw s.off_map (ground arith);
    }

swept_table_late :
    (destination : AddressHash) (end : ℕ) (w : Sweeping) (t : AnnounceTable)
    → ltb w.now end ≡ false
    → RunsForward destination w
    → t.retry_limit < 255
    → Waits destination end t
    → IsGone destination (swept_table w t)
swept_table_late destination end w t late forward room s =
    let (in_map, in_responses, _) =
      to_retransmit_lem w.now w.clock w.response_clock w.transport_id destination t s.ordered.map
        s.ordered.responses in
    record {
      ordered = swept_table-IsOrdered w t s.ordered;
      off_responses =
          in_responses ∙ rw s.stored (ground (arith, late, forward, room, s.until, s.last_retry));
      off_map = in_map ∙ rw s.off_map (ground arith);
    }

sweeps-IsGone :
    (destination : AddressHash) (ws : List Sweeping) (t : AnnounceTable)
    → IsGone destination t
    → IsGone destination (sweeps ws t)
unfolding sweeps
sweeps-IsGone destination [] t g = g
sweeps-IsGone destination (w ∷ ws) t g =
    sweeps-IsGone destination ws (swept_table w t) (swept_table-IsGone destination w t g)

absent_key :
    (destination : AddressHash) (t : AnnounceTable)
    → IsGone destination t
    → (contains_key destination t.responses ≡ false) × (lookup destination t.map ≡ none)
absent_key destination t g =
    (unfold contains_key in rw (contains_key, g.off_responses) refl, g.off_map)

sweeps-Waits :
    (destination : AddressHash) (end : ℕ) (ws : List Sweeping) (t : AnnounceTable)
    → All (RunsForward destination) ws
    → t.retry_limit < 255
    → Waits destination end t
    → (contains_key destination (sweeps ws t).responses ≡ all_before end ws)
      × (lookup destination (sweeps ws t).map ≡ none)
unfolding sweeps
sweeps-Waits destination end [] t forward room s =
    (unfold contains_key in rw (contains_key, s.stored) refl, s.off_map)
sweeps-Waits destination end (w ∷ ws) t forward room s = elim (Bool-cases (ltb w.now end)) [
  | inl early ↦
      let limit = retry_limit-to_retransmit w.now w.clock w.response_clock w.transport_id t in
      rw early (
        sweeps-Waits destination end ws (swept_table w t) forward.1 (rw limit room)
          (swept_table_early destination end w t early s))
  | inr late ↦ rw late (
      absent_key destination (sweeps ws (swept_table w t)) (
        sweeps-IsGone destination ws (swept_table w t)
          (swept_table_late destination end w t late forward.0 room s)))
]

-- In a table in order with a retry limit below 255, let add_response accept a response, and let
-- any sequence of sweeps follow, in each of which the clock read for the response is not before
-- the time of the sweep. Then the table still holds the response for the destination exactly if
-- every one of the sweeps was before the end of its grace, and holds no announce for it.
pub add_response-to_retransmit :
    (asked hops : ℕ) (destination to_iface : AddressHash) (ws : List Sweeping) (t : AnnounceTable)
    → IsOrdered t
    → t.retry_limit < 255
    → All (RunsForward destination) ws
    → (add_response asked destination to_iface hops t).1 ≡ true
    → (let t' = sweeps ws (add_response asked destination to_iface hops t).0 in
        (contains_key destination t'.responses ≡ all_before (asked + path_response_grace) ws)
        × (lookup destination t'.map ≡ none))
add_response-to_retransmit asked hops destination to_iface ws t o room forward accepted =
    sweeps-Waits destination (asked + path_response_grace) ws
      (add_response asked destination to_iface hops t).0 forward
      (rw (retry_limit-add_response asked hops destination to_iface t) room)
      (add_response-Waits asked hops destination to_iface t o accepted)
