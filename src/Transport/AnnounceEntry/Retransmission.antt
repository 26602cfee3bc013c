-- ===== src/Transport/AnnounceEntry/Retransmission.antt =====
-- How often and what an announce of
-- crates/libs/styrene-rns/src/transport/core_transport/announce_table.rs is sent again.
use styrene_rs.Base.{ℕ, suc, ◌+◌, ◌≤◌, ◌<◌, min, ◌≡◌, Option, none, some, List, [], ◌∷◌, arith}
use styrene_rs.Hash.{AddressHash}
use styrene_rs.Transport.AnnounceEntry.{
  AnnounceEntry, TxMessage, pathfinder_retry_grace, retransmit,
}

-- One poll of the entry: the two clock readings and the drawn number.
pub record Poll : Type 0 where
  pub now : ℕ
  pub later : ℕ
  pub drawn : ℕ

abbrev pub counted : Option TxMessage → ℕ → ℕ
counted none n = n
counted (some _) n = suc n

-- The number of messages over a sequence of polls, and the entry after them.
unfoldable pub poll_all : AddressHash → List Poll → AnnounceEntry → AnnounceEntry × ℕ
poll_all transport_id [] entry = (entry, 0)
poll_all transport_id (p ∷ ps) entry =
    let (next, message) = retransmit p.now p.later p.drawn transport_id entry in
    let (last, count) = poll_all transport_id ps next in (last, counted message count)

-- Over any sequence of polls, an entry whose retries fit a byte counts in its retries exactly
-- the messages that were sent, up to 255.
pub retries-poll_all :
    (transport_id : AddressHash) (ps : List Poll) (entry : AnnounceEntry)
    → entry.retries ≤ 255
    → let (last, count) = poll_all transport_id ps entry in
      last.retries ≡ min (entry.retries + count) 255
unfolding poll_all retransmit
retries-poll_all transport_id [] entry small = omega arith
retries-poll_all transport_id (p ∷ ps) entry small =
    let next = (retransmit p.now p.later p.drawn transport_id entry).0 in
    ground (arith, retries-poll_all transport_id ps next)

-- After a poll at which the entry was due, a poll before the retry grace has passed since then
-- sends nothing and leaves the entry as it is.
pub retransmit-quiet :
    (transport_id : AddressHash) (p q : Poll) (entry : AnnounceEntry)
    → entry.timeout ≤ p.now
    → q.now < p.later + pathfinder_retry_grace
    → let sent = (retransmit p.now p.later p.drawn transport_id entry).0 in
      retransmit q.now q.later q.drawn transport_id sent ≡ (sent, none)
unfolding retransmit
retransmit-quiet transport_id p q entry due early = ground arith
