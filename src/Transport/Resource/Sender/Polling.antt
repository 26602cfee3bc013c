-- ===== src/Transport/Resource/Sender/Polling.antt =====
-- The timer of a sender, the start of its wait, and the proof that ends it.
use styrene_rs.Base.{ℕ, ◌-◌, Bool, true, false, ltb, ◌==◌, if◌then◌else◌}
use styrene_rs.Base.Bytes.{bytes_eq}
use styrene_rs.Packet.Codec.{Packet}
use styrene_rs.Transport.Resource.{advertised, transferring, awaiting_proof, complete}
use styrene_rs.Transport.Resource.Messages.{ResourceProof}
use styrene_rs.Transport.Resource.Sender.{ResourceSender}

pub data OutboundResourcePoll : Type 0 where
  nothing : OutboundResourcePoll
  send : Packet → OutboundResourcePoll
  poll_failed : OutboundResourcePoll

unfoldable pub mark_advertised : ℕ → ℕ → ResourceSender → ResourceSender
mark_advertised now retry_limit s = record s {
  last_activity = now;
  adv_sent = now;
  last_part_sent = now;
  max_retries = retry_limit;
  retries_left = retry_limit;
  status = advertised;
}

-- `duration_since` of an earlier instant is 0.
unfoldable pub poll : ℕ → ℕ → ResourceSender → ResourceSender × OutboundResourcePoll
poll now retry_interval s = elim s.status [
  | advertised ↦
      if ltb (now - s.adv_sent) retry_interval
      then (s, nothing)
      else if s.retries_left == 0
      then (s, poll_failed)
      else (
        record s { retries_left = s.retries_left - 1; last_activity = now; adv_sent = now },
        send s.advertisement_packet,
      )
  | transferring ↦
      if ltb (now - s.last_activity) retry_interval
      then (s, nothing)
      else if s.retries_left == 0
      then (s, poll_failed)
      else (record s { retries_left = s.retries_left - 1; last_activity = now }, nothing)
  | awaiting_proof ↦
      if ltb (now - s.last_part_sent) retry_interval
      then (s, nothing)
      else if s.retries_left == 0
      then (s, poll_failed)
      else (record s { retries_left = s.retries_left - 1; last_part_sent = now }, nothing)
  | _ ↦ (s, nothing)
]

unfoldable pub handle_proof : ResourceProof → ResourceSender → ResourceSender × Bool
handle_proof p s =
    if bytes_eq p.resource_hash s.resource_hash
    then (if bytes_eq p.proof s.expected_proof
        then (record s { status = complete }, true)
        else (s, false))
    else (s, false)
