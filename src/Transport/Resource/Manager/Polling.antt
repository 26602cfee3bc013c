-- ===== src/Transport/Resource/Manager/Polling.antt =====
-- The timer of the transfers: `retry_requests` and `poll_outgoing`.
use styrene_rs.Base.{[], ℕ, List, ◌∷◌, leb, if◌then◌else◌}
use styrene_rs.Base.Keys.{bytes_key, Map}
use styrene_rs.Base.Retain.{remove_all}
use styrene_rs.Hash.{Hash, AddressHash}
use styrene_rs.Packet.Codec.{Packet}
use styrene_rs.Transport.Resource.Messages.{ResourceRequest}
use styrene_rs.Transport.Resource.Sender.{ResourceSender}
use styrene_rs.Transport.Resource.Sender.Polling.{poll, nothing, send, poll_failed}
use styrene_rs.Transport.Resource.Receiver.{
  ResourceReceiver, build_request, mark_request, retry_due,
}
use styrene_rs.Transport.Resource.Manager.{ResourceManager}

-- A request for each transfer that is due, and the transfers that used up their retries.
unfoldable pub due_requests :
    ℕ
    → ℕ
    → ℕ
    → Map Hash ResourceReceiver
    → Map Hash ResourceReceiver × List (AddressHash × ResourceRequest) × List Hash
unfolding retry_due build_request mark_request
due_requests now interval limit [] = ([], [], [])
due_requests now interval limit ((hash, r) ∷ rest) =
    let (kept, requests, failed) = due_requests now interval limit rest in
    let due = retry_due now interval limit r in
    let r' = if due then mark_request now r else r in
    (
      (hash, r') ∷ kept,
      if due then (r.link_id, build_request r) ∷ requests else requests,
      if leb limit r'.retry_count then hash ∷ failed else failed,
    )

unfoldable pub retry_requests :
    ℕ → ResourceManager → ResourceManager × List (AddressHash × ResourceRequest)
unfolding due_requests remove_all
retry_requests now m =
    let (kept, requests, failed) = due_requests now m.retry_interval m.retry_limit m.incoming in
    (record m { incoming = remove_all failed kept }, requests)

unfoldable pub poll_all :
    ℕ
    → ℕ
    → Map Hash ResourceSender
    → Map Hash ResourceSender × List (AddressHash × Packet) × List Hash
unfolding poll
poll_all now interval [] = ([], [], [])
poll_all now interval ((hash, s) ∷ rest) =
    let (kept, packets, failed) = poll_all now interval rest in
    let (s', outcome) = poll now interval s in
    elim outcome [
      | send packet ↦ ((hash, s') ∷ kept, (s'.link_id, packet) ∷ packets, failed)
      | poll_failed ↦ ((hash, s') ∷ kept, packets, hash ∷ failed)
      | nothing ↦ ((hash, s') ∷ kept, packets, failed)
    ]

unfoldable pub poll_outgoing : ℕ → ResourceManager → ResourceManager × List (AddressHash × Packet)
unfolding poll_all remove_all
poll_outgoing now m =
    let (kept, packets, failed) = poll_all now m.retry_interval m.outgoing in
    (record m { outgoing = remove_all failed kept }, packets)
