-- ===== src/Transport/Resource/Manager/Parts.antt =====
-- What a node makes of a part: the transfer it belongs to is found and settled.
use styrene_rs.Base.{[], ℕ, Option, List, ◌∷◌, ◌++◌, ltb, if◌then◌else◌, Result, ok, err}
use styrene_rs.Base.Keys.{bytes_key, Map, remove}
use styrene_rs.Error.{RnsError}
use styrene_rs.Hash.{Hash}
use styrene_rs.Buffer.StaticBuffer.{as_slice}
use styrene_rs.Packet.Header.{payload}
use styrene_rs.Packet.Context.{resource_request}
use styrene_rs.Packet.Codec.{Packet}
use styrene_rs.Transport.Link.Cipher.{LinkCipher}
use styrene_rs.Transport.Resource.Messages.{ResourceRequest, encode_request}
use styrene_rs.Transport.Resource.Utils.{build_link_packet}
use styrene_rs.Transport.Resource.Receiver.{
  ResourceReceiver, PartOutcome, no_match, incomplete, part_failed, completed, handle_part,
  build_request, mark_request, progress,
}
use styrene_rs.Transport.Resource.Receiver.Assembly.{ResourcePayload}
use styrene_rs.Transport.Resource.Manager.{
  ResourceManager, ResourceEvent, progressed, inbound_complete,
}

-- A transfer that a part belongs to, and what became of it.
pub data PartFound : Type 0 where
  found_none : PartFound
  found_failed : Hash → PartFound
  found_complete : Hash → Packet → ResourcePayload → PartFound
  found_incomplete : ResourceRequest → List ResourceEvent → PartFound

abbrev pub request_packet : LinkCipher → List ℕ → ResourceRequest → Result RnsError Packet
request_packet link iv request =
    build_link_packet link iv payload resource_request (encode_request request)

abbrev pub responses_of : Result RnsError Packet → List Packet
responses_of (ok packet) = packet ∷ []
responses_of (err _) = []

-- A part that was not there before is progress.
unfoldable pub progress_events : Hash → ResourceReceiver → ResourceReceiver → List ResourceEvent
unfolding progress
progress_events hash before after =
    if ltb before.received after.received
    then record { hash = hash; link_id = after.link_id; kind = progressed (progress after) } ∷ []
    else []

-- What one transfer made of a part; where the part is not its own, what the rest made of it.
unfoldable pub with_outcome :
    ℕ
    → Hash
    → ResourceReceiver
    → Map Hash ResourceReceiver
    → Map Hash ResourceReceiver × PartFound
    → ResourceReceiver × PartOutcome
    → Map Hash ResourceReceiver × PartFound
unfolding build_request mark_request progress_events
with_outcome now hash r rest (rest', found) (r', no_match) = ((hash, r') ∷ rest', found)
with_outcome now hash r rest others (r', part_failed) = ((hash, r') ∷ rest, found_failed hash)
with_outcome now hash r rest others (r', completed packet content) =
    ((hash, r') ∷ rest, found_complete hash packet content)
with_outcome now hash r rest others (r', incomplete) = (
  (hash, mark_request now r') ∷ rest,
  found_incomplete (build_request r') (progress_events hash r r'),
)

module _ (link : LinkCipher) where
  -- What became of the part, for the manager and the answer.
  unfoldable pub settle :
      List ℕ
      → ResourceManager
      → Map Hash ResourceReceiver
      → PartFound
      → ResourceManager × List Packet
  unfolding remove build_link_packet encode_request
  settle iv m incoming found_none = (record m { incoming = incoming }, [])
  settle iv m incoming (found_failed hash) = (record m { incoming = remove hash incoming }, [])
  settle iv m incoming (found_complete hash proof_packet content) = (
    record m {
      incoming = remove hash incoming;
      events =
          m.events
          ++ (record { hash = hash; link_id = link.id; kind = inbound_complete content } ∷ []);
    },
    proof_packet ∷ [],
  )
  settle iv m incoming (found_incomplete request events) = (
    record m { incoming = incoming; events = m.events ++ events },
    responses_of (request_packet link iv request),
  )

module _ (sha256 : List ℕ → Hash) (bunzip : List ℕ → Option (List ℕ)) (link : LinkCipher) where
  -- The loop over the incoming transfers, up to the first that the part belongs to.
  unfoldable pub find_part :
      ℕ → List ℕ → Map Hash ResourceReceiver → Map Hash ResourceReceiver × PartFound
  unfolding handle_part with_outcome
  find_part now part [] = ([], found_none)
  find_part now part ((hash, r) ∷ rest) =
      with_outcome now hash r rest (find_part now part rest)
        (handle_part sha256 bunzip link now part r)

  unfoldable pub handle_resource_part_into :
      List ℕ → ℕ → Packet → ResourceManager → ResourceManager × List Packet
  unfolding find_part settle
  handle_resource_part_into iv now packet m =
      let (incoming, found) = find_part now (as_slice packet.body) m.incoming in
      settle link iv m incoming found
