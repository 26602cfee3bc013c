-- ===== src/Transport/Resource/Manager/Handlers.antt =====
-- The handlers of the packets of a transfer, and `start_send`.
use styrene_rs.Base.{
  [], ℕ, false, Option, none, some, List, ◌∷◌, ◌++◌, if◌then◌else◌, Result, ok, err, ◌>>=◌,
}
use styrene_rs.Base.Keys.{bytes_key, lookup, insert, remove}
use styrene_rs.Error.{RnsError}
use styrene_rs.Hash.{Hash}
use styrene_rs.Buffer.StaticBuffer.{as_slice}
use styrene_rs.Packet.Context.{
  resource, resource_advrtisement, resource_request, resource_hash_update, resource_proof,
  resource_initiator_cancel, resource_receiver_cancel,
}
use styrene_rs.Packet.Codec.{Packet}
use styrene_rs.Transport.Link.Cipher.{LinkCipher}
use styrene_rs.Transport.Resource.Messages.{
  MessagePack, ResourceRequest, copy_hash, unpack, decode_request, decode_proof, decode_update,
  encode_request, has_flag, flag_split,
}
use styrene_rs.Transport.Resource.Utils.{build_link_packet}
use styrene_rs.Transport.Resource.Sender
use styrene_rs.Transport.Resource.Sender.{Draws}
use styrene_rs.Transport.Resource.Sender.Polling.{handle_proof}
use styrene_rs.Transport.Resource.Sender.Answering
use styrene_rs.Transport.Resource.Receiver
use styrene_rs.Transport.Resource.Receiver.{
  handle_hash_update, build_request, mark_request, is_active,
}
use styrene_rs.Transport.Resource.Manager.Parts.{
  request_packet, responses_of, handle_resource_part_into,
}
use styrene_rs.Transport.Resource.Manager.{ResourceManager, outbound_complete}

unfoldable pub handle_proof_into : Packet → ResourceManager → ResourceManager
unfolding decode_proof lookup insert remove handle_proof
handle_proof_into packet m = elim (decode_proof (as_slice packet.body)) [
  | err _ ↦ m
  | ok p ↦ elim (lookup p.resource_hash m.outgoing) [
    | none ↦ m
    | some s ↦
        let (s', accepted) = handle_proof p s in
        if accepted
        then record m {
          outgoing = remove p.resource_hash m.outgoing;
          events =
              m.events
              ++ (record {
                hash = p.resource_hash;
                link_id = packet.destination;
                kind = outbound_complete;
              }
                  ∷ []);
        }
        else record m { outgoing = insert p.resource_hash s' m.outgoing }
  ]
]

unfoldable pub cancel_into : Packet → ResourceManager → ResourceManager
unfolding copy_hash remove
cancel_into packet m = elim (copy_hash (as_slice packet.body)) [
  | err _ ↦ m
  | ok hash ↦ record m {
    incoming = remove hash m.incoming;
    pending_outgoing = remove hash m.pending_outgoing;
    outgoing = remove hash m.outgoing;
  }
]

-- `expect` panics (`none`) where the packet cannot be built.
unfoldable pub build_resource_request_packet : LinkCipher → List ℕ → ResourceRequest → Option Packet
unfolding build_link_packet encode_request
build_resource_request_packet link iv request = elim (request_packet link iv request) [
  | ok packet ↦ some packet
  | err _ ↦ none
]

module _ (sha256 : List ℕ → Hash) (msgpack : MessagePack) (bunzip : List ℕ → Option (List ℕ))
    (link : LinkCipher) where
  unfoldable pub start_send :
      Draws
      → ℕ
      → List ℕ
      → Option (List ℕ)
      → ResourceManager
      → Result RnsError (ResourceManager × Hash × Packet)
  unfolding Sender.new insert
  start_send draws now bytes metadata m = do
    s ← Sender.new sha256 link msgpack draws now bytes metadata
    ok (
      record m { pending_outgoing = insert s.resource_hash s m.pending_outgoing },
      s.resource_hash,
      s.advertisement_packet,
    )

  unfoldable pub handle_advertisement_into :
      List ℕ → ℕ → Packet → ResourceManager → ResourceManager × List Packet
  unfolding unpack lookup insert is_active Receiver.new build_request mark_request build_link_packet
      encode_request
  handle_advertisement_into iv now packet m = elim (unpack msgpack (as_slice packet.body)) [
    | err _ ↦ (m, [])
    | ok adv ↦
        if has_flag adv.flags flag_split
        then (m, [])
        else if elim (lookup adv.hash m.incoming) [ some r ↦ is_active r | none ↦ false ]
        then (m, [])
        else elim (Receiver.new now adv link.id) [
          | err _ ↦ (m, [])
          | ok r ↦ (
            record m { incoming = insert adv.hash (mark_request now r) m.incoming },
            responses_of (request_packet link iv (build_request r)),
          )
        ]
  ]

  unfoldable pub handle_request_into :
      List ℕ → ℕ → Packet → ResourceManager → ResourceManager × List Packet
  unfolding decode_request lookup insert Answering.handle_request_into
  handle_request_into iv now packet m = elim (decode_request (as_slice packet.body)) [
    | err _ ↦ (m, [])
    | ok request ↦ elim (lookup request.resource_hash m.outgoing) [
      | none ↦ (m, [])
      | some s ↦
          let (s', packets) = Answering.handle_request_into msgpack link iv now request s [] in
          (record m { outgoing = insert request.resource_hash s' m.outgoing }, packets)
    ]
  ]

  unfoldable pub handle_hash_update_into :
      List ℕ → Packet → ResourceManager → ResourceManager × List Packet
  unfolding decode_update lookup insert handle_hash_update build_request build_link_packet
      encode_request
  handle_hash_update_into iv packet m = elim (decode_update msgpack (as_slice packet.body)) [
    | err _ ↦ (m, [])
    | ok update ↦ elim (lookup update.resource_hash m.incoming) [
      | none ↦ (m, [])
      | some r ↦
          let r' = handle_hash_update update r in
          (
            record m { incoming = insert update.resource_hash r' m.incoming },
            responses_of (request_packet link iv (build_request r')),
          )
    ]
  ]

  unfoldable pub handle_packet :
      List ℕ → ℕ → Packet → ResourceManager → ResourceManager × List Packet
  unfolding handle_advertisement_into handle_request_into handle_hash_update_into
      handle_resource_part_into handle_proof_into cancel_into
  handle_packet iv now packet m = elim packet.context [
    | resource_advrtisement ↦ handle_advertisement_into iv now packet m
    | resource_request ↦ handle_request_into iv now packet m
    | resource_hash_update ↦ handle_hash_update_into iv packet m
    | resource ↦ handle_resource_part_into sha256 bunzip link iv now packet m
    | resource_proof ↦ (handle_proof_into packet m, [])
    | resource_initiator_cancel ↦ (cancel_into packet m, [])
    | resource_receiver_cancel ↦ (cancel_into packet m, [])
    | _ ↦ (m, [])
  ]
