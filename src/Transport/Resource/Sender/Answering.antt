-- ===== src/Transport/Resource/Sender/Answering.antt =====
-- What a sender makes of a request for parts.
use styrene_rs.Base.{
  [], ℕ, ◌+◌, ◌*◌, ◌/◌, ◌%◌, ◌^◌, min, max, Bool, true, false, ◌&&◌, Option, none, some, List, ◌∷◌,
  ◌++◌, ltb, if◌then◌else◌, length, set, get_elem?, ok, err,
}
use styrene_rs.Base.Bytes.{bytes_eq}
use styrene_rs.Packet.Header.{payload}
use styrene_rs.Packet.Context.{resource, resource_hash_update}
use styrene_rs.Packet.Codec.{Packet, default_packet}
use styrene_rs.Transport.Link.Cipher.{LinkCipher}
use styrene_rs.Transport.Resource.{
  ResourceStatus, advertised, transferring, awaiting_proof, hashmap_max_len,
  max_awaiting_proof_retries,
}
use styrene_rs.Transport.Resource.Messages.{MessagePack, ResourceRequest, encode_update}
use styrene_rs.Transport.Resource.Utils.{
  position, slice_hashmap_segment, build_link_packet, build_link_packet_into,
}
use styrene_rs.Transport.Resource.Sender.{ResourceSender}

module _ (link : LinkCipher) where
  -- What one request makes of the sender: it, whether a part was sent, and the packets.
  unfoldable pub send_requested :
      List ℕ
      → List (List ℕ)
      → ResourceSender
      → Bool
      → Packet
      → List Packet
      → ResourceSender × Bool × List Packet
  unfolding position build_link_packet_into
  send_requested iv [] s sent_any scratch packets = (s, sent_any, packets)
  send_requested iv (hash ∷ hashes) s sent_any scratch packets =
      elim (position (bytes_eq hash) s.map_hashes) [
        | none ↦ send_requested iv hashes s sent_any scratch packets
        | some index ↦ elim (get_elem? s.parts index) [
          | none ↦ send_requested iv hashes s sent_any scratch packets
          | some part ↦
              let (scratch', outcome) =
                build_link_packet_into link iv payload resource part scratch in
              elim outcome [
                | ok _ ↦
                    send_requested iv hashes (record s { sent_parts = set s.sent_parts index true })
                      true scratch' (packets ++ (scratch' ∷ []))
                | err _ ↦ send_requested iv hashes s sent_any scratch' packets
              ]
        ]
      ]

module _ (msgpack : MessagePack) (link : LinkCipher) where
  -- The part of the hash map behind the last hash that the receiver knows.
  unfoldable pub hash_update : List ℕ → ResourceSender → Option (List ℕ) → List Packet → List Packet
  unfolding position slice_hashmap_segment encode_update build_link_packet
  hash_update iv s none packets = packets
  hash_update iv s (some last_hash) packets = elim (position (bytes_eq last_hash) s.map_hashes) [
    | none ↦ packets
    | some last_index ↦
        let next_segment = last_index / hashmap_max_len + 1 in
        if ltb (next_segment * hashmap_max_len) (length s.map_hashes)
        then (elim (encode_update msgpack (record {
          resource_hash = s.resource_hash;
          segment = next_segment % 2 ^ 32;
          hashmap = slice_hashmap_segment s.map_hashes next_segment;
        })) [
          | err _ ↦ packets
          | ok bytes ↦ elim (build_link_packet link iv payload resource_hash_update bytes) [
            | ok packet ↦ packets ++ (packet ∷ [])
            | err _ ↦ packets
          ]
        ])
        else packets
  ]

abbrev all_sent : List Bool → Bool
all_sent [] = true
all_sent (sent ∷ rest) = sent && all_sent rest

-- What a request leaves of the clocks, the retries and the status, where the transfer goes on.
unfoldable pub after_request : ℕ → Bool → ResourceSender → ResourceSender
after_request now sent_any s =
    let last_part_sent = if sent_any then now else s.last_part_sent in
    if all_sent s.sent_parts
    then record s {
      last_activity = now;
      last_part_sent = last_part_sent;
      status = awaiting_proof;
      retries_left = min (max s.max_retries 1) max_awaiting_proof_retries;
    }
    else record s {
      last_activity = now;
      last_part_sent = last_part_sent;
      status = transferring;
      retries_left = s.max_retries;
    }

abbrev pub in_progress : ResourceStatus → Bool
in_progress advertised = true
in_progress transferring = true
in_progress awaiting_proof = true
in_progress _ = false

unfoldable pub handle_request_into :
    MessagePack
    → LinkCipher
    → List ℕ
    → ℕ
    → ResourceRequest
    → ResourceSender
    → List Packet
    → ResourceSender × List Packet
unfolding send_requested hash_update after_request default_packet
handle_request_into msgpack link iv now request s packets =
    if bytes_eq request.resource_hash s.resource_hash
    then (let (s', sent_any, packets') =
          send_requested link iv request.requested_hashes s false default_packet packets in
        (
          if in_progress s'.status then after_request now sent_any s' else s',
          if request.hashmap_exhausted
              then hash_update msgpack link iv s' request.last_map_hash packets'
              else packets',
        ))
    else (s, packets)
