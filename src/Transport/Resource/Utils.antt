-- ===== src/Transport/Resource/Utils.antt =====
-- Packets on a link and the digests of parts (transport/resource/utils.rs).
pub mod Packets
use styrene_rs.Base.{
  [], ℕ, ◌+◌, ◌-◌, ◌*◌, min, Bool, true, false, ◌&&◌, not, none, List, ◌++◌, if◌then◌else◌, length,
  take, drop, splice, Result, ok, err, Option, some, ◌∷◌, zero, suc,
}
use styrene_rs.Error.{RnsError}
use styrene_rs.Hash.{Hash}
use styrene_rs.Buffer.StaticBuffer
use styrene_rs.Buffer.StaticBuffer.{StaticBuffer, reset, resize, accuire_buf_max, write}
use styrene_rs.Packet.Header.{Header, PacketType, proof, link, default_header}
use styrene_rs.Packet.Context.{PacketContext, resource, resource_proof}
use styrene_rs.Packet.Codec.{Packet, packet_mdu}
use styrene_rs.Transport.Link.Cipher.{LinkCipher}
use styrene_rs.Transport.Resource.{maphash_len, hashmap_max_len}
use styrene_rs.Transport.Resource.Messages.{concat}

-- `iter().position`
unfoldable pub position {ℓ} : {A : Type ℓ} → (A → Bool) → List A → Option ℕ
position test [] = none
position test (x ∷ xs) =
    if test x then some zero else elim (position test xs) [ some i ↦ some (suc i) | none ↦ none ]

unfoldable pub map_hash : (List ℕ → Hash) → List ℕ → List ℕ → List ℕ
map_hash sha256 part random_hash = take maphash_len (sha256 (part ++ random_hash))

-- A slice whose start is past its end panics; the callers have a start below the number of hashes,
-- or 0.
unfoldable pub slice_hashmap_segment : List (List ℕ) → ℕ → List ℕ
unfolding concat
slice_hashmap_segment hashes segment =
    let start = segment * hashmap_max_len in
    let end = min ((segment + 1) * hashmap_max_len) (length hashes) in
    concat (take (end - start) (drop start hashes))

abbrev is_resource : PacketContext → Bool
is_resource resource = true
is_resource _ = false

abbrev is_proof_of : PacketType → PacketContext → Bool
is_proof_of proof resource_proof = true
is_proof_of _ _ = false

abbrev pub should_encrypt : PacketType → PacketContext → Bool
should_encrypt packet_type context =
    not (is_resource context) && not (is_proof_of packet_type context)

abbrev pub link_header : PacketType → Header
link_header packet_type = record default_header {
  destination_type = link;
  packet_type = packet_type;
}

abbrev pub link_packet : LinkCipher → PacketType → PacketContext → StaticBuffer → Packet
link_packet on packet_type context body = record {
  header = link_header packet_type;
  ifac = none;
  destination = on.id;
  transport = none;
  context = context;
  body = body;
}

module _ (on : LinkCipher) (iv : List ℕ) where
  -- `fill_link_packet_data`; the token is written from the start of the buffer.
  unfoldable pub fill_link_packet_data :
      PacketType → PacketContext → List ℕ → StaticBuffer → StaticBuffer × Result RnsError (Unit {0})
  unfolding reset resize accuire_buf_max write
  fill_link_packet_data packet_type context bytes b =
      if should_encrypt packet_type context
      then (let room = accuire_buf_max (reset b) in
          elim (on.encrypt iv bytes (length room.buffer)) [
            | ok token ↦
                (resize (record room { buffer = splice room.buffer 0 token }) (length token), ok tt)
            | err problem ↦ (room, err problem)
          ])
      else let (filled, outcome) = write packet_mdu (reset b) bytes in
        (filled, elim outcome [ ok _ ↦ ok tt | err problem ↦ err problem ])

  unfoldable pub build_link_packet : PacketType → PacketContext → List ℕ → Result RnsError Packet
  unfolding fill_link_packet_data StaticBuffer.new
  build_link_packet packet_type context bytes =
      let (body, outcome) =
        fill_link_packet_data packet_type context bytes (StaticBuffer.new packet_mdu) in
      elim outcome [
        | ok _ ↦ ok (link_packet on packet_type context body)
        | err problem ↦ err problem
      ]

  -- The packet given is overwritten, whatever the outcome.
  unfoldable pub build_link_packet_into :
      PacketType → PacketContext → List ℕ → Packet → Packet × Result RnsError (Unit {0})
  unfolding fill_link_packet_data
  build_link_packet_into packet_type context bytes p =
      let (body, outcome) = fill_link_packet_data packet_type context bytes p.body in
      (link_packet on packet_type context body, outcome)
