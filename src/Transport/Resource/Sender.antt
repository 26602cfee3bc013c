-- ===== src/Transport/Resource/Sender.antt =====
-- The sending side of one transfer (transport/resource/sender.rs). What the random generator draws, and
-- the clock reading `now`, are arguments. The log lines are left out.
pub mod Polling
pub mod Answering
pub mod Cutting
pub mod Patience
use styrene_rs.Base.{
  [], ℕ, zero, suc, ◌+◌, ◌/◌, ◌%◌, ◌^◌, bit_or, Bool, false, Option, none, some, List, ◌∷◌, ◌++◌,
  ltb, if◌then◌else◌, length, take, drop, replicate, map, Result, ok, err, ◌>>=◌,
}
use styrene_rs.Error.{RnsError, invalid_argument, crypto_error}
use styrene_rs.Hash.{Hash, AddressHash}
use styrene_rs.Packet.Header.{payload}
use styrene_rs.Packet.Context.{resource_advrtisement}
use styrene_rs.Packet.Codec.{Packet, packet_mdu}
use styrene_rs.Transport.Link.Cipher.{LinkCipher}
use styrene_rs.Transport.Resource.{ResourceStatus, no_status, metadata_max_size}
use styrene_rs.Transport.Resource.Messages.{
  MessagePack, ResourceAdvertisement, copy_hash, pack, flag_encrypted, flag_metadata,
}
use styrene_rs.Transport.Resource.Utils.{map_hash, slice_hashmap_segment, build_link_packet}

pub record ResourceSender : Type 0 where
  pub link_id : AddressHash
  pub resource_hash : Hash
  pub parts : List (List ℕ)
  pub sent_parts : List Bool
  pub map_hashes : List (List ℕ)
  pub expected_proof : Hash
  pub advertisement_packet : Packet
  pub last_activity : ℕ
  pub adv_sent : ℕ
  pub last_part_sent : ℕ
  pub max_retries : ℕ
  pub retries_left : ℕ
  pub status : ResourceStatus

-- The last three bytes of `u32::to_be_bytes`, of the length of the metadata, and the metadata.
unfoldable pub metadata_prefix : Option (List ℕ) → Result RnsError (List ℕ)
metadata_prefix none = ok []
metadata_prefix (some meta) =
    let size = length meta in
    if ltb metadata_max_size size
    then err invalid_argument
    else ok ((size / 2 ^ 16 % 256) ∷ (size / 2 ^ 8 % 256) ∷ (size % 256) ∷ meta)

-- `chunks(size)`; a chunk is not empty, so the length is fuel enough.
unfoldable pub chunks : ℕ → ℕ → List ℕ → List (List ℕ)
chunks fuel size [] = []
chunks zero size (x ∷ xs) = []
chunks (suc fuel) size (x ∷ xs) = take size (x ∷ xs) ∷ chunks fuel size (drop size (x ∷ xs))

unfoldable pub total_len : List (List ℕ) → ℕ
total_len [] = 0
total_len (part ∷ parts) = length part + total_len parts

abbrev pub new_flags : Option (List ℕ) → ℕ
new_flags none = flag_encrypted
new_flags (some meta) = bit_or flag_encrypted flag_metadata

-- What a new sender draws: the random hash, the random bytes before the data, and the vectors of the
-- two encryptions.
pub record Draws : Type 0 where
  pub random_hash : List ℕ
  pub leading : List ℕ
  pub data_iv : List ℕ
  pub advertisement_iv : List ℕ

-- What a new sender works out before it packs its advertisement.
pub record Prepared : Type 0 where
  pub parts : List (List ℕ)
  pub map_hashes : List (List ℕ)
  pub expected_proof : Hash
  pub offer : ResourceAdvertisement

module _ (sha256 : List ℕ → Hash) where
  -- The token cut into parts, their digests and the advertisement.
  unfoldable pub divide : Draws → Option (List ℕ) → List ℕ → Hash → Hash → List ℕ → Prepared
  unfolding chunks total_len map_hash slice_hashmap_segment
  divide draws metadata combined resource_hash expected_proof cipher_text =
      let parts = chunks (length cipher_text) packet_mdu cipher_text in
      let map_hashes = map (λ part. map_hash sha256 part draws.random_hash) parts in
      record {
        parts = parts;
        map_hashes = map_hashes;
        expected_proof = expected_proof;
        offer = record {
          transfer_size = total_len parts;
          data_size = length combined;
          parts = length parts % 2 ^ 32;
          hash = resource_hash;
          random_hash = draws.random_hash;
          original_hash = resource_hash;
          segment_index = 1;
          total_segments = 1;
          request_id = none;
          flags = new_flags metadata;
          hashmap = slice_hashmap_segment map_hashes 0;
        };
      }

module _ (sha256 : List ℕ → Hash) (link : LinkCipher) where
  unfoldable pub prepare : Draws → List ℕ → Option (List ℕ) → Result RnsError Prepared
  unfolding metadata_prefix divide copy_hash
  prepare draws bytes metadata = metadata_prefix metadata >>= λ prefix.
      let combined = prefix ++ bytes in
      copy_hash (sha256 (combined ++ draws.random_hash)) >>= λ resource_hash.
      copy_hash (sha256 (combined ++ resource_hash)) >>= λ expected_proof.
      let plain = draws.leading ++ combined in
      elim (link.encrypt draws.data_iv plain (length plain + 128)) [
        | ok token ↦ ok (divide sha256 draws metadata combined resource_hash expected_proof token)
        | err _ ↦ err crypto_error
      ]

  unfoldable pub new :
      MessagePack → Draws → ℕ → List ℕ → Option (List ℕ) → Result RnsError ResourceSender
  unfolding prepare build_link_packet
  new msgpack draws now bytes metadata = prepare draws bytes metadata >>= λ prepared.
      pack msgpack prepared.offer >>= λ packed.
      build_link_packet link draws.advertisement_iv payload resource_advrtisement packed
      >>= λ advertisement. ok (record {
        link_id = link.id;
        resource_hash = prepared.offer.hash;
        parts = prepared.parts;
        sent_parts = replicate (length prepared.map_hashes) false;
        map_hashes = prepared.map_hashes;
        expected_proof = prepared.expected_proof;
        advertisement_packet = advertisement;
        last_activity = now;
        adv_sent = now;
        last_part_sent = now;
        max_retries = 0;
        retries_left = 0;
        status = no_status;
      })
