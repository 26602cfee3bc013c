-- ===== src/Transport/Resource/Receiver/Assembly.antt =====
-- What `handle_part` makes of the parts of a transfer when the last of them is there. Every error ends
-- in the status `Failed`, so which one it is does not matter.
use styrene_rs.Base.{
  [], ℕ, ◌+◌, ◌*◌, ◌^◌, bit_or, Bool, ◌&&◌, Option, none, some, List, ◌∷◌, ◌++◌, ltb, leb,
  if◌then◌else◌, length, take, drop, get_or, Result, ok, err, ◌>>=◌,
}
use styrene_rs.Base.Bytes.{bytes_eq}
use styrene_rs.Base.Stateful.{ok_or}
use styrene_rs.Error.{RnsError, invalid_argument, incorrect_hash}
use styrene_rs.Hash.{Hash}
use styrene_rs.Packet.Header.{proof}
use styrene_rs.Packet.Context.{resource_proof}
use styrene_rs.Packet.Codec.{Packet}
use styrene_rs.Transport.Link.Cipher.{LinkCipher}
use styrene_rs.Transport.Resource.{random_hash_size, metadata_max_size}
use styrene_rs.Transport.Resource.Messages.{copy_hash, encode_proof}
use styrene_rs.Transport.Resource.Utils.{build_link_packet}

-- What a receiver keeps of the advertisement: it does not change.
pub record Origin : Type 0 where
  pub resource_hash : Hash
  pub random_hash : List ℕ
  pub encrypted : Bool
  pub compressed : Bool
  pub has_metadata : Bool

pub record ResourcePayload : Type 0 where
  pub bytes : List ℕ
  pub metadata : Option (List ℕ)

-- The parts one behind the other, if none is missing.
unfoldable pub joined : List (Option (List ℕ)) → Option (List ℕ)
joined [] = some []
joined (none ∷ parts) = none
joined (some part ∷ parts) = elim (joined parts) [ some rest ↦ some (part ++ rest) | none ↦ none ]

-- The metadata behind three bytes of length, and the data behind it.
unfoldable pub split_metadata : Bool → List ℕ → Result RnsError ResourcePayload
split_metadata has_metadata payload =
    if has_metadata && leb 3 (length payload)
    then (let size =
          bit_or (bit_or (get_or payload 0 0 * 2 ^ 16) (get_or payload 1 0 * 2 ^ 8))
            (get_or payload 2 0) in
        if ltb metadata_max_size size
        then err invalid_argument
        else if leb (3 + size) (length payload)
        then ok (record {
          bytes = drop (3 + size) payload;
          metadata = some (take size (drop 3 payload));
        })
        else ok (record { bytes = payload; metadata = none }))
    else ok (record { bytes = payload; metadata = none })

module _ (sha256 : List ℕ → Hash) (bunzip : List ℕ → Option (List ℕ)) (link : LinkCipher) where
  -- Decrypted, without the leading random bytes, decompressed.
  unfoldable pub unwrapped : Origin → List ℕ → Result RnsError (List ℕ)
  unwrapped origin stream = do
    plain ← if origin.encrypted then link.decrypt stream (length stream + 64) else ok stream
    let payload = if ltb random_hash_size (length plain) then drop random_hash_size plain else []
    if origin.compressed then ok_or (bunzip payload) invalid_argument else ok payload

  -- The proof is not encrypted, so no vector is drawn for its packet.
  unfoldable pub proven :
      Origin → List ℕ → ResourcePayload → Result RnsError (Packet × ResourcePayload)
  unfolding copy_hash encode_proof build_link_packet
  proven origin payload parts = do
    digest ← copy_hash (sha256 (payload ++ origin.resource_hash))
    packet ←
        build_link_packet link [] proof resource_proof
          (encode_proof (record { resource_hash = origin.resource_hash; proof = digest }))
    ok (packet, parts)

  unfoldable pub verified :
      Origin → List ℕ → ResourcePayload → Result RnsError (Packet × ResourcePayload)
  unfolding copy_hash proven
  verified origin payload parts = copy_hash (sha256 (payload ++ origin.random_hash)) >>= λ computed.
      if bytes_eq computed origin.resource_hash
      then proven origin payload parts
      else err incorrect_hash

  unfoldable pub recover : Origin → List ℕ → Result RnsError (Packet × ResourcePayload)
  unfolding unwrapped split_metadata verified
  recover origin stream = do
    payload ← unwrapped origin stream
    parts ← split_metadata origin.has_metadata payload
    verified origin payload parts
