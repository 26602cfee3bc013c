-- ===== src/Transport/Resource/Messages.antt =====
-- The messages of a transfer and their bytes (transport/resource/mod.rs). MessagePack is third-party
-- code: what it makes of a frame, and of bytes, are fields of `MessagePack`.
pub mod RoundTrip
use styrene_rs.Base.{
  [], ℕ, zero, suc, ◌+◌, ◌*◌, bit_and, Bool, true, false, ◌&&◌, Option, none, some, List, ◌∷◌, ◌++◌,
  ltb, leb, ◌==◌, if◌then◌else◌, length, take, drop, get_or, replicate, Result, ok, err, ◌>>=◌,
}
use styrene_rs.Base.Stateful.{ok_or}
use styrene_rs.Error.{RnsError, packet_error}
use styrene_rs.Hash.{Hash, hash_size}
use styrene_rs.Transport.Resource.{maphash_len, random_hash_size}

abbrev pub flag_encrypted : ℕ
flag_encrypted = 0x01

abbrev pub flag_compressed : ℕ
flag_compressed = 0x02

abbrev pub flag_split : ℕ
flag_split = 0x04

abbrev pub flag_request : ℕ
flag_request = 0x08

abbrev pub flag_response : ℕ
flag_response = 0x10

abbrev pub flag_metadata : ℕ
flag_metadata = 0x20

-- `copy_fixed::<N>` and `copy_hash` of transport/resource/utils.rs.
unfoldable pub copy_fixed : ℕ → List ℕ → Result RnsError (List ℕ)
copy_fixed n bytes = if ltb (length bytes) n then err packet_error else ok (take n bytes)

unfoldable pub copy_hash : List ℕ → Result RnsError Hash
unfolding copy_fixed
copy_hash bytes = copy_fixed hash_size bytes

-- `ResourceAdvertisement`; the frame that is serialised has the same fields.
pub record ResourceAdvertisement : Type 0 where
  pub transfer_size : ℕ
  pub data_size : ℕ
  pub parts : ℕ
  pub hash : Hash
  pub random_hash : List ℕ
  pub original_hash : Hash
  pub segment_index : ℕ
  pub total_segments : ℕ
  pub request_id : Option (List ℕ)
  pub flags : ℕ
  pub hashmap : List ℕ

-- `rmp_serde::to_vec_named`, `to_vec` and `from_slice` on the two frames; `none` is its error.
pub record MessagePack : Type 0 where
  pub write_advertisement : ResourceAdvertisement → Option (List ℕ)
  pub read_advertisement : List ℕ → Option ResourceAdvertisement
  pub write_update : ℕ × List ℕ → Option (List ℕ)
  pub read_update : List ℕ → Option (ℕ × List ℕ)

abbrev pub has_flag : ℕ → ℕ → Bool
has_flag flags flag = bit_and flags flag == flag

abbrev is_some {ℓ} : {A : Type ℓ} → Option A → Bool
is_some none = false
is_some (some a) = true

unfoldable pub encrypted : ResourceAdvertisement → Bool
encrypted adv = has_flag adv.flags flag_encrypted

unfoldable pub compressed : ResourceAdvertisement → Bool
compressed adv = has_flag adv.flags flag_compressed

unfoldable pub is_request : ResourceAdvertisement → Bool
is_request adv = has_flag adv.flags flag_request && is_some adv.request_id

unfoldable pub is_response : ResourceAdvertisement → Bool
is_response adv = has_flag adv.flags flag_response && is_some adv.request_id

pub record ResourceRequest : Type 0 where
  pub hashmap_exhausted : Bool
  pub last_map_hash : Option (List ℕ)
  pub resource_hash : Hash
  pub requested_hashes : List (List ℕ)

pub record ResourceHashUpdate : Type 0 where
  pub resource_hash : Hash
  pub segment : ℕ
  pub hashmap : List ℕ

pub record ResourceProof : Type 0 where
  pub resource_hash : Hash
  pub proof : Hash

unfoldable pub concat : List (List ℕ) → List ℕ
concat [] = []
concat (xs ∷ rest) = xs ++ concat rest

-- Entries of `MAPHASH_LEN` bytes while there are as many left; the length is fuel enough.
unfoldable pub read_hashes : ℕ → List ℕ → List (List ℕ)
read_hashes zero bytes = []
read_hashes (suc fuel) bytes =
    if leb maphash_len (length bytes)
    then take maphash_len bytes ∷ read_hashes fuel (drop maphash_len bytes)
    else []

abbrev pub last_bytes : Option (List ℕ) → List ℕ
last_bytes none = replicate maphash_len 0
last_bytes (some hash) = hash

-- The byte that says whether the known hashes are exhausted, and the last of them.
unfoldable pub exhausted_bytes : ResourceRequest → List ℕ
exhausted_bytes r = if r.hashmap_exhausted then 0xff ∷ last_bytes r.last_map_hash else 0x00 ∷ []

unfoldable pub encode_request : ResourceRequest → List ℕ
unfolding exhausted_bytes concat
encode_request r = exhausted_bytes r ++ (r.resource_hash ++ concat r.requested_hashes)

-- The digest and the requested hashes, from an offset on.
unfoldable pub decode_rest : Bool → Option (List ℕ) → List ℕ → Result RnsError ResourceRequest
unfolding copy_hash read_hashes
decode_rest exhausted last bytes = do
  resource_hash ← copy_hash (take hash_size bytes)
  ok (record {
    hashmap_exhausted = exhausted;
    last_map_hash = last;
    resource_hash = resource_hash;
    requested_hashes = read_hashes (length bytes) (drop hash_size bytes);
  })

unfoldable pub decode_request : List ℕ → Result RnsError ResourceRequest
unfolding decode_rest
decode_request bytes =
    if ltb (length bytes) (1 + hash_size)
    then err packet_error
    else if get_or bytes 0 0 == 0xff
    then (if ltb (length bytes) (1 + maphash_len + hash_size)
        then err packet_error
        else decode_rest true (some (take maphash_len (drop 1 bytes)))
            (drop (1 + maphash_len) bytes))
    else decode_rest false none (drop 1 bytes)

unfoldable pub encode_proof : ResourceProof → List ℕ
encode_proof p = p.resource_hash ++ p.proof

unfoldable pub decode_proof : List ℕ → Result RnsError ResourceProof
unfolding copy_hash
decode_proof bytes = if ltb (length bytes) (hash_size * 2) then err packet_error else do
  resource_hash ← copy_hash (take hash_size bytes)
  proof ← copy_hash (take hash_size (drop hash_size bytes))
  ok (record { resource_hash = resource_hash; proof = proof })

module _ (msgpack : MessagePack) where
  unfoldable pub pack : ResourceAdvertisement → Result RnsError (List ℕ)
  pack adv = ok_or (msgpack.write_advertisement adv) packet_error

  -- The digests of the frame are byte vectors of any length.
  unfoldable pub unpack : List ℕ → Result RnsError ResourceAdvertisement
  unfolding copy_hash copy_fixed
  unpack bytes = do
    frame ← ok_or (msgpack.read_advertisement bytes) packet_error
    hash ← copy_hash frame.hash
    original_hash ← copy_hash frame.original_hash
    random_hash ← copy_fixed random_hash_size frame.random_hash
    ok (record frame { hash = hash; original_hash = original_hash; random_hash = random_hash })

  unfoldable pub encode_update : ResourceHashUpdate → Result RnsError (List ℕ)
  encode_update u = do
    payload ← ok_or (msgpack.write_update (u.segment, u.hashmap)) packet_error
    ok (u.resource_hash ++ payload)

  unfoldable pub decode_update : List ℕ → Result RnsError ResourceHashUpdate
  unfolding copy_hash
  decode_update bytes = if ltb (length bytes) (hash_size + 1) then err packet_error else do
    resource_hash ← copy_hash (take hash_size bytes)
    (segment, hashmap) ← ok_or (msgpack.read_update (drop hash_size bytes)) packet_error
    ok (record { resource_hash = resource_hash; segment = segment; hashmap = hashmap })
