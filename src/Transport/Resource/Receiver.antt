-- ===== src/Transport/Resource/Receiver.antt =====
-- The receiving side of one transfer (transport/resource/receiver.rs). The clock reading `now` and
-- what `BzDecoder` makes of the data (`none`: its error) are arguments.
pub mod Assembly
pub mod Requests
pub mod Counting
pub mod Safety
pub mod Collisions
use styrene_rs.Base.{
  [], ℕ, ◌+◌, ◌-◌, ◌*◌, ◌^◌, min, max, Bool, true, false, ◌&&◌, ◌||◌, not, Option, none, some, List,
  ◌∷◌, ltb, leb, ◌==◌, if◌then◌else◌, length, set, get_elem?, replicate, saturating_add_one, Result,
  ok, err,
}
use styrene_rs.Base.Bytes.{bytes_eq}
use styrene_rs.Error.{RnsError, invalid_argument}
use styrene_rs.Hash.{Hash, AddressHash}
use styrene_rs.Packet.Codec.{Packet}
use styrene_rs.Transport.Link.Cipher.{LinkCipher}
use styrene_rs.Transport.Resource.{
  ResourceStatus, advertised, complete, failed, window, hashmap_max_len,
}
use styrene_rs.Transport.Resource.Messages.{
  ResourceAdvertisement, ResourceRequest, ResourceHashUpdate, encrypted, compressed, has_flag,
  flag_split, flag_metadata, read_hashes,
}
use styrene_rs.Transport.Resource.Utils.{position, map_hash}
use styrene_rs.Transport.Resource.Receiver.Assembly.{Origin, ResourcePayload, joined, recover}

pub record ResourceReceiver : Type 0 where
  pub origin : Origin
  pub link_id : AddressHash
  pub parts : List (Option (List ℕ))
  pub hashmap : List (Option (List ℕ))
  pub received : ℕ
  pub received_bytes : ℕ
  pub total_bytes : ℕ
  pub split : Bool
  pub last_progress : ℕ
  pub last_request : ℕ
  pub retry_count : ℕ
  pub status : ResourceStatus

pub data PartOutcome : Type 0 where
  no_match incomplete part_failed : PartOutcome
  completed : Packet → ResourcePayload → PartOutcome

pub record ResourceProgress : Type 0 where
  pub received_bytes : ℕ
  pub total_bytes : ℕ
  pub received_parts : ℕ
  pub total_parts : ℕ

-- Entry after entry from an index on; an index past the end is passed over.
unfoldable pub set_entries : List (List ℕ) → ℕ → List (Option (List ℕ)) → List (Option (List ℕ))
set_entries [] index hashmap = hashmap
set_entries (hash ∷ hashes) index hashmap =
    set_entries hashes (index + 1) (set hashmap index (some hash))

unfoldable pub apply_hashmap_segment : ℕ → List ℕ → ResourceReceiver → ResourceReceiver
unfolding set_entries read_hashes
apply_hashmap_segment segment bytes r = record r {
  hashmap = set_entries (read_hashes (length bytes) bytes) (segment * hashmap_max_len) r.hashmap;
}

-- A receiver that knows no hash and has no part.
unfoldable pub fresh : ℕ → ResourceAdvertisement → AddressHash → ResourceReceiver
unfolding encrypted compressed
fresh now adv link_id = record {
  origin = record {
    resource_hash = adv.hash;
    random_hash = adv.random_hash;
    encrypted = encrypted adv;
    compressed = compressed adv;
    has_metadata = has_flag adv.flags flag_metadata;
  };
  link_id = link_id;
  parts = replicate adv.parts none;
  hashmap = replicate adv.parts none;
  received = 0;
  received_bytes = 0;
  total_bytes = adv.transfer_size;
  split = has_flag adv.flags flag_split;
  last_progress = now;
  last_request = now;
  retry_count = 0;
  status = advertised;
}

unfoldable pub new : ℕ → ResourceAdvertisement → AddressHash → Result RnsError ResourceReceiver
unfolding apply_hashmap_segment fresh
new now adv link_id =
    if adv.parts == 0 || ltb (max adv.transfer_size 1) adv.parts
    then err invalid_argument
    else ok (apply_hashmap_segment (adv.segment_index - 1) adv.hashmap (fresh now adv link_id))

-- The loop of `build_request`: the hashes to ask for, the last known hash, and whether an unknown one
-- was met. It goes over the hash map and the parts, which are equally long, side by side.
unfoldable pub scan :
    ℕ
    → Option (List ℕ)
    → List (Option (List ℕ))
    → List (Option (List ℕ))
    → List (List ℕ) × Option (List ℕ) × Bool
scan count last [] parts = ([], last, false)
scan count last (none ∷ hashes) parts = ([], last, true)
scan count last (some hash ∷ hashes) [] = ([], some hash, false)
scan count last (some hash ∷ hashes) (some part ∷ parts) = scan count (some hash) hashes parts
scan count last (some hash ∷ hashes) (none ∷ parts) =
    let (requested, known, exhausted) = scan (count + 1) (some hash) hashes parts in
    if leb window (count + 1)
    then (hash ∷ [], some hash, false)
    else (hash ∷ requested, known, exhausted)

unfoldable pub build_request : ResourceReceiver → ResourceRequest
unfolding scan
build_request r =
    let (requested, known, exhausted) = scan 0 none r.hashmap r.parts in
    record {
      hashmap_exhausted = exhausted;
      last_map_hash = if exhausted then known else none;
      resource_hash = r.origin.resource_hash;
      requested_hashes = requested;
    }

unfoldable pub handle_hash_update : ResourceHashUpdate → ResourceReceiver → ResourceReceiver
unfolding apply_hashmap_segment
handle_hash_update update r =
    if bytes_eq update.resource_hash r.origin.resource_hash
    then apply_hashmap_segment update.segment update.hashmap r
    else r

abbrev pub known_as : List ℕ → Option (List ℕ) → Bool
known_as hash none = false
known_as hash (some entry) = bytes_eq entry hash

-- A part is kept where none was kept before.
unfoldable pub store_part : ℕ → ℕ → List ℕ → ResourceReceiver → ResourceReceiver
store_part now index part r = elim (get_elem? r.parts index) [
  | some none ↦ record r {
    parts = set r.parts index (some part);
    received = r.received + 1;
    received_bytes = min (r.received_bytes + length part) (2 ^ 64 - 1);
    last_progress = now;
  }
  | some (some kept) ↦ r
  | none ↦ r
]

unfoldable pub conclude :
    ResourceReceiver → Result RnsError (Packet × ResourcePayload) → ResourceReceiver × PartOutcome
conclude r (ok (packet, payload)) = (record r { status = complete }, completed packet payload)
conclude r (err _) = (record r { status = failed }, part_failed)

module _ (sha256 : List ℕ → Hash) (bunzip : List ℕ → Option (List ℕ)) (link : LinkCipher) where
  -- The parts one behind the other, if they are all there.
  unfoldable pub assemble : ResourceReceiver → Option (List ℕ) → ResourceReceiver × PartOutcome
  unfolding recover conclude
  assemble r none = (r, incomplete)
  assemble r (some stream) = conclude r (recover sha256 bunzip link r.origin stream)

  -- What stands behind the storing of a part: nothing while parts are missing.
  unfoldable pub finish : ResourceReceiver → ResourceReceiver × PartOutcome
  unfolding joined assemble
  finish r =
      if r.received == length r.parts && not (length r.parts == 0)
      then assemble r (joined r.parts)
      else (r, incomplete)

  -- The slot that a part belongs in, if there is one.
  unfoldable pub place : ℕ → List ℕ → ResourceReceiver → Option ℕ → ResourceReceiver × PartOutcome
  unfolding store_part finish
  place now part r none = (r, no_match)
  place now part r (some index) = finish (store_part now index part r)

  unfoldable pub handle_part : ℕ → List ℕ → ResourceReceiver → ResourceReceiver × PartOutcome
  unfolding position map_hash place
  handle_part now part r =
      if r.split
      then (record r { status = failed }, part_failed)
      else place now part r
          (position (known_as (map_hash sha256 part r.origin.random_hash)) r.hashmap)

unfoldable pub is_active : ResourceReceiver → Bool
is_active r = elim r.status [ complete ↦ false | failed ↦ false | _ ↦ true ]

unfoldable pub mark_request : ℕ → ResourceReceiver → ResourceReceiver
mark_request now r = record r { last_request = now; retry_count = saturating_add_one r.retry_count }

unfoldable pub retry_due : ℕ → ℕ → ℕ → ResourceReceiver → Bool
unfolding is_active
retry_due now retry_interval max_retries r =
    if not (is_active r)
    then false
    else if leb max_retries r.retry_count
    then false
    else leb retry_interval (now - r.last_progress) && leb retry_interval (now - r.last_request)

unfoldable pub progress : ResourceReceiver → ResourceProgress
progress r = record {
  received_bytes = r.received_bytes;
  total_bytes = r.total_bytes;
  received_parts = r.received;
  total_parts = length r.parts;
}
