-- ===== src/Transport/Resource/Transfer/Offer.antt =====
-- A receiver made from the advertisement of a sender knows all of its parts, where one segment of the
-- hash map holds them.
use styrene_rs.Base.{
  [], ℕ, zero, suc, ◌+◌, ◌-◌, ◌%◌, ◌^◌, ◌≤◌, ◌<◌, ◌≡◌, refl, ap, ◌∙◌, sym, true, false, Option,
  none, some, List, ◌∷◌, ◌++◌, map, arith, length, set, replicate, All, length-append, length-take,
  take_ge, append_assoc, ok,
}
use styrene_rs.Hash.{Hash, AddressHash, hash_size}
use styrene_rs.Transport.Resource.{hashmap_max_len, maphash_len}
use styrene_rs.Transport.Resource.Messages.{
  ResourceAdvertisement, concat, read_hashes, has_flag, flag_encrypted, flag_compressed,
  flag_metadata, flag_split, encrypted, compressed,
}
use styrene_rs.Transport.Resource.Messages.RoundTrip.{IsMapHash, read_hashes-concat, length-concat}
use styrene_rs.Transport.Resource.Utils.{map_hash, slice_hashmap_segment}
use styrene_rs.Transport.Resource.Receiver.{
  ResourceReceiver, set_entries, apply_hashmap_segment, fresh, new,
}
use mathlib.Core.Path.{subst}
use styrene_rs.Transport.Resource.Receiver.Assembly.{Origin}
use styrene_rs.Transport.Resource.Sender.{Draws, Prepared, divide, new_flags, total_len}
use styrene_rs.Transport.Resource.Sender.Cutting.{has_some}
use styrene_rs.Transport.Resource.Transfer.Delivery.{Tracks}
use styrene_rs.Transport.Resource.Receiver.Counting.{filled}
use styrene_rs.Transport.Resource.Transfer.Slots.{Kept}

-- A digest has 32 bytes.
abbrev pub IsDigest : (List ℕ → Hash) → Type 0
IsDigest sha256 = (xs : List ℕ) → length (sha256 xs) ≡ hash_size

set_next :
    (known : List (Option (List ℕ))) (hash : List ℕ) (n : ℕ)
    → set (known ++ replicate (suc n) none) (length known) (some hash)
      ≡ (known ++ (some hash ∷ [])) ++ replicate n none
set_next [] hash n = refl
set_next (k ∷ known) hash n = ap (λ l. k ∷ l) (set_next known hash n)

set_entries_lem :
    (hashes : List (List ℕ)) (known : List (Option (List ℕ)))
    → set_entries hashes (length known) (known ++ replicate (length hashes) none)
      ≡ known ++ map some hashes
unfolding set_entries
set_entries_lem [] known = refl
set_entries_lem (hash ∷ hashes) known =
    let next : length known + 1 ≡ length (known ++ (some hash ∷ [])) =
      sym (length-append known (some hash ∷ [])) in
    (λ i. set_entries hashes (next i) (set_next known hash (length hashes) i))
    ∙ set_entries_lem hashes (known ++ (some hash ∷ []))
    ∙ append_assoc known (some hash ∷ []) (map some hashes)

pub known_hashes :
    (hashes : List (List ℕ))
    → All IsMapHash hashes
    → length hashes ≤ hashmap_max_len
    → let bytes : List ℕ = slice_hashmap_segment hashes 0 in
      set_entries (read_hashes (length bytes) bytes) 0 (replicate (length hashes) none)
      ≡ map some hashes
unfolding slice_hashmap_segment
known_hashes hashes sizes fits =
    let bytes : List ℕ = slice_hashmap_segment hashes 0 in
    let all : bytes ≡ concat hashes = ap concat (take_ge _ hashes (omega arith)) in
    let enough : length hashes ≤ length bytes =
      omega (arith, ap length all, length-concat hashes sizes) in
    let read : read_hashes (length bytes) bytes ≡ hashes =
      ap (read_hashes (length bytes)) all ∙ read_hashes-concat (length bytes) hashes sizes enough in
    ap (λ hs. set_entries hs 0 (replicate (length hashes) none)) read ∙ set_entries_lem hashes []

pub map_hashes_len :
    (sha256 : List ℕ → Hash) (random_hash : List ℕ) (parts : List (List ℕ))
    → IsDigest sha256
    → All IsMapHash (map (λ part. map_hash sha256 part random_hash) parts)
unfolding map_hash
map_hashes_len sha256 random_hash [] digests = tt
map_hashes_len sha256 random_hash (p ∷ parts) digests = (
  omega (arith, length-take maphash_len (sha256 (p ++ random_hash)), digests (p ++ random_hash)),
  map_hashes_len sha256 random_hash parts digests,
)

pub Kept-none : (parts : List (List ℕ)) → Kept parts (replicate (length parts) none)
Kept-none [] = tt
Kept-none (p ∷ parts) = Kept-none parts

pub length-map {ℓ κ} :
    {A : Type ℓ} {B : Type κ} (f : A → B) (xs : List A) → length (map f xs) ≡ length xs
length-map f [] = refl
length-map f (x ∷ xs) = ap suc (length-map f xs)

-- Accepted: an advertisement of a few parts, each of which has a byte.
pub new_accepts :
    (now : ℕ) (adv : ResourceAdvertisement) (link_id : AddressHash)
    → 0 < adv.parts
    → adv.parts ≤ adv.transfer_size
    → new now adv link_id
      ≡ ok (apply_hashmap_segment (adv.segment_index - 1) adv.hashmap (fresh now adv link_id))
unfolding new
new_accepts now adv link_id some_parts sizes = ground arith

filled_none : (n : ℕ) → filled (replicate n none) ≡ 0
filled_none zero = refl
filled_none (suc n) = filled_none n

flags_lem :
    (metadata : Option (List ℕ))
    → (has_flag (new_flags metadata) flag_encrypted ≡ true)
      × (has_flag (new_flags metadata) flag_compressed ≡ false)
      × (has_flag (new_flags metadata) flag_metadata ≡ has_some metadata)
      × (has_flag (new_flags metadata) flag_split ≡ false)
flags_lem none = (refl, refl, refl, refl)
flags_lem (some meta) = (refl, refl, refl, refl)

module _ (sha256 : List ℕ → Hash) (draws : Draws) (metadata : Option (List ℕ))
    (combined resource_hash expected_proof token : List ℕ) where
  abbrev pub prepared : Prepared
  prepared = divide sha256 draws metadata combined resource_hash expected_proof token

  abbrev pub offer_origin : Origin
  offer_origin = record {
    resource_hash = resource_hash;
    random_hash = draws.random_hash;
    encrypted = true;
    compressed = false;
    has_metadata = has_some metadata;
  }

  -- The first state of a receiver of the advertisement.
  abbrev pub first_receiver : ℕ → AddressHash → ResourceReceiver
  first_receiver now link_id =
      apply_hashmap_segment 0 prepared.offer.hashmap (fresh now prepared.offer link_id)

  pub first-Tracks :
      (now : ℕ) (link_id : AddressHash)
      → IsDigest sha256
      → length prepared.parts ≤ hashmap_max_len
      → Tracks sha256 prepared.parts offer_origin (first_receiver now link_id)
  unfolding divide apply_hashmap_segment fresh encrypted compressed
  first-Tracks now link_id digests fits =
      let (e, c, m, s) = flags_lem metadata in
      let hs : List (List ℕ) = prepared.map_hashes in
      let size : length hs ≡ length prepared.parts = length-map _ prepared.parts in
      let count : length prepared.parts % 2 ^ 32 ≡ length prepared.parts = omega arith in
      let known =
        known_hashes hs (map_hashes_len sha256 draws.random_hash prepared.parts digests)
          (omega arith) in
      record {
        same_origin = λ i. record {
          resource_hash = resource_hash;
          random_hash = draws.random_hash;
          encrypted = e i;
          compressed = c i;
          has_metadata = m i;
        };
        known =
            ap
              (λ n.
                set_entries (read_hashes (length prepared.offer.hashmap) prepared.offer.hashmap) 0
                  (replicate n none))
              (count ∙ sym size)
            ∙ known;
        kept =
            subst (λ n. Kept prepared.parts (replicate n none)) (sym count)
              (Kept-none prepared.parts);
        counted = sym (filled_none (length prepared.parts % 2 ^ 32));
        whole = s;
      }

  pub new_receiver :
      (now : ℕ) (link_id : AddressHash)
      → 0 < length prepared.parts
      → length prepared.parts ≤ total_len prepared.parts
      → length prepared.parts ≤ hashmap_max_len
      → new now prepared.offer link_id ≡ ok (first_receiver now link_id)
  unfolding divide
  new_receiver now link_id some_parts sizes fits =
      new_accepts now prepared.offer link_id (omega arith) (omega arith)

  pub first_empty :
      (now : ℕ) (link_id : AddressHash) → filled (first_receiver now link_id).parts ≡ 0
  unfolding divide apply_hashmap_segment fresh
  first_empty now link_id = filled_none (length prepared.parts % 2 ^ 32)
