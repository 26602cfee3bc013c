-- ===== src/Transport/Resource/Receiver/Counting.antt =====
-- The count of the parts received is the number of the parts kept.
use styrene_rs.Base.{
  [], ℕ, zero, suc, ◌+◌, ◌-◌, ◌≤◌, ◌≡◌, refl, ap, ◌∙◌, sym, Option, none, some, List, ◌∷◌, ◌++◌,
  arith, length, set, get_elem?, replicate, ok,
}
use styrene_rs.Hash.{Hash, AddressHash}
use styrene_rs.Transport.Link.Cipher.{LinkCipher}
use styrene_rs.Transport.Resource.Messages.{ResourceAdvertisement, ResourceHashUpdate, read_hashes}
use styrene_rs.Transport.Resource.Utils.{position, map_hash}
use styrene_rs.Transport.Resource.Receiver.{
  ResourceReceiver, set_entries, apply_hashmap_segment, fresh, new, handle_hash_update, store_part,
  finish, place, known_as, handle_part,
}
use styrene_rs.Transport.Resource.Receiver.Assembly.{joined}

abbrev pub filled : List (Option (List ℕ)) → ℕ
filled [] = 0
filled (none ∷ parts) = filled parts
filled (some part ∷ parts) = suc (filled parts)

pub filled_le : (parts : List (Option (List ℕ))) → filled parts ≤ length parts
filled_le [] = omega arith
filled_le (none ∷ parts) = omega (arith, filled_le parts)
filled_le (some part ∷ parts) = omega (arith, filled_le parts)

pub length-set {ℓ} : {A : Type ℓ} (xs : List A) (i : ℕ) (v : A) → length (set xs i v) ≡ length xs
length-set [] i v = refl
length-set (x ∷ xs) zero v = refl
length-set (x ∷ xs) (suc i) v = ap suc (length-set xs i v)

pub filled-set :
    (parts : List (Option (List ℕ))) (i : ℕ) (part : List ℕ)
    → get_elem? parts i ≡ some none
    → filled (set parts i (some part)) ≡ filled parts + 1
filled-set [] i part h = ground arith
filled-set (none ∷ parts) zero part h = omega arith
filled-set (some kept ∷ parts) zero part h = ground arith
filled-set (none ∷ parts) (suc i) part h = filled-set parts i part h
filled-set (some kept ∷ parts) (suc i) part h = omega (arith, filled-set parts i part h)

filled_none : (n : ℕ) → filled (replicate n none) ≡ 0
filled_none zero = refl
filled_none (suc n) = filled_none n

-- No part is missing where as many are kept as there are.
pub filled-joined :
    (parts : List (Option (List ℕ)))
    → filled parts ≡ length parts
    → (stream : List ℕ) × (joined parts ≡ some stream)
unfolding joined
filled-joined [] h = ([], refl)
filled-joined (none ∷ parts) h = absurd (omega (arith, filled_le parts))
filled-joined (some part ∷ parts) h =
    let (stream, e) = filled-joined parts (omega arith) in (part ++ stream, rw e refl)

pub record IsCounted (r : ResourceReceiver) : Type 0 where
  pub aligned : length r.hashmap ≡ length r.parts
  pub counted : r.received ≡ filled r.parts

length-set_entries :
    (hashes : List (List ℕ)) (index : ℕ) (hashmap : List (Option (List ℕ)))
    → length (set_entries hashes index hashmap) ≡ length hashmap
unfolding set_entries
length-set_entries [] index hashmap = refl
length-set_entries (hash ∷ hashes) index hashmap =
    length-set_entries hashes (index + 1) (set hashmap index (some hash))
    ∙ length-set hashmap index (some hash)

apply-IsCounted :
    (segment : ℕ) (bytes : List ℕ) (r : ResourceReceiver)
    → IsCounted r
    → IsCounted (apply_hashmap_segment segment bytes r)
unfolding apply_hashmap_segment
apply-IsCounted segment bytes r v = record {
  aligned = length-set_entries (read_hashes (length bytes) bytes) _ r.hashmap ∙ v.aligned;
  counted = v.counted;
}

fresh-IsCounted :
    (now : ℕ) (adv : ResourceAdvertisement) (link_id : AddressHash)
    → IsCounted (fresh now adv link_id)
unfolding fresh
fresh-IsCounted now adv link_id = record { aligned = refl; counted = sym (filled_none adv.parts) }

pub new-IsCounted :
    (now : ℕ) (adv : ResourceAdvertisement) (link_id : AddressHash) (r : ResourceReceiver)
    → new now adv link_id ≡ ok r
    → IsCounted r
unfolding new
new-IsCounted now adv link_id r h =
    ground (
      arith,
      apply-IsCounted (adv.segment_index - 1) adv.hashmap _ (fresh-IsCounted now adv link_id),
    )

pub update-IsCounted :
    (update : ResourceHashUpdate) (r : ResourceReceiver)
    → IsCounted r
    → IsCounted (handle_hash_update update r)
unfolding handle_hash_update
update-IsCounted update r v = ground (arith, apply-IsCounted update.segment update.hashmap r v)

pub store-IsCounted :
    (now index : ℕ) (part : List ℕ) (r : ResourceReceiver)
    → IsCounted r
    → IsCounted (store_part now index part r)
unfolding store_part
store-IsCounted now index part r v =
    ground (arith, length-set r.parts index (some part), filled-set r.parts index part)

finish-IsCounted :
    (sha256 : List ℕ → Hash) (bunzip : List ℕ → Option (List ℕ)) (link : LinkCipher)
    (r : ResourceReceiver)
    → IsCounted r
    → IsCounted (finish sha256 bunzip link r).0
unfolding finish
finish-IsCounted sha256 bunzip link r v = ground arith

place-IsCounted :
    (sha256 : List ℕ → Hash) (bunzip : List ℕ → Option (List ℕ)) (link : LinkCipher) (now : ℕ)
    (part : List ℕ) (r : ResourceReceiver) (found : Option ℕ)
    → IsCounted r
    → IsCounted (place sha256 bunzip link now part r found).0
unfolding place
place-IsCounted sha256 bunzip link now part r none v = v
place-IsCounted sha256 bunzip link now part r (some index) v =
    finish-IsCounted sha256 bunzip link (store_part now index part r)
      (store-IsCounted now index part r v)

-- Every part that arrives keeps the hash map as long as the parts, and the count of received
-- parts equal to the number of parts kept.
pub handle_part-IsCounted :
    (sha256 : List ℕ → Hash) (bunzip : List ℕ → Option (List ℕ)) (link : LinkCipher) (now : ℕ)
    (part : List ℕ) (r : ResourceReceiver)
    → IsCounted r
    → IsCounted (handle_part sha256 bunzip link now part r).0
unfolding handle_part
handle_part-IsCounted sha256 bunzip link now part r v = ground (
  arith,
  place-IsCounted sha256 bunzip link now part r
      (position (known_as (map_hash sha256 part r.origin.random_hash)) r.hashmap) v,
)
