-- ===== src/Transport/Resource/Messages/RoundTrip.antt =====
-- The messages of a transfer are read back as they were written.
use styrene_rs.Base.{
  [], ℕ, zero, suc, ◌+◌, ◌*◌, ◌≤◌, ◌≡◌, refl, Bool, true, false, Option, none, some, List, ◌∷◌,
  ◌++◌, arith, ltb, leb, length, take, drop, All, length-append, take-append_len, drop-append_len,
  take_ge, le→ltb, le→leb, ok, if◌then◌else◌,
}
use styrene_rs.Hash.{Hash, hash_size}
use styrene_rs.Transport.Resource.{maphash_len}
use styrene_rs.Transport.Resource.Messages.{
  ResourceRequest, ResourceProof, copy_fixed, copy_hash, concat, read_hashes, last_bytes,
  exhausted_bytes, encode_request, decode_rest, decode_request, encode_proof, decode_proof,
}

abbrev pub IsHash : List ℕ → Type 0
IsHash hash = length hash ≡ hash_size

abbrev pub IsMapHash : List ℕ → Type 0
IsMapHash hash = length hash ≡ maphash_len

pub copy_fixed_exact : (n : ℕ) (xs : List ℕ) → length xs ≡ n → copy_fixed n xs ≡ ok xs
unfolding copy_fixed
copy_fixed_exact n xs h =
    let test : ltb (length xs) n ≡ false = le→ltb _ _ (omega arith) in
    rw (test, take_ge n xs (omega arith)) refl

pub copy_hash_exact : (xs : List ℕ) → IsHash xs → copy_hash xs ≡ ok xs
unfolding copy_hash
copy_hash_exact xs h = copy_fixed_exact hash_size xs h

pub length-concat : (hs : List (List ℕ)) → All IsMapHash hs → length (concat hs) ≡ 4 * length hs
unfolding concat
length-concat [] h = refl
length-concat (x ∷ hs) h = omega (arith, length-append x (concat hs), length-concat hs h.1, h.0)

pub read_hashes-concat :
    (fuel : ℕ) (hs : List (List ℕ))
    → All IsMapHash hs
    → length hs ≤ fuel
    → read_hashes fuel (concat hs) ≡ hs
unfolding read_hashes concat
read_hashes-concat zero [] h enough = refl
read_hashes-concat (suc fuel) [] h enough = refl
read_hashes-concat zero (x ∷ hs) h enough = absurd (omega arith)
read_hashes-concat (suc fuel) (x ∷ hs) h enough =
    let test : leb maphash_len (length (x ++ concat hs)) ≡ true =
      le→leb _ _ (omega (arith, length-append x (concat hs), h.0)) in
    rw
      (
        test,
        take-append_len maphash_len x (concat hs) h.0,
        drop-append_len maphash_len x (concat hs) h.0,
        read_hashes-concat fuel hs h.1 (omega arith),
      )
      refl

decode_rest_lem :
    (exhausted : Bool) (last : Option (List ℕ)) (hash : Hash) (hs : List (List ℕ))
    → IsHash hash
    → All IsMapHash hs
    → decode_rest exhausted last (hash ++ concat hs)
      ≡ ok (record {
        hashmap_exhausted = exhausted;
        last_map_hash = last;
        resource_hash = hash;
        requested_hashes = hs;
      })
unfolding decode_rest
decode_rest_lem exhausted last hash hs n h =
    let front : take hash_size (hash ++ concat hs) ≡ hash =
      take-append_len hash_size hash (concat hs) n in
    let back : drop hash_size (hash ++ concat hs) ≡ concat hs =
      drop-append_len hash_size hash (concat hs) n in
    let enough : length hs ≤ length (hash ++ concat hs) =
      omega (arith, length-append hash (concat hs), length-concat hs h) in
    rw
      (
        front,
        copy_hash_exact hash n,
        back,
        read_hashes-concat (length (hash ++ concat hs)) hs h enough,
      )
      refl

pub record IsRequest (r : ResourceRequest) : Type 0 where
  pub hash_len : IsHash r.resource_hash
  pub hashes_len : All IsMapHash r.requested_hashes
  pub last_len : (hash : List ℕ) → r.last_map_hash ≡ some hash → IsMapHash hash

last_bytes_len :
    (last : Option (List ℕ))
    → ((hash : List ℕ) → last ≡ some hash → IsMapHash hash)
    → IsMapHash (last_bytes last)
last_bytes_len none h = refl
last_bytes_len (some hash) h = h hash refl

open_lem :
    (last : Option (List ℕ)) (hash : Hash) (hs : List (List ℕ))
    → IsHash hash
    → All IsMapHash hs
    → decode_request (
        encode_request (record {
          hashmap_exhausted = false;
          last_map_hash = last;
          resource_hash = hash;
          requested_hashes = hs;
        }))
      ≡ ok (record {
        hashmap_exhausted = false;
        last_map_hash = none;
        resource_hash = hash;
        requested_hashes = hs;
      })
unfolding decode_request encode_request exhausted_bytes
open_lem last hash hs n h =
    let test : ltb (length (0 ∷ (hash ++ concat hs))) (1 + hash_size) ≡ false =
      le→ltb _ _ (omega (arith, length-append hash (concat hs))) in
    rw (test, decode_rest_lem false none hash hs n h) refl

exhausted_lem :
    (last : Option (List ℕ)) (hash : Hash) (hs : List (List ℕ))
    → IsHash hash
    → All IsMapHash hs
    → IsMapHash (last_bytes last)
    → decode_request (
        encode_request (record {
          hashmap_exhausted = true;
          last_map_hash = last;
          resource_hash = hash;
          requested_hashes = hs;
        }))
      ≡ ok (record {
        hashmap_exhausted = true;
        last_map_hash = some (last_bytes last);
        resource_hash = hash;
        requested_hashes = hs;
      })
unfolding decode_request encode_request exhausted_bytes
exhausted_lem last hash hs n h m =
    let tail : List ℕ = hash ++ concat hs in
    let written : List ℕ = last_bytes last ++ tail in
    let size : length written ≡ 4 + length tail =
      omega (arith, length-append (last_bytes last) tail) in
    let short : ltb (length (0xff ∷ written)) (1 + hash_size) ≡ false =
      le→ltb _ _ (omega (arith, size, length-append hash (concat hs))) in
    let long : ltb (length (0xff ∷ written)) (1 + maphash_len + hash_size) ≡ false =
      le→ltb _ _ (omega (arith, size, length-append hash (concat hs))) in
    let front : take maphash_len written ≡ last_bytes last =
      take-append_len maphash_len (last_bytes last) tail m in
    let back : drop maphash_len written ≡ tail =
      drop-append_len maphash_len (last_bytes last) tail m in
    rw (short, long, front, back, decode_rest_lem true (some (last_bytes last)) hash hs n h) refl

-- What is read back of a request.
abbrev pub read_back : ResourceRequest → ResourceRequest
read_back r = record r {
  last_map_hash = if r.hashmap_exhausted then some (last_bytes r.last_map_hash) else none;
}

by_flag :
    (exhausted : Bool) (last : Option (List ℕ)) (hash : Hash) (hs : List (List ℕ))
    → IsHash hash
    → All IsMapHash hs
    → IsMapHash (last_bytes last)
    → let r : ResourceRequest = record {
      hashmap_exhausted = exhausted;
      last_map_hash = last;
      resource_hash = hash;
      requested_hashes = hs;
    } in
      decode_request (encode_request r) ≡ ok (read_back r)
by_flag true last hash hs n h m = exhausted_lem last hash hs n h m
by_flag false last hash hs n h m = open_lem last hash hs n h

pub decode_request-encode_request :
    (r : ResourceRequest) → IsRequest r → decode_request (encode_request r) ≡ ok (read_back r)
decode_request-encode_request r v =
    by_flag r.hashmap_exhausted r.last_map_hash r.resource_hash r.requested_hashes v.hash_len
      v.hashes_len (last_bytes_len r.last_map_hash v.last_len)

pub decode_proof-encode_proof :
    (p : ResourceProof)
    → IsHash p.resource_hash
    → IsHash p.proof
    → decode_proof (encode_proof p) ≡ ok p
unfolding decode_proof encode_proof
decode_proof-encode_proof p n m =
    let test : ltb (length (p.resource_hash ++ p.proof)) (hash_size * 2) ≡ false =
      le→ltb _ _ (omega (arith, length-append p.resource_hash p.proof)) in
    rw
      (
        test,
        take-append_len hash_size p.resource_hash p.proof n,
        copy_hash_exact p.resource_hash n,
        drop-append_len hash_size p.resource_hash p.proof n,
        take_ge hash_size p.proof (omega arith),
        copy_hash_exact p.proof m,
      )
      refl
