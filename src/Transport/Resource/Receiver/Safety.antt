-- ===== src/Transport/Resource/Receiver/Safety.antt =====
-- A transfer completes only with data that has the digest advertised.
use styrene_rs.Base.{
  ℕ, ◌≡◌, refl, ap, ◌∙◌, Option, none, some, List, ◌++◌, arith, Result, ok, err, ◌>>=◌,
}
use styrene_rs.Base.Bytes.{bytes_eq_iff}
use styrene_rs.Error.{RnsError}
use styrene_rs.Hash.{Hash}
use styrene_rs.Packet.Codec.{Packet}
use styrene_rs.Transport.Link.Cipher.{LinkCipher}
use styrene_rs.Transport.Resource.{complete}
use styrene_rs.Transport.Resource.Messages.{copy_hash}
use styrene_rs.Transport.Resource.Utils.{position, map_hash}
use mathlib.Core.Path.{subst}
use styrene_rs.Transport.Resource.Receiver.{
  ResourceReceiver, completed, known_as, conclude, assemble, store_part, finish, place, handle_part,
}
use styrene_rs.Transport.Resource.Receiver.Assembly.{
  Origin, ResourcePayload, joined, split_metadata, unwrapped, proven, verified, recover,
}

-- A chain that succeeds did so in each step.
pub bind-ok {ℓ κ} :
    {A : Type ℓ} {B : Type κ} (m : Result RnsError A) (f : A → Result RnsError B) {b : B}
    → (m >>= f) ≡ ok b
    → (a : A) × (m ≡ ok a) × (f a ≡ ok b)
bind-ok (ok a) f h = (a, refl, h)
bind-ok (err e) f h = cc

-- What is known of the bytes that a payload was cut from.
pub record Genuine (sha256 : List ℕ → Hash) (origin : Origin) (content : ResourcePayload)
    : Type 0 where
  pub payload : List ℕ
  pub digest : copy_hash (sha256 (payload ++ origin.random_hash)) ≡ ok origin.resource_hash
  pub cut : split_metadata origin.has_metadata payload ≡ ok content

conclude_completed :
    (r r' : ResourceReceiver) (outcome : Result RnsError (Packet × ResourcePayload))
    (packet : Packet) (content : ResourcePayload)
    → conclude r outcome ≡ (r', completed packet content)
    → (outcome ≡ ok (packet, content)) × (r'.status ≡ complete)
unfolding conclude
conclude_completed r r' (ok (packet', content')) packet content h = ground arith
conclude_completed r r' (err e) packet content h = ground arith

module _ (sha256 : List ℕ → Hash) (bunzip : List ℕ → Option (List ℕ)) (link : LinkCipher) where
  proven_same :
      (origin : Origin) (payload : List ℕ) (parts content : ResourcePayload) (packet : Packet)
      → proven sha256 bunzip link origin payload parts ≡ ok (packet, content)
      → parts ≡ content
  unfolding proven
  proven_same origin payload parts content packet h = ground arith

  verified_lem :
      (origin : Origin) (payload : List ℕ) (parts content : ResourcePayload) (packet : Packet)
      → verified sha256 bunzip link origin payload parts ≡ ok (packet, content)
      → (copy_hash (sha256 (payload ++ origin.random_hash)) ≡ ok origin.resource_hash)
        × (parts ≡ content)
  unfolding verified
  verified_lem origin payload parts content packet h =
      let (computed, digest, rest) =
        bind-ok (copy_hash (sha256 (payload ++ origin.random_hash))) _ h in
      ground (
        arith,
        bytes_eq_iff computed origin.resource_hash,
        proven_same origin payload parts content packet,
      )

  recover-Genuine :
      (origin : Origin) (stream : List ℕ) (packet : Packet) (content : ResourcePayload)
      → recover sha256 bunzip link origin stream ≡ ok (packet, content)
      → Genuine sha256 origin content
  unfolding recover
  recover-Genuine origin stream packet content h =
      let (payload, opened, rest) = bind-ok (unwrapped sha256 bunzip link origin stream) _ h in
      let (parts, cut, rest') = bind-ok (split_metadata origin.has_metadata payload) _ rest in
      let (digest, same) = verified_lem origin payload parts content packet rest' in
      record { payload = payload; digest = digest; cut = cut ∙ ap ok same }

  assemble-Genuine :
      (r r' : ResourceReceiver) (stream : Option (List ℕ)) (packet : Packet)
      (content : ResourcePayload)
      → assemble sha256 bunzip link r stream ≡ (r', completed packet content)
      → Genuine sha256 r.origin content × (r'.status ≡ complete)
  unfolding assemble
  assemble-Genuine r r' none packet content h = ground arith
  assemble-Genuine r r' (some stream) packet content h =
      let (done, status) = conclude_completed r r' _ packet content h in
      (recover-Genuine r.origin stream packet content done, status)

  finish-Genuine :
      (r r' : ResourceReceiver) (packet : Packet) (content : ResourcePayload)
      → finish sha256 bunzip link r ≡ (r', completed packet content)
      → Genuine sha256 r.origin content × (r'.status ≡ complete)
  unfolding finish
  finish-Genuine r r' packet content h =
      assemble-Genuine r r' (joined r.parts) packet content (ground arith)

  stored_origin :
      (now index : ℕ) (part : List ℕ) (r : ResourceReceiver)
      → (store_part now index part r).origin ≡ r.origin
  unfolding store_part
  stored_origin now index part r = ground arith

  place-Genuine :
      (now : ℕ) (part : List ℕ) (r r' : ResourceReceiver) (found : Option ℕ) (packet : Packet)
      (content : ResourcePayload)
      → place sha256 bunzip link now part r found ≡ (r', completed packet content)
      → Genuine sha256 r.origin content × (r'.status ≡ complete)
  unfolding place
  place-Genuine now part r r' none packet content h = ground arith
  place-Genuine now part r r' (some index) packet content h =
      let (genuine, status) = finish-Genuine (store_part now index part r) r' packet content h in
      (
        subst (λ origin. Genuine sha256 origin content) (stored_origin now index part r) genuine,
        status,
      )

  -- Where a part completes a transfer, from whatever peer, the data and metadata handed on are
  -- cut from bytes whose digest, with the random hash, is the resource hash advertised, and the
  -- status is Complete.
  pub handle_part-Genuine :
      (now : ℕ) (part : List ℕ) (r r' : ResourceReceiver) (packet : Packet)
      (content : ResourcePayload)
      → handle_part sha256 bunzip link now part r ≡ (r', completed packet content)
      → Genuine sha256 r.origin content × (r'.status ≡ complete)
  unfolding handle_part
  handle_part-Genuine now part r r' packet content h =
      place-Genuine now part r r'
        (position (known_as (map_hash sha256 part r.origin.random_hash)) r.hashmap) packet content
        (ground arith)
