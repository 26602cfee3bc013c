-- ===== src/Transport/Resource/Transfer/Complete.antt =====
-- The transfer from end to end: prepared, advertised, delivered in parts, and proven.
use mathlib.Core.List.{Memᴰ}
use mathlib.Core.Path.{subst}
use styrene_rs.Base.{
  [], ℕ, zero, suc, ◌∷◌, ◌+◌, ◌^◌, ◌≤◌, ◌<◌, ◌≡◌, refl, ap, ◌∙◌, sym, true, Option, some, List,
  ◌++◌, arith, length, get_elem?, ok,
}
use styrene_rs.Base.Bytes.{bytes_eq, bytes_eq_iff}
use styrene_rs.Hash.{Hash, AddressHash}
use styrene_rs.Buffer.StaticBuffer.{as_slice}
use styrene_rs.Packet.Codec.{Packet, packet_mdu}
use styrene_rs.Packet.Header.{payload}
use styrene_rs.Packet.Context.{resource_advrtisement}
use styrene_rs.Crypt.Fernet.{iv_key_size}
use styrene_rs.Transport.Link.Cipher
use styrene_rs.Transport.Link.Cipher.{LinkCipher, encrypted_len}
use styrene_rs.Transport.Resource.{hashmap_max_len, complete, random_hash_size}
use styrene_rs.Transport.Resource.Messages.{MessagePack, ResourceProof, pack, decode_proof}
use styrene_rs.Transport.Resource.Messages.RoundTrip.{decode_proof-encode_proof}
use styrene_rs.Transport.Resource.Utils.{build_link_packet}
use styrene_rs.Transport.Resource.Sender
use styrene_rs.Transport.Resource.Sender.{
  Draws, Prepared, ResourceSender, metadata_prefix, prepare, divide,
}
use styrene_rs.Transport.Resource.Sender.Cutting.{chunks_lem}
use styrene_rs.Transport.Resource.Sender.Polling.{handle_proof}
use styrene_rs.Transport.Resource.Receiver
use styrene_rs.Transport.Resource.Receiver.{ResourceReceiver, completed}
use styrene_rs.Transport.Resource.Receiver.Assembly.{Origin, recover}
use styrene_rs.Transport.Resource.Receiver.Safety.{bind-ok}
use styrene_rs.Transport.Resource.Transfer.Slots.{Distinct, Kept-length}
use styrene_rs.Transport.Resource.Transfer.Delivery.{arrive, arrive_completes}
use styrene_rs.Transport.Resource.Transfer.Offer.{
  IsDigest, new_receiver, first_receiver, first-Tracks, first_empty,
}
use styrene_rs.Transport.Resource.Transfer.Sent.{
  resource_digest, proof_digest, sent_origin, prepare_lem, recover_lem,
}

get_elem?_lt {ℓ} :
    {A : Type ℓ} (xs : List A) (i : ℕ) {v : A} → get_elem? xs i ≡ some v → i < length xs
get_elem?_lt [] i e = ground arith
get_elem?_lt (x ∷ xs) zero e = omega arith
get_elem?_lt (x ∷ xs) (suc i) e = omega (arith, get_elem?_lt xs i e)

-- What a new sender takes over of what was prepared.
sender_fields :
    (sha256 : List ℕ → Hash) (link : LinkCipher) (msgpack : MessagePack) (draws : Draws) (now : ℕ)
    (bytes : List ℕ) (metadata : Option (List ℕ)) (p : Prepared) (s : ResourceSender)
    → prepare sha256 link draws bytes metadata ≡ ok p
    → Sender.new sha256 link msgpack draws now bytes metadata ≡ ok s
    → (s.resource_hash ≡ p.offer.hash) × (s.expected_proof ≡ p.expected_proof)
unfolding Sender.new
sender_fields sha256 link msgpack draws now bytes metadata p s e h =
    let (p', e', rest) = bind-ok (prepare sha256 link draws bytes metadata) _ h in
    let (packed, packs, rest') = bind-ok (pack msgpack p'.offer) _ rest in
    let (packet, builds, rest'') =
      bind-ok (build_link_packet link draws.advertisement_iv payload resource_advrtisement packed) _
        rest' in
    let same : p' ≡ p = ground (arith, e, e') in
    let hash : p'.offer.hash ≡ s.resource_hash = ground (arith, rest'') in
    let proof : p'.expected_proof ≡ s.expected_proof = ground (arith, rest'') in
    (
      sym hash ∙ ap (λ (q : Prepared). q.offer.hash) same,
      sym proof ∙ ap (λ (q : Prepared). q.expected_proof) same,
    )

accepted :
    (s : ResourceSender) (hash proof : Hash)
    → s.resource_hash ≡ hash
    → s.expected_proof ≡ proof
    → handle_proof (record { resource_hash = hash; proof = proof }) s
      ≡ (record s { status = complete }, true)
unfolding handle_proof
accepted s hash proof e d =
    let same : bytes_eq hash s.resource_hash ≡ true = (bytes_eq_iff _ _).1 (sym e) in
    let proven : bytes_eq proof s.expected_proof ≡ true = (bytes_eq_iff _ _).1 (sym d) in
    rw (same, proven) refl

module _ (sha256 : List ℕ → Hash) (link : LinkCipher) (msgpack : MessagePack)
    (bunzip : List ℕ → Option (List ℕ)) (draws : Draws) (metadata : Option (List ℕ))
    (prefix bytes : List ℕ) where
  -- What the receiver ends with, and what the sender makes of its proof.
  pub record Completes (p : Prepared) (s : ResourceSender) (now : ℕ) (link_id : AddressHash)
      (order : List ℕ) : Type 0 where
    pub receiver : ResourceReceiver
    pub accepts : Receiver.new now p.offer link_id ≡ ok receiver
    pub packet : Packet
    pub arrives :
        arrive sha256 p.parts bunzip link now order receiver
        ≡ completed packet (record { bytes = bytes; metadata = metadata })
    pub proof : ResourceProof
    pub proves : decode_proof (as_slice packet.body) ≡ ok proof
    pub is_accepted : handle_proof proof s ≡ (record s { status = complete }, true)

  divided-Completes :
      (token : List ℕ) (s : ResourceSender) (start now : ℕ) (link_id : AddressHash) (order : List ℕ)
      → IsDigest sha256
      → metadata_prefix metadata ≡ ok prefix
      → length draws.leading ≡ random_hash_size
      → 0 < length token
      → link.decrypt token (length token + 64) ≡ ok (draws.leading ++ (prefix ++ bytes))
      → let hash : Hash = resource_digest sha256 link draws metadata prefix bytes in
        let proof : Hash = proof_digest sha256 link draws metadata prefix bytes in
        let p : Prepared = divide sha256 draws metadata (prefix ++ bytes) hash proof token in
        prepare sha256 link draws bytes metadata ≡ ok p
        → Sender.new sha256 link msgpack draws start bytes metadata ≡ ok s
        → Distinct p.map_hashes
        → length p.parts ≤ hashmap_max_len
        → ((j : ℕ) → j < length p.parts → Memᴰ j order)
        → Completes p s now link_id order
  unfolding divide
  divided-Completes token s start now link_id order digests fits n some_bytes opens prepares made
        once few all =
      let hash : Hash = resource_digest sha256 link draws metadata prefix bytes in
      let proof : Hash = proof_digest sha256 link draws metadata prefix bytes in
      let p : Prepared = divide sha256 draws metadata (prefix ++ bytes) hash proof token in
      let r : ResourceReceiver =
        first_receiver sha256 draws metadata (prefix ++ bytes) hash proof token now link_id in
      let origin : Origin = sent_origin sha256 link draws metadata prefix bytes in
      let (whole, sizes, some_parts) =
        chunks_lem (length token) packet_mdu token (omega arith) (omega arith) in
      let (packet, opened, body) =
        recover_lem sha256 link draws metadata prefix bytes bunzip token digests fits n opens in
      let tracks =
        first-Tracks sha256 draws metadata (prefix ++ bytes) hash proof token now link_id digests
          few in
      let slots : length r.parts ≡ length p.parts = Kept-length p.parts r.parts tracks.kept in
      let empty =
        first_empty sha256 draws metadata (prefix ++ bytes) hash proof token now link_id in
      record {
        receiver = r;
        accepts =
            new_receiver sha256 draws metadata (prefix ++ bytes) hash proof token now link_id
              (some_parts some_bytes) sizes few;
        packet = packet;
        arrives =
            arrive_completes sha256 p.parts origin bunzip link once now order r packet
              (record { bytes = bytes; metadata = metadata }) tracks
              (omega (arith, empty, slots, some_parts some_bytes))
              (λ j e. all j (omega (arith, slots, get_elem?_lt r.parts j e)))
              (ap (recover sha256 bunzip link origin) whole ∙ opened);
        proof = record { resource_hash = hash; proof = proof };
        proves = ap decode_proof body ∙ decode_proof-encode_proof _ (digests _) (digests _);
        is_accepted =
            let (e, d) =
              sender_fields sha256 link msgpack draws start bytes metadata p s prepares made in
            accepted s hash proof e d;
      }

  -- Over a lawful link, for a digest function with digests of 32 bytes, a vector of 16 and
  -- leading random bytes of 4, metadata of a length that is allowed and a token below 2 ^ 64
  -- bytes: where a new sender has parts with distinct map hashes that fit one segment, the
  -- receiver made from its advertisement, given the parts in any order and any number of times
  -- so that each comes, completes with the same data and metadata, and the sender accepts the
  -- proof and is complete.
  pub transfer-Completes :
      (p : Prepared) (s : ResourceSender) (start now : ℕ) (link_id : AddressHash) (order : List ℕ)
      → IsDigest sha256
      → Cipher.IsLawful link
      → metadata_prefix metadata ≡ ok prefix
      → length draws.data_iv ≡ iv_key_size
      → length draws.leading ≡ random_hash_size
      → encrypted_len (length (draws.leading ++ (prefix ++ bytes))) < 2 ^ 64
      → prepare sha256 link draws bytes metadata ≡ ok p
      → Sender.new sha256 link msgpack draws start bytes metadata ≡ ok s
      → Distinct p.map_hashes
      → length p.parts ≤ hashmap_max_len
      → ((j : ℕ) → j < length p.parts → Memᴰ j order)
      → Completes p s now link_id order
  transfer-Completes p s start now link_id order digests laws fits v n small prepares made once few
        all =
      let (token, prepares', size, opens) =
        prepare_lem sha256 link draws metadata prefix bytes digests laws fits v small in
      let hash : Hash = resource_digest sha256 link draws metadata prefix bytes in
      let proof : Hash = proof_digest sha256 link draws metadata prefix bytes in
      let q : Prepared = divide sha256 draws metadata (prefix ++ bytes) hash proof token in
      let same : p ≡ q = ground (arith, prepares, prepares') in
      subst (λ x. Completes x s now link_id order) (sym same)
        (divided-Completes token s start now link_id order digests fits n (omega arith) opens
          prepares' made (subst (λ (x : Prepared). Distinct x.map_hashes) same once)
          (subst (λ (x : Prepared). length x.parts ≤ hashmap_max_len) same few)
          (subst (λ (x : Prepared). (j : ℕ) → j < length x.parts → Memᴰ j order) same all))
