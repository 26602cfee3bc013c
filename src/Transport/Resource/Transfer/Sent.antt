-- ===== src/Transport/Resource/Transfer/Sent.antt =====
-- What a sender prepares is put together by the receiver, and proven to the sender.
use styrene_rs.Base.{
  [], ℕ, ◌+◌, ◌^◌, ◌≤◌, ◌<◌, ◌≡◌, refl, ap, true, false, Option, List, ◌∷◌, ◌++◌, arith, ltb,
  length, length-append, drop-append_len, Bool-cases, inl, inr, ok,
}
use styrene_rs.Base.Bytes.{bytes_eq, bytes_eq_iff}
use styrene_rs.Hash.{Hash}
use styrene_rs.Buffer.StaticBuffer.{as_slice}
use styrene_rs.Packet.Codec.{Packet, packet_mdu}
use styrene_rs.Packet.Header.{proof}
use styrene_rs.Packet.Context.{resource_proof}
use styrene_rs.Crypt.Fernet.{iv_key_size}
use styrene_rs.Transport.Link.Cipher
use styrene_rs.Transport.Link.Cipher.{LinkCipher, encrypted_len}
use styrene_rs.Transport.Resource.{random_hash_size}
use styrene_rs.Transport.Resource.Messages.{ResourceProof, encode_proof}
use styrene_rs.Transport.Resource.Messages.RoundTrip.{copy_hash_exact}
use styrene_rs.Transport.Resource.Utils.Packets.{build_plain}
use styrene_rs.Transport.Resource.Sender.{Draws, metadata_prefix, divide, prepare}
use styrene_rs.Transport.Resource.Sender.Cutting.{has_some, split_metadata-metadata_prefix}
use styrene_rs.Transport.Resource.Receiver.Assembly.{
  Origin, ResourcePayload, unwrapped, proven, verified, recover,
}
use styrene_rs.Transport.Resource.Transfer.Offer.{IsDigest}

module _ (sha256 : List ℕ → Hash) (link : LinkCipher) (draws : Draws) (metadata : Option (List ℕ))
    (prefix bytes : List ℕ) where
  abbrev pub combined : List ℕ
  combined = prefix ++ bytes

  abbrev pub resource_digest : Hash
  resource_digest = sha256 (combined ++ draws.random_hash)

  abbrev pub proof_digest : Hash
  proof_digest = sha256 (combined ++ resource_digest)

  abbrev pub plain_len : ℕ
  plain_len = length (draws.leading ++ combined)

  -- Prepared: for any data, with metadata that is not too long.
  pub prepare_lem :
      IsDigest sha256
      → Cipher.IsLawful link
      → metadata_prefix metadata ≡ ok prefix
      → length draws.data_iv ≡ iv_key_size
      → encrypted_len plain_len < 2 ^ 64
      → (token : List ℕ) × (prepare sha256 link draws bytes metadata
          ≡ ok (divide sha256 draws metadata combined resource_digest proof_digest token))
        × (length token ≡ encrypted_len plain_len)
        × (link.decrypt token (length token + 64) ≡ ok (draws.leading ++ combined))
  unfolding prepare
  prepare_lem digests laws fits n small =
      let (token, sealed, size, opens) =
        laws.opens draws.data_iv (draws.leading ++ combined) (plain_len + 128) n small
          (omega arith) in
      (
        token,
        rw
            (
              fits,
              copy_hash_exact resource_digest (digests _),
              copy_hash_exact proof_digest (digests _),
              sealed,
            )
            refl,
        size,
        opens (length token + 64) (omega arith),
      )

  abbrev pub sent_origin : Origin
  sent_origin = record {
    resource_hash = resource_digest;
    random_hash = draws.random_hash;
    encrypted = true;
    compressed = false;
    has_metadata = has_some metadata;
  }

  module _ (bunzip : List ℕ → Option (List ℕ)) where
    unwrapped_lem :
        (token : List ℕ)
        → length draws.leading ≡ random_hash_size
        → link.decrypt token (length token + 64) ≡ ok (draws.leading ++ combined)
        → unwrapped sha256 bunzip link sent_origin token ≡ ok combined
    unfolding unwrapped
    unwrapped_lem token n opens = elim (Bool-cases (ltb random_hash_size plain_len)) [
      | inl long ↦ rw (opens, long, drop-append_len random_hash_size draws.leading combined n) refl
      | inr short ↦
          rw (opens, short)
            (ap ok (nothing combined (ground (arith, length-append draws.leading combined))))
    ]
      where
        nothing : (xs : List ℕ) → length xs ≡ 0 → [] ≡ xs
        nothing [] e = refl
        nothing (x ∷ xs) e = absurd (omega arith)

    abbrev pub receipt : ResourceProof
    receipt = record { resource_hash = resource_digest; proof = proof_digest }

    abbrev pub sent_payload : ResourcePayload
    sent_payload = record { bytes = bytes; metadata = metadata }

    proven_lem :
        IsDigest sha256
        → (packet : Packet) × (proven sha256 bunzip link sent_origin combined sent_payload
            ≡ ok (packet, sent_payload))
          × (as_slice packet.body ≡ encode_proof receipt)
    unfolding proven
    proven_lem digests =
        let size : length (encode_proof receipt) ≤ packet_mdu =
          unfold encode_proof in
          omega (
            arith,
            length-append resource_digest proof_digest,
            digests (combined ++ draws.random_hash),
            digests (combined ++ resource_digest),
          ) in
        let (packet, built, body) =
          build_plain link [] proof resource_proof (encode_proof receipt) refl size in
        (packet, rw (copy_hash_exact proof_digest (digests _), built) refl, body)

    pub recover_lem :
        (token : List ℕ)
        → IsDigest sha256
        → metadata_prefix metadata ≡ ok prefix
        → length draws.leading ≡ random_hash_size
        → link.decrypt token (length token + 64) ≡ ok (draws.leading ++ combined)
        → (packet : Packet) × (recover sha256 bunzip link sent_origin token
            ≡ ok (packet, sent_payload))
          × (as_slice packet.body ≡ encode_proof receipt)
    unfolding recover verified
    recover_lem token digests fits n opens =
        let (packet, done, body) = proven_lem digests in
        let same : bytes_eq resource_digest resource_digest ≡ true =
          (bytes_eq_iff resource_digest resource_digest).1 refl in
        (
          packet,
          rw
              (
                unwrapped_lem token n opens,
                split_metadata-metadata_prefix metadata prefix bytes fits,
                copy_hash_exact resource_digest (digests _),
                same,
                done,
              )
              refl,
          body,
        )
