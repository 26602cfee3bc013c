-- ===== src/Transport/Resource/Manager/Retries.antt =====
-- What the retry count of an incoming transfer counts.
use styrene_rs.Base.{
  [], ℕ, ◌+◌, ◌≤◌, ◌≡◌, refl, ap, ◌∙◌, sym, Option, none, some, List, ◌∷◌, arith, le→leb, false,
  Result, ok, err,
}
use styrene_rs.Base.Keys.{bytes_key, ==_refl, Map, remove}
use styrene_rs.Base.Retain.{remove_all}
use styrene_rs.Error.{RnsError}
use styrene_rs.Hash.{Hash, AddressHash}
use styrene_rs.Buffer.StaticBuffer.{as_slice}
use styrene_rs.Packet.Codec.{Packet}
use styrene_rs.Transport.Link.Cipher.{LinkCipher}
use styrene_rs.Transport.Resource.Messages.{ResourceRequest}
use styrene_rs.Transport.Resource.Utils.{position, map_hash}
use styrene_rs.Transport.Resource.Receiver.{
  ResourceReceiver, PartOutcome, incomplete, store_part, conclude, assemble, finish, place,
  handle_part, known_as, mark_request, retry_due, build_request,
}
use styrene_rs.Transport.Resource.Receiver.Assembly.{ResourcePayload, joined, recover}
use styrene_rs.Transport.Resource.Manager.{ResourceManager}
use styrene_rs.Transport.Resource.Manager.Polling.{due_requests, retry_requests}
use styrene_rs.Transport.Resource.Manager.Parts.{
  find_part, handle_resource_part_into, found_incomplete, PartFound, settle, progress_events,
  with_outcome,
}

module _ (sha256 : List ℕ → Hash) (bunzip : List ℕ → Option (List ℕ)) (link : LinkCipher) where
  conclude_count :
      (r : ResourceReceiver) (outcome : Result RnsError (Packet × ResourcePayload))
      → (conclude r outcome).0.retry_count ≡ r.retry_count
  unfolding conclude
  conclude_count r (ok (packet, content)) = refl
  conclude_count r (err e) = refl

  assemble_count :
      (r : ResourceReceiver) (stream : Option (List ℕ))
      → (assemble sha256 bunzip link r stream).0.retry_count ≡ r.retry_count
  unfolding assemble
  assemble_count r none = refl
  assemble_count r (some stream) = conclude_count r (recover sha256 bunzip link r.origin stream)

  finish_count :
      (r : ResourceReceiver) → (finish sha256 bunzip link r).0.retry_count ≡ r.retry_count
  unfolding finish
  finish_count r = ground (arith, assemble_count r (joined r.parts))

  store_count :
      (now index : ℕ) (part : List ℕ) (r : ResourceReceiver)
      → (store_part now index part r).retry_count ≡ r.retry_count
  unfolding store_part
  store_count now index part r = ground arith

  place_count :
      (now : ℕ) (part : List ℕ) (r : ResourceReceiver) (found : Option ℕ)
      → (place sha256 bunzip link now part r found).0.retry_count ≡ r.retry_count
  unfolding place
  place_count now part r none = refl
  place_count now part r (some index) =
      finish_count (store_part now index part r) ∙ store_count now index part r

  handle_part_count :
      (now : ℕ) (part : List ℕ) (r : ResourceReceiver)
      → (handle_part sha256 bunzip link now part r).0.retry_count ≡ r.retry_count
  unfolding handle_part
  handle_part_count now part r = ground (
    arith,
    place_count now part r
        (position (known_as (map_hash sha256 part r.origin.random_hash)) r.hashmap),
  )

-- A transfer that made its last request is removed, whatever the times are.
not_due :
    (now interval limit : ℕ) (r : ResourceReceiver)
    → limit ≤ r.retry_count
    → retry_due now interval limit r ≡ false
unfolding retry_due
not_due now interval limit r used = ground arith

due_one :
    (now interval limit : ℕ) (hash : Hash) (r : ResourceReceiver)
    → limit ≤ r.retry_count
    → due_requests now interval limit ((hash, r) ∷ []) ≡ ((hash, r) ∷ [], [], hash ∷ [])
unfolding due_requests
due_one now interval limit hash r used =
    rw (not_due now interval limit r used, le→leb _ _ used) refl

removed_one : (hash : Hash) (r : ResourceReceiver) → remove_all (hash ∷ []) ((hash, r) ∷ []) ≡ []
unfolding remove_all remove
removed_one hash r = rw (==_refl hash) refl

retry_removes :
    (now : ℕ) (hash : Hash) (r : ResourceReceiver) (m : ResourceManager)
    → m.retry_limit ≤ r.retry_count
    → m.incoming ≡ (hash, r) ∷ []
    → (retry_requests now m).0.incoming ≡ []
unfolding retry_requests
retry_removes now hash r m used e =
    ap
      (λ incoming.
        let answer = due_requests now m.retry_interval m.retry_limit incoming in
        remove_all answer.2 answer.0)
      e
    ∙ ap
        (λ (answer : Map Hash ResourceReceiver × List (AddressHash × ResourceRequest) × List Hash).
          remove_all answer.2 answer.0)
        (due_one now m.retry_interval m.retry_limit hash r used)
    ∙ removed_one hash r

module _ (sha256 : List ℕ → Hash) (bunzip : List ℕ → Option (List ℕ)) (link : LinkCipher) where
  found_lem :
      (now : ℕ) (part : List ℕ) (hash : Hash) (r r' : ResourceReceiver)
      → handle_part sha256 bunzip link now part r ≡ (r', incomplete)
      → find_part sha256 bunzip link now part ((hash, r) ∷ []) ≡ (
        (hash, mark_request now r') ∷ [],
        found_incomplete (build_request r') (progress_events hash r r'),
      )
  unfolding find_part with_outcome
  found_lem now part hash r r' h =
      ap (with_outcome now hash r [] (find_part sha256 bunzip link now part [])) h

  after_part :
      (iv : List ℕ) (now : ℕ) (packet : Packet) (hash : Hash) (r r' : ResourceReceiver)
      (m : ResourceManager)
      → handle_part sha256 bunzip link now (as_slice packet.body) r ≡ (r', incomplete)
      → m.incoming ≡ (hash, r) ∷ []
      → let m' = (handle_resource_part_into sha256 bunzip link iv now packet m).0 in
        (m'.incoming ≡ (hash, mark_request now r') ∷ []) × (m'.retry_limit ≡ m.retry_limit)
  unfolding handle_resource_part_into settle
  after_part iv now packet hash r r' m h e =
      let seen =
        ap (find_part sha256 bunzip link now (as_slice packet.body)) e
        ∙ found_lem now (as_slice packet.body) hash r r' h in
      let settled =
        ap (λ (p : Map Hash ResourceReceiver × PartFound). (settle link iv m p.0 p.1).0) seen in
      (
        ap (λ (n : ResourceManager). n.incoming) settled,
        ap (λ (n : ResourceManager). n.retry_limit) settled,
      )

  -- In a manager with one incoming transfer, a part of it that leaves it incomplete counts as a
  -- retry: where the retry count was one below the limit (of a u8) or more, the next
  -- retry_requests removes the transfer, at whatever time it runs.
  pub progressing_dropped :
      (iv : List ℕ) (now later : ℕ) (packet : Packet) (hash : Hash) (r r' : ResourceReceiver)
      (m : ResourceManager)
      → handle_part sha256 bunzip link now (as_slice packet.body) r ≡ (r', incomplete)
      → m.incoming ≡ (hash, r) ∷ []
      → m.retry_limit ≤ r.retry_count + 1
      → m.retry_limit ≤ 255
      → let m' = (handle_resource_part_into sha256 bunzip link iv now packet m).0 in
        (retry_requests later m').0.incoming ≡ []
  progressing_dropped iv now later packet hash r r' m h e used small =
      let m' : ResourceManager = (handle_resource_part_into sha256 bunzip link iv now packet m).0 in
      let (kept, limit) = after_part iv now packet hash r r' m h e in
      let same : r'.retry_count ≡ r.retry_count =
        sym (ap (λ (p : ResourceReceiver × PartOutcome). p.0.retry_count) h)
        ∙ handle_part_count sha256 bunzip link now (as_slice packet.body) r in
      let counted : m'.retry_limit ≤ (mark_request now r').retry_count =
        unfold mark_request in ground arith in
      retry_removes later hash (mark_request now r') m' counted kept
