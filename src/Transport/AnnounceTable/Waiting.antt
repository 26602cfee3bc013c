-- ===== src/Transport/AnnounceTable/Waiting.antt =====
-- What `add_response` of crates/libs/styrene-rns/src/transport/core_transport/announce_table.rs leaves
-- in the table for the destination that it accepts.
use styrene_rs.Base.{
  ℕ, ◌+◌, ◌≡◌, refl, sym, ◌∙◌, inl, inr, true, false, none, some, arith, Option-cases,
}
use styrene_rs.Base.Keys.{bytes_key, ==_refl, lookup, remove, lookup-remove}
use styrene_rs.Base.Ordered.{lookup-put}
use styrene_rs.Hash.{AddressHash}
use styrene_rs.Transport.AnnounceEntry.{AnnounceEntry}
use styrene_rs.Transport.AnnounceCache
use styrene_rs.Transport.AnnounceCache.{AnnounceCache}
use styrene_rs.Transport.AnnounceTable.{
  AnnounceTable, path_response_grace, do_add_response, add_response,
}
use styrene_rs.Transport.AnnounceTable.Ordering.{IsOrdered, operations-IsOrdered}

-- A response whose retries are used up but for one, and which waits until `end`.
pub record Waits (destination : AddressHash) (end : ℕ) (t : AnnounceTable) : Type 0 where
  pub ordered : IsOrdered t
  pub response : AnnounceEntry
  pub stored : lookup destination t.responses ≡ some response
  pub last_retry : response.retries ≡ t.retry_limit
  pub until : response.timeout ≡ end
  pub off_map : lookup destination t.map ≡ none

response_stored :
    (asked hops : ℕ) (destination to_iface : AddressHash) (e : AnnounceEntry) (t : AnnounceTable)
    → IsOrdered (do_add_response asked e destination to_iface hops t)
    → lookup destination t.map ≡ none
    → Waits destination
        (asked + path_response_grace)
        (do_add_response asked e destination to_iface hops t)
unfolding do_add_response
response_stored asked hops destination to_iface e t o absent = record {
  ordered = o;
  response = record e {
    retries = t.retry_limit;
    hops = hops;
    timeout = asked + path_response_grace;
    response_to_iface = some to_iface;
  };
  stored = lookup-put destination destination _ t.responses ∙ rw (==_refl destination) refl;
  last_retry = refl;
  until = refl;
  off_map = absent;
}

pub add_response-Waits :
    (asked hops : ℕ) (destination to_iface : AddressHash) (t : AnnounceTable)
    → IsOrdered t
    → (add_response asked destination to_iface hops t).1 ≡ true
    → Waits destination
        (asked + path_response_grace)
        (add_response asked destination to_iface hops t).0
add_response-Waits asked hops destination to_iface t o accepted =
    let o' = (operations-IsOrdered t o).1 asked hops destination to_iface in
    unfold add_response in
    elim (Option-cases (lookup destination t.map)) [
      | inr (e, present) ↦
          let found : (add_response asked destination to_iface hops t).0
              ≡ do_add_response asked e destination to_iface hops
                  (record t { map = remove destination t.map }) =
            rw (add_response, present) refl in
          rw found (
            response_stored asked hops destination to_iface e
              (record t { map = remove destination t.map }) (rw (sym found) o')
              (lookup-remove destination destination t.map ∙ rw (==_refl destination) refl))
      | inl absent ↦ elim (Option-cases (AnnounceCache.get destination t.cache)) [
        | inr (e, cached) ↦
            let found : (add_response asked destination to_iface hops t).0
                ≡ do_add_response asked e destination to_iface hops t =
              rw (add_response, absent, cached) refl in
            rw found
              (response_stored asked hops destination to_iface e t (rw (sym found) o') absent)
        | inl missing ↦ absurd (refused (rw (add_response, absent, missing) refl))
      ]
    ]
  where
    refused : (add_response asked destination to_iface hops t).1 ≡ false → ⊥
    refused denied = ground (arith, denied, accepted)

pub retry_limit-add_response :
    (asked hops : ℕ) (destination to_iface : AddressHash) (t : AnnounceTable)
    → (add_response asked destination to_iface hops t).0.retry_limit ≡ t.retry_limit
unfolding add_response do_add_response
retry_limit-add_response asked hops destination to_iface t = ground (
  arith,
  Option-cases (lookup destination t.map),
  Option-cases (AnnounceCache.get destination t.cache),
)
