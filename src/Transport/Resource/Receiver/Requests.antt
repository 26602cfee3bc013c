-- ===== src/Transport/Resource/Receiver/Requests.antt =====
-- What a receiver asks for.
use styrene_rs.Base.{
  [], ℕ, ◌+◌, ◌≤◌, ◌<◌, ◌≡◌, refl, Bool, true, false, Option, none, some, List, ◌∷◌, arith, leb,
  length, All, ◌⊎◌, inl, if◌then◌else◌,
}
use styrene_rs.Transport.Resource.{window}
use styrene_rs.Transport.Resource.Receiver.{ResourceReceiver, scan, build_request}

-- The hash of a slot whose part is missing.
pub data Missing : List (Option (List ℕ)) → List (Option (List ℕ)) → List ℕ → Type 0 where
  here :
      {hash : List ℕ} {hashes parts : List (Option (List ℕ))}
      → Missing (some hash ∷ hashes) (none ∷ parts) hash
  later :
      {hash : List ℕ} {entry part : Option (List ℕ)} {hashes parts : List (Option (List ℕ))}
      → Missing hashes parts hash
      → Missing (entry ∷ hashes) (part ∷ parts) hash

abbrev pub requests_of : (List (List ℕ) × Option (List ℕ) × Bool) → List (List ℕ)
requests_of answer = answer.0

weaken :
    (entry part : Option (List ℕ)) (hashes parts : List (Option (List ℕ))) (xs : List (List ℕ))
    → All (Missing hashes parts) xs
    → All (Missing (entry ∷ hashes) (part ∷ parts)) xs
weaken entry part hashes parts [] h = tt
weaken entry part hashes parts (x ∷ xs) h = (later h.0, weaken entry part hashes parts xs h.1)

scan_bounded :
    (count : ℕ) (last : Option (List ℕ)) (hashes parts : List (Option (List ℕ)))
    → count < window
    → count + length (requests_of (scan count last hashes parts)) ≤ window
unfolding scan
scan_bounded count last [] parts h = ground arith
scan_bounded count last (none ∷ hashes) parts h = ground arith
scan_bounded count last (some hash ∷ hashes) [] h = ground arith
scan_bounded count last (some hash ∷ hashes) (some part ∷ parts) h =
    scan_bounded count (some hash) hashes parts h
scan_bounded count last (some hash ∷ hashes) (none ∷ parts) h =
    ground (arith, scan_bounded (count + 1) (some hash) hashes parts)

scan-Missing :
    (count : ℕ) (last : Option (List ℕ)) (hashes parts : List (Option (List ℕ)))
    → All (Missing hashes parts) (requests_of (scan count last hashes parts))
unfolding scan
scan-Missing count last [] parts = tt
scan-Missing count last (none ∷ hashes) parts = tt
scan-Missing count last (some hash ∷ hashes) [] = tt
scan-Missing count last (some hash ∷ hashes) (some part ∷ parts) =
    weaken (some hash) (some part) hashes parts _ (scan-Missing count (some hash) hashes parts)
scan-Missing count last (some hash ∷ hashes) (none ∷ parts) =
    elim (leb window (count + 1))
      as (λ full. All (Missing (some hash ∷ hashes) (none ∷ parts)) (
        requests_of (
          if full then (hash ∷ [], some hash, false) else (
            hash ∷ (scan (count + 1) (some hash) hashes parts).0,
            (scan (count + 1) (some hash) hashes parts).1,
            (scan (count + 1) (some hash) hashes parts).2,
          )))) [
            | true ↦ (here, tt)
            | false ↦ (
              here,
              weaken (some hash) none hashes parts _
                  (scan-Missing (count + 1) (some hash) hashes parts),
            )
          ]

scan_asks :
    (count : ℕ) (last : Option (List ℕ)) (hashes parts : List (Option (List ℕ))) (wanted : List ℕ)
    → Missing hashes parts wanted
    → ((scan count last hashes parts).2 ≡ true)
      ⊎ (0 < length (requests_of (scan count last hashes parts)))
unfolding scan
scan_asks count last [] parts wanted h = elim h [ ]
scan_asks count last (some hash ∷ hashes) [] wanted h = elim h [ ]
scan_asks count last (none ∷ hashes) parts wanted h = inl refl
scan_asks count last (some hash ∷ hashes) (none ∷ parts) wanted h = ground arith
scan_asks count last (some hash ∷ hashes) (some part ∷ parts) wanted (later h) =
    scan_asks count (some hash) hashes parts wanted h

window_bound :
    (hashes parts : List (Option (List ℕ)))
    → length (requests_of (scan 0 none hashes parts)) ≤ window
window_bound hashes parts = omega (arith, scan_bounded 0 none hashes parts (omega arith))

-- A request asks for at most WINDOW hashes, each the hash of a slot whose part is missing.
pub build_request_bounded :
    (r : ResourceReceiver)
    → (length (build_request r).requested_hashes ≤ window)
      × All (Missing r.hashmap r.parts) (build_request r).requested_hashes
unfolding build_request
build_request_bounded r = (window_bound r.hashmap r.parts, scan-Missing 0 none r.hashmap r.parts)

-- Where a part with a known hash is missing, the request asks for a part or says that the hash
-- map is exhausted.
pub build_request_asks :
    (r : ResourceReceiver) (hash : List ℕ)
    → Missing r.hashmap r.parts hash
    → ((build_request r).hashmap_exhausted ≡ true) ⊎ (0 < length (build_request r).requested_hashes)
unfolding build_request
build_request_asks r hash h = scan_asks 0 none r.hashmap r.parts hash h
