-- ===== src/Packet/Digest/Fragments.antt =====
-- `fragment_for_lxmf` loses nothing and exceeds no packet.
use styrene_rs.Base.{
  [], ℕ, zero, suc, ◌≤◌, min, ◌≡◌, refl, ap, ◌∙◌, List, ◌∷◌, ◌++◌, arith, length, take, drop, All,
  length-take, length-drop, take-append-drop, take_ge, ok,
}
use styrene_rs.Buffer.StaticBuffer.{as_slice, new_from_slice}
use styrene_rs.Buffer.StaticBuffer.Refinement.{as_slice-new_from_slice}
use styrene_rs.Packet.Codec.{Packet, packet_mdu}
use styrene_rs.Packet.Digest.{lxmf_max_payload, fragment_loop, fragment_for_lxmf}

-- The data of the packets, one behind the other.
abbrev pub joined : List Packet → List ℕ
joined [] = []
joined (p ∷ ps) = as_slice p.body ++ joined ps

abbrev pub FitsPayload : Packet → Type 0
FitsPayload p = (1 ≤ length (as_slice p.body)) × (length (as_slice p.body) ≤ lxmf_max_payload)

chunk_kept :
    (xs : List ℕ)
    → as_slice (new_from_slice packet_mdu (take lxmf_max_payload xs)) ≡ take lxmf_max_payload xs
chunk_kept xs =
    as_slice-new_from_slice packet_mdu (take lxmf_max_payload xs)
    ∙ take_ge packet_mdu (take lxmf_max_payload xs) (omega (arith, length-take lxmf_max_payload xs))

fragment_loop_lem :
    (fuel : ℕ) (xs : List ℕ)
    → length xs ≤ fuel
    → (joined (fragment_loop fuel xs) ≡ xs) × All FitsPayload (fragment_loop fuel xs)
unfolding fragment_loop
fragment_loop_lem fuel [] h = (refl, tt)
fragment_loop_lem zero (x ∷ xs) h = absurd (omega arith)
fragment_loop_lem (suc fuel) (x ∷ xs) h =
    let rest : List ℕ = drop lxmf_max_payload (x ∷ xs) in
    let later =
      fragment_loop_lem fuel rest (omega (arith, length-drop lxmf_max_payload (x ∷ xs))) in
    let kept = chunk_kept (x ∷ xs) in
    let size : length (as_slice (new_from_slice packet_mdu (take lxmf_max_payload (x ∷ xs))))
        ≡ min 400 (length (x ∷ xs)) =
      ap length kept ∙ length-take lxmf_max_payload (x ∷ xs) in
    (
      ap (λ l. l ++ joined (fragment_loop fuel rest)) kept
          ∙ ap (λ l. take lxmf_max_payload (x ∷ xs) ++ l) later.0
          ∙ take-append-drop lxmf_max_payload (x ∷ xs),
      ((omega (arith, size), omega (arith, size)), later.1),
    )

-- fragment_for_lxmf never fails; its packets hold the data in order, each with at least one byte
-- and at most the LXMF payload.
pub fragment_for_lxmf_lem :
    (bytes : List ℕ)
    → (ps : List Packet) × (fragment_for_lxmf bytes ≡ ok ps)
      × (joined ps ≡ bytes)
      × All FitsPayload ps
unfolding fragment_for_lxmf
fragment_for_lxmf_lem bytes =
    let (whole, fit) = fragment_loop_lem (length bytes) bytes (omega arith) in
    (fragment_loop (length bytes) bytes, refl, whole, fit)
