-- ===== src/Packet/Digest.antt =====
-- The digest by which packets are told apart (`Packet::hash`), and the cut of long data into
-- packets (`Packet::fragment_for_lxmf`). The digest function is an argument.
pub mod Fragments
use styrene_rs.Base.{
  [], ℕ, zero, suc, ◌+◌, ◌-◌, ◌*◌, bit_and, ◌≡◌, sym, ◌∙◌, List, ◌∷◌, ◌++◌, length, take, drop,
  Result, ok,
}
use styrene_rs.Error.{RnsError}
use styrene_rs.Hash.{Hash}
use styrene_rs.Crypt.Fernet.{fernet_overhead_size, fernet_max_padding_size}
use styrene_rs.Buffer.StaticBuffer.{as_slice, new_from_slice}
use styrene_rs.Packet.Header.{to_meta, destination_type_code, packet_type_code}
use styrene_rs.Packet.Header.Meta.{low_nibble-to_meta}
use styrene_rs.Packet.Context.{context_code}
use styrene_rs.Packet.Codec.{Packet, packet_mdu, default_packet}

-- `Packet::hash`
unfoldable pub packet_hash : (List ℕ → Hash) → Packet → Hash
packet_hash sha256 p =
    sha256 (
      bit_and (to_meta p.header) 15 ∷ (p.destination ++ (context_code p.context ∷ as_slice p.body)))

-- Packets that agree in destination type, packet type, destination, context and data have one
-- digest: hop count, header type, propagation, transport address and access code do not enter
-- it.
pub packet_hash_same :
    (sha256 : List ℕ → Hash) (p q : Packet)
    → p.header.destination_type ≡ q.header.destination_type
    → p.header.packet_type ≡ q.header.packet_type
    → p.destination ≡ q.destination
    → p.context ≡ q.context
    → p.body ≡ q.body
    → packet_hash sha256 p ≡ packet_hash sha256 q
unfolding packet_hash
packet_hash_same sha256 p q ed ep ea ec eb =
    let types : destination_type_code p.header.destination_type * 4
          + packet_type_code p.header.packet_type
        ≡ destination_type_code q.header.destination_type * 4
          + packet_type_code q.header.packet_type =
      λ i. destination_type_code (ed i) * 4 + packet_type_code (ep i) in
    let e : bit_and (to_meta p.header) 15 ≡ bit_and (to_meta q.header) 15 =
      low_nibble-to_meta p.header ∙ types ∙ sym (low_nibble-to_meta q.header) in
    λ i. sha256 (e i ∷ (ea i ++ (context_code (ec i) ∷ as_slice (eb i))))

abbrev pub lxmf_max_payload : ℕ
lxmf_max_payload = packet_mdu - fernet_overhead_size - fernet_max_padding_size

-- `data.chunks(LXMF_MAX_PAYLOAD)`, each in a packet; a chunk is not empty, so the length is fuel.
unfoldable pub fragment_loop : ℕ → List ℕ → List Packet
fragment_loop fuel [] = []
fragment_loop zero (x ∷ xs) = []
fragment_loop (suc fuel) (x ∷ xs) =
    record default_packet { body = new_from_slice packet_mdu (take lxmf_max_payload (x ∷ xs)) }
    ∷ fragment_loop fuel (drop lxmf_max_payload (x ∷ xs))

unfoldable pub fragment_for_lxmf : List ℕ → Result RnsError (List Packet)
unfolding fragment_loop
fragment_for_lxmf bytes = ok (fragment_loop (length bytes) bytes)
