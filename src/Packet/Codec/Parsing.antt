-- ===== src/Packet/Codec/Parsing.antt =====
-- `from_bytes` on any input: when it refuses, and that what it accepts is written back unchanged.
use styrene_rs.Base.{
  [], ℕ, ◌+◌, ◌≤◌, ◌<◌, ◌≡◌, refl, sym, ap, ◌∙◌, inl, inr, true, Option, none, some, List, ◌∷◌,
  ◌++◌, arith, ltb, ltb→lt, lt→ltb, le→ltb, Bool-cases, length, get_or, take, drop, length-drop,
  take-append-drop, take_ge, drop-drop, drop-get_or, Result, ok, err, ◌>>=◌,
}
use styrene_rs.Error.{RnsError, invalid_argument}
use styrene_rs.Base.Bytes.{All-get_or, AllBytes}
use styrene_rs.Hash.{AddressHash, address_hash_size}
use styrene_rs.Buffer.StaticBuffer.{new_from_slice, as_slice}
use styrene_rs.Buffer.StaticBuffer.Refinement.{as_slice-new_from_slice}
use styrene_rs.Packet.Header.{Header, HeaderType, type1, type2, to_meta, from_meta}
use styrene_rs.Packet.Header.Meta.{to_meta-from_meta}
use styrene_rs.Packet.Context.{context_code, context_from, names_context, context_code-context_from}
use styrene_rs.Packet.Codec.{
  Packet, packet_mdu, read_transport, read_rest, from_bytes, written_transport, to_bytes,
}

-- Where the destination of a packet starts.
abbrev pub body_index : HeaderType → ℕ
body_index type1 = 2
body_index type2 = 18

-- The header that the first two bytes hold.
abbrev pub wire_header : List ℕ → Header
wire_header bytes =
    let meta = from_meta (get_or bytes 0 0) in record meta { hops = get_or bytes 1 0 }

-- The shortest packet with that header: the destination and the context byte are there.
abbrev pub shortest : List ℕ → ℕ
shortest bytes = body_index (wire_header bytes).header_type + address_hash_size + 1

abbrev chain : List ℕ → Header → HeaderType → Result RnsError Packet
chain bytes h t = read_transport bytes t >>= λ (x, idx). read_rest bytes h x idx

chain_short :
    (bytes : List ℕ) (h : Header) (t : HeaderType)
    → length bytes < body_index t + address_hash_size + 1
    → chain bytes h t ≡ err invalid_argument
unfolding read_transport read_rest
chain_short bytes h type1 short = rw (lt→ltb _ _ short)
chain_short bytes h type2 short = ground arith

-- The transport address that a packet of either type carries.
abbrev pub wire_transport : List ℕ → HeaderType → Option AddressHash
wire_transport bytes type1 = none
wire_transport bytes type2 = some (take address_hash_size (drop 2 bytes))

-- The packet that a long enough input stands for.
abbrev pub wire_packet : List ℕ → Header → HeaderType → Packet
wire_packet bytes h t = record {
  header = h;
  ifac = none;
  destination = take address_hash_size (drop (body_index t) bytes);
  transport = wire_transport bytes t;
  context = context_from (get_or bytes (body_index t + address_hash_size) 0);
  body = new_from_slice packet_mdu (drop (body_index t + address_hash_size + 1) bytes);
}

chain_long :
    (bytes : List ℕ) (h : Header) (t : HeaderType)
    → body_index t + address_hash_size + 1 ≤ length bytes
    → chain bytes h t ≡ ok (wire_packet bytes h t)
unfolding read_transport read_rest
chain_long bytes h type1 long = rw (le→ltb _ _ long)
chain_long bytes h type2 long =
    let enough : 18 ≤ length bytes = omega arith in rw (le→ltb _ _ enough, le→ltb _ _ long)

body_index_ge : (t : HeaderType) → 2 ≤ body_index t
body_index_ge type1 = omega arith
body_index_ge type2 = omega arith

-- from_bytes refuses with InvalidArgument every input in which the context byte or anything
-- before it is missing, and reads every other one, each field from its place for the header
-- type, the data cut to PACKET_MDU bytes.
pub from_bytes_lem :
    (bytes : List ℕ)
    → (length bytes < shortest bytes → from_bytes bytes ≡ err invalid_argument)
      × (shortest bytes ≤ length bytes
          → from_bytes bytes
            ≡ ok (wire_packet bytes (wire_header bytes) (wire_header bytes).header_type))
unfolding from_bytes
from_bytes_lem bytes = elim (Bool-cases (ltb (length bytes) 19)) [
  | inl short ↦ (
    λ h. rw short,
    λ h. absurd (
        omega
          (arith, body_index_ge (wire_header bytes).header_type, ltb→lt (length bytes) 19 short)),
  )
  | inr enough ↦ (
    λ h. rw enough (chain_short bytes (wire_header bytes) (wire_header bytes).header_type h),
    λ h. rw enough (chain_long bytes (wire_header bytes) (wire_header bytes).header_type h),
  )
]

-- The byte at which the context stands.
abbrev pub context_byte : List ℕ → ℕ
context_byte bytes = get_or bytes (body_index (wire_header bytes).header_type + address_hash_size) 0

-- Destination, context and data, put together again.
rejoin :
    (n : ℕ) (xs : List ℕ)
    → n + address_hash_size + 1 ≤ length xs
    → length xs ≤ n + address_hash_size + 1 + packet_mdu
    → context_code (context_from (get_or xs (n + address_hash_size) 0))
      ≡ get_or xs (n + address_hash_size) 0
    → take address_hash_size (drop n xs)
        ++ (context_code (context_from (get_or xs (n + address_hash_size) 0))
            ∷ as_slice (new_from_slice packet_mdu (drop (n + address_hash_size + 1) xs)))
      ≡ drop n xs
rejoin n xs long fits named =
    let all_data : as_slice (new_from_slice packet_mdu (drop (n + address_hash_size + 1) xs))
        ≡ drop (n + address_hash_size + 1) xs =
      as_slice-new_from_slice packet_mdu (drop (n + address_hash_size + 1) xs)
      ∙ take_ge packet_mdu (drop (n + address_hash_size + 1) xs)
          (omega (arith, length-drop (n + address_hash_size + 1) xs)) in
    ap
      (λ l.
        take address_hash_size (drop n xs)
        ++ (context_code (context_from (get_or xs (n + address_hash_size) 0)) ∷ l))
      all_data
    ∙ ap (λ c. take address_hash_size (drop n xs) ++ (c ∷ drop (n + address_hash_size + 1) xs))
        named
    ∙ ap (λ l. take address_hash_size (drop n xs) ++ l)
        (sym (drop-get_or (n + address_hash_size) xs 0 (omega arith)))
    ∙ ap (λ l. take address_hash_size (drop n xs) ++ l) (sym (drop-drop n address_hash_size xs))
    ∙ take-append-drop address_hash_size (drop n xs)

to_bytes-wire_packet :
    (bytes : List ℕ) (h : Header) (t : HeaderType)
    → h.header_type ≡ t
    → body_index t + address_hash_size + 1 ≤ length bytes
    → length bytes ≤ body_index t + address_hash_size + 1 + packet_mdu
    → context_code (context_from (get_or bytes (body_index t + address_hash_size) 0))
      ≡ get_or bytes (body_index t + address_hash_size) 0
    → to_bytes (wire_packet bytes h t) ≡ ok (to_meta h ∷ h.hops ∷ drop 2 bytes)
unfolding to_bytes
to_bytes-wire_packet bytes h type1 e long fits named = rw (ap (λ t. written_transport t none) e) (
    unfold written_transport in
    ap (λ l. ok (to_meta h ∷ h.hops ∷ l)) (rejoin 2 bytes long fits named))
to_bytes-wire_packet bytes h type2 e long fits named =
    rw (ap (λ t. written_transport t (some (take address_hash_size (drop 2 bytes)))) e) (
      unfold written_transport in
      ap (λ l. ok (to_meta h ∷ h.hops ∷ (take address_hash_size (drop 2 bytes) ++ l)))
        (rejoin 18 bytes long fits named)
      ∙ ap (λ l. ok (to_meta h ∷ h.hops ∷ (take address_hash_size (drop 2 bytes) ++ l)))
          (sym (drop-drop 2 address_hash_size bytes))
      ∙ ap (λ l. ok (to_meta h ∷ h.hops ∷ l)) (take-append-drop address_hash_size (drop 2 bytes)))

first_two :
    (bytes : List ℕ)
    → AllBytes bytes
    → 2 ≤ length bytes
    → to_meta (wire_header bytes) ∷ (wire_header bytes).hops ∷ drop 2 bytes ≡ bytes
unfolding to_meta
first_two [] h long = absurd (omega arith)
first_two (m ∷ []) h long = absurd (omega arith)
first_two (m ∷ hops ∷ rest) h long = ap (λ x. x ∷ hops ∷ rest) (to_meta-from_meta m h.0)

-- Bytes (numbers below 256) that reach the end of the context byte, hold at most PACKET_MDU
-- bytes of data and have a context byte that names a context are read as a packet that is
-- written back as the same bytes.
pub to_bytes-from_bytes :
    (bytes : List ℕ)
    → AllBytes bytes
    → shortest bytes ≤ length bytes
    → length bytes ≤ shortest bytes + packet_mdu
    → names_context (context_byte bytes) ≡ true
    → (from_bytes bytes >>= to_bytes) ≡ ok bytes
to_bytes-from_bytes bytes all long fits named =
    let h = wire_header bytes in
    let n : ℕ = body_index h.header_type + address_hash_size in
    rw ((from_bytes_lem bytes).1 long) (
      to_bytes-wire_packet bytes h h.header_type refl long fits
        (context_code-context_from (get_or bytes n 0) (All-get_or n bytes all) named)
      ∙ ap ok (first_two bytes all (omega (arith, body_index_ge h.header_type))))
