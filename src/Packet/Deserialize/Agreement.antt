-- ===== src/Packet/Deserialize/Agreement.antt =====
-- Reading a packet from a buffer of crates/libs/styrene-rns/src/buffer.rs against reading it from a slice.
use styrene_rs.Base.{
  [], ℕ, min, ◌+◌, ◌-◌, ◌≤◌, ◌≡◌, refl, sym, ap, ◌∙◌, Option, none, some, List, ◌∷◌, arith, le→ltb,
  length, get_or, take, drop, length-drop, take_ge, drop-get_or, ok,
}
use styrene_rs.Base.Stateful.{◌>>=◌, answer, bind_ok}
use styrene_rs.Buffer.StaticBuffer
use styrene_rs.Buffer.StaticBuffer.{new_from_slice}
use styrene_rs.Buffer.InputBuffer
use styrene_rs.Buffer.InputBuffer.{InputBuffer, read, read_byte, bytes_left}
use styrene_rs.Hash.{AddressHash, address_hash_size}
use styrene_rs.Packet.Header.{Header, HeaderType, type1, type2, from_meta}
use styrene_rs.Packet.Context.{PacketContext, context_from}
use styrene_rs.Packet.Codec.{packet_mdu, from_bytes}
use styrene_rs.Packet.Codec.Parsing.{
  body_index, shortest, wire_header, wire_transport, wire_packet, from_bytes_lem,
}
use styrene_rs.Packet.Deserialize.{
  deserialize_header, deserialize_address, deserialize_context, deserialize_transport, deserialize,
  filled, packed, read_data, deserialize_fields,
}

abbrev at : List ℕ → ℕ → InputBuffer
at bytes offset = record { buffer = bytes; offset = offset }

read-at :
    (bytes : List ℕ) (offset size : ℕ)
    → offset + size ≤ length bytes
    → read (at bytes offset) size ≡ (at bytes (offset + size), ok (take size (drop offset bytes)))
unfolding read
read-at bytes offset size fits = rw (le→ltb (length bytes) (offset + size) fits) refl

read_byte-at :
    (bytes : List ℕ) (offset : ℕ)
    → offset + 1 ≤ length bytes
    → read_byte (at bytes offset) ≡ (at bytes (offset + 1), ok (get_or bytes offset 0))
unfolding read_byte
read_byte-at bytes offset fits =
    rw (read-at bytes offset 1 fits, drop-get_or offset bytes 0 (omega (arith, fits))) refl

whole_body :
    (l : List ℕ) → length l ≤ packet_mdu → new_from_slice packet_mdu l ≡ filled l (length l)
unfolding new_from_slice StaticBuffer.safe_write StaticBuffer.write StaticBuffer.new
whole_body [] fits = refl
whole_body (x ∷ xs) fits =
    let cut : min (length (x ∷ xs)) (packet_mdu - 0) ≡ length (x ∷ xs) = omega (arith, fits) in
    let same = take_ge (length (x ∷ xs)) (x ∷ xs) (omega arith) in
    let whole : take (min (length (x ∷ xs)) (packet_mdu - 0)) (x ∷ xs) ≡ x ∷ xs =
      ap (λ n. take n (x ∷ xs)) cut ∙ same in
    rw (new_from_slice, StaticBuffer.safe_write, StaticBuffer.write, whole) (ground (arith, fits))

header_at :
    (bytes : List ℕ)
    → 2 ≤ length bytes
    → deserialize_header (at bytes 0) ≡ (at bytes 2, ok (wire_header bytes))
unfolding deserialize_header
header_at bytes long =
    let first = read_byte-at bytes 0 (omega (arith, long)) in
    let second = read_byte-at bytes 1 (omega (arith, long)) in
    bind_ok read_byte
      (λ meta. read_byte >>= λ hops. answer (record (from_meta meta) { hops = hops })) (at bytes 0)
      (at bytes 1) (get_or bytes 0 0) first
    ∙ bind_ok read_byte (λ hops. answer (record (from_meta (get_or bytes 0 0)) { hops = hops }))
        (at bytes 1) (at bytes 2) (get_or bytes 1 0) second

data_at :
    (bytes : List ℕ) (n : ℕ) (h : Header) (transport : Option AddressHash) (d : AddressHash)
    (c : PacketContext)
    → n ≤ length bytes
    → length bytes ≤ n + packet_mdu
    → read_data h transport d c (at bytes n) ≡ (
      at bytes (length bytes),
      ok (record {
        header = h;
        ifac = none;
        destination = d;
        transport = transport;
        context = c;
        body = new_from_slice packet_mdu (drop n bytes);
      }),
    )
unfolding read_data bytes_left
data_at bytes n h transport d c long fits =
    let size = length-drop n bytes in
    let all : n + (length bytes - n) ≡ length bytes = omega (arith, long) in
    let size_left : ℕ = length bytes - n in
    let whole = take_ge size_left (drop n bytes) (omega (arith, size)) in
    let got : read (at bytes n) size_left ≡ (at bytes (length bytes), ok (drop n bytes)) =
      read-at bytes n size_left (omega (arith, all))
      ∙ ap (λ k. (at bytes k, ok (take size_left (drop n bytes)))) all
      ∙ ap (λ l. (at bytes (length bytes), ok l)) whole in
    let body : filled (drop n bytes) size_left ≡ new_from_slice packet_mdu (drop n bytes) =
      ap (filled (drop n bytes)) (sym size)
      ∙ sym (whole_body (drop n bytes) (omega (arith, size, fits))) in
    rw (read_data, le→ltb packet_mdu size_left (omega (arith, fits)))
      (ap (packed h transport d c size_left) got
        ∙ ap
            (λ x. (
              at bytes (length bytes),
              ok (record {
                header = h;
                ifac = none;
                destination = d;
                transport = transport;
                context = c;
                body = x;
              }),
            ))
            body)

-- The fields after the transport address, which start at `n`.
fields_at :
    (bytes : List ℕ) (n : ℕ) (h : Header) (transport : Option AddressHash)
    → n + address_hash_size + 1 ≤ length bytes
    → length bytes ≤ n + address_hash_size + 1 + packet_mdu
    → deserialize_fields h transport (at bytes n) ≡ (
      at bytes (length bytes),
      ok (record {
        header = h;
        ifac = none;
        destination = take address_hash_size (drop n bytes);
        transport = transport;
        context = context_from (get_or bytes (n + address_hash_size) 0);
        body = new_from_slice packet_mdu (drop (n + address_hash_size + 1) bytes);
      }),
    )
fields_at bytes n h transport long fits =
    let destination = take address_hash_size (drop n bytes) in
    let place : ℕ = n + address_hash_size in
    let context = context_from (get_or bytes place 0) in
    let code = read_byte-at bytes place (omega (arith, long)) in
    bind_ok deserialize_address (λ d. deserialize_context >>= λ c. read_data h transport d c)
      (at bytes n) (at bytes place) destination
      (unfold deserialize_address in read-at bytes n address_hash_size (omega (arith, long)))
    ∙ bind_ok deserialize_context (λ c. read_data h transport destination c) (at bytes place)
        (at bytes (place + 1)) context
        (unfold deserialize_context in
          bind_ok read_byte (λ code. answer (context_from code)) (at bytes place)
            (at bytes (place + 1)) (get_or bytes place 0) code)
    ∙ data_at bytes (place + 1) h transport destination context (omega (arith, long))
        (omega (arith, fits))

transport_at :
    (bytes : List ℕ) (t : HeaderType)
    → body_index t ≤ length bytes
    → deserialize_transport t (at bytes 2) ≡ (at bytes (body_index t), ok (wire_transport bytes t))
unfolding deserialize_transport
transport_at bytes type1 long = refl
transport_at bytes type2 long =
    bind_ok deserialize_address (λ transport. answer (some transport)) (at bytes 2) (at bytes 18)
      (take 16 (drop 2 bytes))
      (unfold deserialize_address in read-at bytes 2 16 (omega (arith, long)))

-- Of an input that holds the header, the addresses and the context byte and no more than
-- PACKET_MDU bytes of data, deserialize on a new buffer reads the packet that from_bytes reads,
-- and leaves no byte unread.
pub deserialize-from_bytes :
    (bytes : List ℕ)
    → shortest bytes ≤ length bytes
    → length bytes ≤ shortest bytes + packet_mdu
    → (let (b, packet) = deserialize (InputBuffer.new bytes) in
        (packet ≡ from_bytes bytes) × (bytes_left b ≡ 0))
unfolding deserialize InputBuffer.new bytes_left
deserialize-from_bytes bytes long fits =
    let h = wire_header bytes in
    let t = h.header_type in
    let n = body_index t in
    let read : deserialize (at bytes 0) ≡ (at bytes (length bytes), ok (wire_packet bytes h t)) =
      bind_ok deserialize_header
        (λ header. deserialize_transport header.header_type >>= λ transport.
          deserialize_fields header transport)
        (at bytes 0) (at bytes 2) h (header_at bytes (omega (arith, long)))
      ∙ bind_ok (deserialize_transport t) (λ transport. deserialize_fields h transport) (at bytes 2)
          (at bytes n) (wire_transport bytes t) (transport_at bytes t (omega (arith, long)))
      ∙ fields_at bytes n h (wire_transport bytes t) (omega (arith, long)) (omega (arith, fits)) in
    (ap (λ p. p.1) read ∙ sym ((from_bytes_lem bytes).1 long), rw read (omega arith))
