-- ===== src/Packet/Codec/RoundTrip.antt =====
-- `from_bytes` and `to_bytes` undo one another.
use styrene_rs.Base.{
  [], ℕ, suc, ◌+◌, ◌≤◌, ◌≡◌, refl, sym, ap, ◌∙◌, false, Option, none, some, List, ◌∷◌, ◌++◌,
  append_assoc, arith, ltb, le→ltb, length, get_or, take, drop, length-append, drop-drop,
  take-append_len, drop-append_len, get_or-append_len, Result, ok, ◌>>=◌,
}
use styrene_rs.Error.{RnsError}
use styrene_rs.Hash.{AddressHash, address_hash_size}
use styrene_rs.Buffer.StaticBuffer.{new_from_slice, as_slice}
use styrene_rs.Packet.Header.{Header, HeaderType, type1, type2, to_meta, from_meta}
use styrene_rs.Packet.Header.Meta.{from_meta-to_meta}
use styrene_rs.Packet.Context.{context_code, context_from, context_from-context_code}
use styrene_rs.Packet.Codec.{
  Packet, packet_mdu, read_transport, read_rest, from_bytes, written_transport, to_bytes,
}

-- An address has its sixteen bytes, and a transport address stands exactly in type-2 packets.
abbrev pub IsRouted : HeaderType → Option AddressHash → Type 0
IsRouted type1 none = Unit
IsRouted type1 (some t) = ⊥
IsRouted type2 none = ⊥
IsRouted type2 (some t) = length t ≡ address_hash_size

pub record IsValid (p : Packet) : Type 0 where
  pub no_ifac : p.ifac ≡ none
  pub routed : IsRouted p.header.header_type p.transport
  pub destination_size : length p.destination ≡ address_hash_size

-- What comes back: the same packet, its data in a fresh buffer.
abbrev pub rebuilt : Packet → Packet
rebuilt p = record p { body = new_from_slice packet_mdu (as_slice p.body) }

read_rest-append :
    (front destination rest : List ℕ) (context : ℕ) (header : Header)
    (transport : Option AddressHash) (idx : ℕ)
    → length front ≡ idx
    → length destination ≡ address_hash_size
    → read_rest (front ++ (destination ++ (context ∷ rest))) header transport idx
      ≡ ok (record {
        header = header;
        ifac = none;
        destination = destination;
        transport = transport;
        context = context_from context;
        body = new_from_slice packet_mdu rest;
      })
unfolding read_rest
read_rest-append front destination rest context header transport idx hf hd =
    let bytes : List ℕ = front ++ (destination ++ (context ∷ rest)) in
    let long : idx + address_hash_size + 1 ≤ length bytes = omega (
      arith,
      length-append front (destination ++ (context ∷ rest)),
      length-append destination (context ∷ rest),
    ) in
    let at_context : bytes ≡ (front ++ destination) ++ (context ∷ rest) =
      sym (append_assoc front destination (context ∷ rest)) in
    let before : length (front ++ destination) ≡ idx + address_hash_size =
      omega (arith, length-append front destination) in
    let e₁ : take address_hash_size (drop idx bytes) ≡ destination =
      ap (take address_hash_size) (drop-append_len idx front _ hf)
      ∙ take-append_len address_hash_size destination _ hd in
    let e₂ : get_or bytes (idx + address_hash_size) 0 ≡ context =
      ap (λ l. get_or l (idx + address_hash_size) 0) at_context
      ∙ get_or-append_len (idx + address_hash_size) (front ++ destination) context rest 0 before in
    let e₃ : drop (idx + address_hash_size + 1) bytes ≡ rest =
      ap (drop (idx + address_hash_size + 1)) at_context
      ∙ sym (drop-drop (idx + address_hash_size) 1 _)
      ∙ ap (drop 1) (
          drop-append_len (idx + address_hash_size) (front ++ destination) (context ∷ rest)
            before) in
    rw (le→ltb _ _ long) (λ i. ok (record {
      header = header;
      ifac = none;
      destination = e₁ i;
      transport = transport;
      context = context_from (e₂ i);
      body = new_from_slice packet_mdu (e₃ i);
    }))

-- The header comes back from its two bytes.
header_back : (h : Header) → (let meta = from_meta (to_meta h) in record meta { hops = h.hops }) ≡ h
header_back h = ap (λ (m : Header). record m { hops = h.hops }) (from_meta-to_meta h)

-- `from_bytes` behind the test of the minimum length, on the decoded header.
abbrev decode_with : List ℕ → Header → Result RnsError Packet
decode_with bytes header =
    read_transport bytes header.header_type >>= λ (t, idx). read_rest bytes header t idx

from_bytes-decode_with :
    (h : Header) (tail : List ℕ)
    → address_hash_size + 1 ≤ length tail
    → from_bytes (to_meta h ∷ h.hops ∷ tail) ≡ decode_with (to_meta h ∷ h.hops ∷ tail) h
unfolding from_bytes
from_bytes-decode_with h tail long =
    let enough : ltb (suc (suc (length tail))) (2 + address_hash_size + 1) ≡ false =
      le→ltb _ _ (omega arith) in
    rw enough (ap (decode_with (to_meta h ∷ h.hops ∷ tail)) (header_back h))

abbrev sent : Option AddressHash → List ℕ
sent none = []
sent (some t) = t

decode_with_lem :
    (h : Header) (t : HeaderType) (transport : Option AddressHash) (destination rest : List ℕ)
    (context : ℕ)
    → h.header_type ≡ t
    → IsRouted t transport
    → length destination ≡ address_hash_size
    → decode_with (to_meta h ∷ h.hops ∷ (sent transport ++ (destination ++ (context ∷ rest)))) h
      ≡ ok (record {
        header = h;
        ifac = none;
        destination = destination;
        transport = transport;
        context = context_from context;
        body = new_from_slice packet_mdu rest;
      })
unfolding read_transport
decode_with_lem h type1 none destination rest context e routed hd =
    let bytes : List ℕ = to_meta h ∷ h.hops ∷ (destination ++ (context ∷ rest)) in
    ap (λ t. read_transport bytes t >>= λ (t, idx). read_rest bytes h t idx) e
    ∙ read_rest-append (to_meta h ∷ h.hops ∷ []) destination rest context h none 2 refl hd
decode_with_lem h type1 (some x) destination rest context e routed hd = absurd routed
decode_with_lem h type2 none destination rest context e routed hd = absurd routed
decode_with_lem h type2 (some x) destination rest context e routed hd =
    let bytes : List ℕ = to_meta h ∷ h.hops ∷ (x ++ (destination ++ (context ∷ rest))) in
    let long : 2 + address_hash_size ≤ length bytes =
      omega (arith, length-append x (destination ++ (context ∷ rest))) in
    let read_back : take address_hash_size (x ++ (destination ++ (context ∷ rest))) ≡ x =
      take-append_len _ x _ routed in
    let front : 18 ≡ length (to_meta h ∷ h.hops ∷ x) = omega arith in
    ap (λ t. read_transport bytes t >>= λ (t, idx). read_rest bytes h t idx) e
    ∙ rw (le→ltb _ _ long) (ap (λ t. read_rest bytes h (some t) 18) read_back)
    ∙ read_rest-append (to_meta h ∷ h.hops ∷ x) destination rest context h (some x) 18 (sym front)
        hd

written_transport-sent :
    (t : HeaderType) (transport : Option AddressHash)
    → IsRouted t transport
    → written_transport t transport ≡ ok (sent transport)
unfolding written_transport
written_transport-sent type1 none r = refl
written_transport-sent type1 (some x) r = absurd r
written_transport-sent type2 none r = absurd r
written_transport-sent type2 (some x) r = refl

-- A valid packet (no access code, a transport address exactly for type 2, addresses of 16 bytes)
-- is written and read back with the same header, addresses and context, its data being the bytes
-- in use of the data buffer.
pub from_bytes-to_bytes : (p : Packet) → IsValid p → (to_bytes p >>= from_bytes) ≡ ok (rebuilt p)
unfolding to_bytes
from_bytes-to_bytes p v =
    let tail : List ℕ = p.destination ++ (context_code p.context ∷ as_slice p.body) in
    let whole : List ℕ = sent p.transport ++ tail in
    let long : address_hash_size + 1 ≤ length whole = omega (
      arith,
      v.destination_size,
      length-append (sent p.transport) tail,
      length-append p.destination (context_code p.context ∷ as_slice p.body),
    ) in
    rw (written_transport-sent p.header.header_type p.transport v.routed) (
      from_bytes-decode_with p.header whole long
      ∙ decode_with_lem p.header p.header.header_type p.transport p.destination (as_slice p.body)
          (context_code p.context) refl v.routed v.destination_size
      ∙ λ i. ok (record {
        header = p.header;
        ifac = sym v.no_ifac i;
        destination = p.destination;
        transport = p.transport;
        context = context_from-context_code p.context i;
        body = new_from_slice packet_mdu (as_slice p.body);
      }))
