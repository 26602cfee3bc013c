-- ===== src/Packet/Codec.antt =====
-- The packet, and its conversion to and from bytes (`Packet::to_bytes`, `Packet::from_bytes`).
pub mod RoundTrip
pub mod Parsing
use styrene_rs.Base.{
  ◌>>=◌, [], ℕ, ◌+◌, Option, none, some, List, ◌∷◌, ◌++◌, ltb, if◌then◌else◌, length, get_or, take,
  drop, Result, ok, err,
}
use styrene_rs.Error.{RnsError, invalid_argument}
use styrene_rs.Hash.{AddressHash, address_hash_size, new_empty}
use styrene_rs.Buffer.StaticBuffer
use styrene_rs.Buffer.StaticBuffer.{StaticBuffer, new_from_slice, as_slice}
use styrene_rs.Packet.Header.{Header, HeaderType, type1, type2, to_meta, from_meta, default_header}
use styrene_rs.Packet.Context.{PacketContext, none_context, context_code, context_from}

abbrev pub packet_mdu : ℕ
packet_mdu = 464

pub record PacketIfac : Type 0 where
  pub access_code : List ℕ
  pub ifac_length : ℕ

pub record Packet : Type 0 where
  pub header : Header
  pub ifac : Option PacketIfac
  pub destination : AddressHash
  pub transport : Option AddressHash
  pub context : PacketContext
  pub body : StaticBuffer

-- `Default::default`
unfoldable pub default_packet : Packet
unfolding StaticBuffer.new
default_packet = record {
  header = default_header;
  ifac = none;
  destination = new_empty;
  transport = none;
  context = none_context;
  body = StaticBuffer.new packet_mdu;
}

-- The transport address of a type-2 packet, and the index behind it.
unfoldable pub read_transport : List ℕ → HeaderType → Result RnsError (Option AddressHash × ℕ)
read_transport bytes type1 = ok (none, 2)
read_transport bytes type2 =
    if ltb (length bytes) (2 + address_hash_size)
    then err invalid_argument
    else ok (some (take address_hash_size (drop 2 bytes)), 2 + address_hash_size)

-- The destination, the context and the data, from index `idx` on.
unfoldable pub read_rest : List ℕ → Header → Option AddressHash → ℕ → Result RnsError Packet
read_rest bytes header transport idx =
    if ltb (length bytes) (idx + address_hash_size + 1)
    then err invalid_argument
    else ok (record {
      header = header;
      ifac = none;
      destination = take address_hash_size (drop idx bytes);
      transport = transport;
      context = context_from (get_or bytes (idx + address_hash_size) 0);
      body = new_from_slice packet_mdu (drop (idx + address_hash_size + 1) bytes);
    })

unfoldable pub from_bytes : List ℕ → Result RnsError Packet
unfolding read_transport read_rest
from_bytes bytes =
    if ltb (length bytes) (2 + address_hash_size + 1) then err invalid_argument else do
      let meta = from_meta (get_or bytes 0 0)
      let header = record meta { hops = get_or bytes 1 0 }
      (transport, idx) ← read_transport bytes header.header_type
      read_rest bytes header transport idx

-- The transport address that a type-2 packet must have.
unfoldable pub written_transport : HeaderType → Option AddressHash → Result RnsError (List ℕ)
written_transport type1 transport = ok []
written_transport type2 none = err invalid_argument
written_transport type2 (some t) = ok t

unfoldable pub to_bytes : Packet → Result RnsError (List ℕ)
unfolding written_transport
to_bytes p = do
  transport ← written_transport p.header.header_type p.transport
  ok (
      to_meta p.header
      ∷ p.header.hops
      ∷ (transport ++ (p.destination ++ (context_code p.context ∷ as_slice p.body))))
