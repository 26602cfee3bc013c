-- ===== src/Packet/Serde.antt =====
-- crates/libs/styrene-rns/src/serde.rs: packets written to and read from the buffers.
pub mod Serializing
use styrene_rs.Base.{ℕ, Option, none, some, [], ◌∷◌}
use styrene_rs.Hash.{AddressHash}
use styrene_rs.Packet.Header.{Header, HeaderType, type1, type2, to_meta}
use styrene_rs.Packet.Context.{PacketContext, context_code}
use styrene_rs.Packet.Codec.{Packet}
use styrene_rs.Buffer.StaticBuffer.{as_slice}
use styrene_rs.Buffer.OutputBuffer.{◌>>◌, ◌>>=◌, Writes, done, write}

-- `Serialize for Header`, `AddressHash` and `PacketContext`
unfoldable pub serialize_header : Header → Writes ℕ
serialize_header h = write (to_meta h ∷ h.hops ∷ [])

unfoldable pub serialize_address : AddressHash → Writes ℕ
serialize_address address = write address

unfoldable pub serialize_context : PacketContext → Writes ℕ
serialize_context context = write (context_code context ∷ [])

-- A type-2 packet without a transport address writes none, and nothing is refused.
unfoldable pub serialize_transport : HeaderType → Option AddressHash → Writes ℕ
serialize_transport type2 (some transport) = serialize_address transport
serialize_transport type2 none = done 0
serialize_transport type1 transport = done 0

unfoldable pub serialize : Packet → Writes ℕ
serialize p = do
  serialize_header p.header
  serialize_transport p.header.header_type p.transport
  serialize_address p.destination
  serialize_context p.context
  write (as_slice p.body)
