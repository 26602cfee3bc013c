-- ===== src/Packet/Deserialize.antt =====
-- crates/libs/styrene-rns/src/serde.rs, the reading half: packets read from an input buffer, which is left
-- where the reading stopped.
pub mod Agreement
use styrene_rs.Base.{ℕ, List, Option, none, some, ltb, if◌then◌else◌, splice, Result, ok, err}
use styrene_rs.Base.Stateful.{Stateful, ◌>>=◌, ◌>>◌, answer}
use styrene_rs.Error.{RnsError, out_of_memory}
use styrene_rs.Hash.{AddressHash, address_hash_size}
use styrene_rs.Buffer.StaticBuffer
use styrene_rs.Buffer.StaticBuffer.{StaticBuffer}
use styrene_rs.Buffer.InputBuffer.{InputBuffer, read, read_byte, bytes_left}
use styrene_rs.Packet.Header.{Header, HeaderType, type1, type2, from_meta}
use styrene_rs.Packet.Context.{PacketContext, context_from}
use styrene_rs.Packet.Codec.{Packet, packet_mdu}

abbrev pub Reads : Type 0 → Type 0
Reads A = Stateful InputBuffer RnsError A

unfoldable pub deserialize_header : Reads Header
deserialize_header = do
  meta ← read_byte
  hops ← read_byte
  answer (record (from_meta meta) { hops = hops })

unfoldable pub deserialize_address : Reads AddressHash
deserialize_address b = read b address_hash_size

unfoldable pub deserialize_context : Reads PacketContext
deserialize_context = do code ← read_byte; answer (context_from code)

unfoldable pub deserialize_transport : HeaderType → Reads (Option AddressHash)
deserialize_transport type1 = answer none
deserialize_transport type2 = do transport ← deserialize_address; answer (some transport)

-- A new buffer whose first bytes are lent to the reader (`accuire_buf`).
abbrev pub filled : List ℕ → ℕ → StaticBuffer
filled data_bytes size = record {
  buffer = splice (StaticBuffer.new packet_mdu).buffer 0 data_bytes;
  len = size;
}

-- The packet around the data that was read.
abbrev pub packed :
    Header
    → Option AddressHash
    → AddressHash
    → PacketContext
    → ℕ
    → InputBuffer × Result RnsError (List ℕ)
    → InputBuffer × Result RnsError Packet
packed header transport destination context size (b, err problem) = (b, err problem)
packed header transport destination context size (b, ok data_bytes) = (
  b,
  ok (record {
    header = header;
    ifac = none;
    destination = destination;
    transport = transport;
    context = context;
    body = filled data_bytes size;
  }),
)

-- What is left of the input is the data, if it fits.
unfoldable pub read_data : Header → Option AddressHash → AddressHash → PacketContext → Reads Packet
read_data header transport destination context b =
    let size = bytes_left b in
    if ltb packet_mdu size
    then (b, err out_of_memory)
    else packed header transport destination context size (read b size)

abbrev pub deserialize_fields : Header → Option AddressHash → Reads Packet
deserialize_fields header transport = do
  destination ← deserialize_address
  context ← deserialize_context
  read_data header transport destination context

unfoldable pub deserialize : Reads Packet
deserialize = do
  header ← deserialize_header
  transport ← deserialize_transport header.header_type
  deserialize_fields header transport
