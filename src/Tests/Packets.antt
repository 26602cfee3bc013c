-- ===== src/Tests/Packets.antt =====
-- crates/libs/styrene-rns/src/packet.rs at concrete inputs.
use styrene_rs.Base.{
  [], ℕ, ◌≤◌, ◌<◌, ◌≡◌, refl, true, none, some, List, ◌∷◌, ◌++◌, arith, length, replicate, ok, err,
  ◌>>=◌,
}
use styrene_rs.Error.{invalid_argument}
use styrene_rs.Packet.Header.{
  Header, open_access, type2, transport, set_flag, link, proof, to_meta, from_meta,
}
use styrene_rs.Packet.Context.{channel, names_context}
use styrene_rs.Packet.Codec.{Packet, from_bytes, to_bytes}
use styrene_rs.Packet.Codec.RoundTrip.{IsValid, rebuilt, from_bytes-to_bytes}
use styrene_rs.Packet.Codec.Parsing.{
  shortest, wire_packet, wire_header, context_byte, from_bytes_lem, to_bytes-from_bytes,
}
use styrene_rs.Buffer.OutputBuffer.{OutputBuffer}
use styrene_rs.Buffer.OutputBuffer.Refinement.{appended}
use styrene_rs.Packet.Serde.{serialize}
use styrene_rs.Packet.Serde.Serializing.{serialize-to_bytes}
use styrene_rs.Buffer.InputBuffer
use styrene_rs.Buffer.InputBuffer.{bytes_left}
use styrene_rs.Packet.Deserialize.{deserialize}
use styrene_rs.Packet.Deserialize.Agreement.{deserialize-from_bytes}

abbrev sample_header : Header
sample_header = record {
  ifac_flag = open_access;
  header_type = type2;
  context_flag = set_flag;
  propagation_type = transport;
  destination_type = link;
  packet_type = proof;
  hops = 4;
}

abbrev sample : Packet
sample = record {
  header = sample_header;
  ifac = none;
  destination = replicate 16 7;
  transport = some (replicate 16 8);
  context = channel;
  body = record { buffer = 1 ∷ 2 ∷ 3 ∷ []; len = 2 };
}

sample-IsValid : IsValid sample
sample-IsValid = record { no_ifac = refl; routed = omega arith; destination_size = omega arith }

meta_run : to_meta sample_header ≡ 0x7f
unfolding to_meta
meta_run = refl

from_bytes-to_bytes_example : (to_bytes sample >>= from_bytes) ≡ ok (rebuilt sample)
from_bytes-to_bytes_example = from_bytes-to_bytes sample sample-IsValid

-- Metadata of a plain type-1 packet, a hop, an address, the context of a channel and two data bytes.
abbrev wire_sample : List ℕ
wire_sample = 0x08 ∷ 1 ∷ (replicate 16 7 ++ (0x0e ∷ 5 ∷ 6 ∷ []))

wire_sample_start : (shortest wire_sample ≡ 19) × (names_context (context_byte wire_sample) ≡ true)
unfolding from_meta
wire_sample_start = (refl, refl)

from_bytes_lem_example :
    (length wire_sample < shortest wire_sample → from_bytes wire_sample ≡ err invalid_argument)
    × (shortest wire_sample ≤ length wire_sample
        → from_bytes wire_sample
          ≡ ok (
              wire_packet wire_sample
                (wire_header wire_sample)
                (wire_header wire_sample).header_type))
from_bytes_lem_example = from_bytes_lem wire_sample

to_bytes-from_bytes_example : (from_bytes wire_sample >>= to_bytes) ≡ ok wire_sample
to_bytes-from_bytes_example =
    to_bytes-from_bytes wire_sample (omega arith) (omega (arith, wire_sample_start.0))
      (omega (arith, wire_sample_start.0)) wire_sample_start.1

deserialize-from_bytes_example :
    let (b, packet) = deserialize (InputBuffer.new wire_sample) in
    (packet ≡ from_bytes wire_sample) × (bytes_left b ≡ 0)
deserialize-from_bytes_example =
    deserialize-from_bytes wire_sample (omega (arith, wire_sample_start.0))
      (omega (arith, wire_sample_start.0))

abbrev blank : OutputBuffer
blank = record { buffer = replicate 60 0; offset = 3 }

abbrev sample_bytes : List ℕ
sample_bytes = 0x7f ∷ 4 ∷ (replicate 16 8 ++ (replicate 16 7 ++ (0x0e ∷ 1 ∷ 2 ∷ [])))

sample_written : to_bytes sample ≡ ok sample_bytes
unfolding to_bytes to_meta
sample_written = refl

serialize-to_bytes_example : serialize sample blank ≡ (ok 2, appended sample_bytes blank)
serialize-to_bytes_example =
    serialize-to_bytes sample sample_bytes blank sample_written (omega arith)
