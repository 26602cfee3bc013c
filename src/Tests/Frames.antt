-- ===== src/Tests/Frames.antt =====
-- crates/libs/styrene-rns/src/transport/iface at concrete inputs.
use styrene_rs.Base.{[], ℕ, ◌+◌, ◌≡◌, refl, true, false, List, ◌∷◌, arith, length, replicate, ok}
use styrene_rs.Buffer.OutputBuffer.{OutputBuffer, as_slice, write, write_byte}
use styrene_rs.Buffer.OutputBuffer.Refinement.{appended}
use styrene_rs.Framing.Hdlc.{encode, encode_loop, encode_byte, decode}
use styrene_rs.Framing.Hdlc.Encode.{escaped_byte, escaped}
use styrene_rs.Framing.Hdlc.RoundTrip.{decode-encode}
use styrene_rs.Framing.Kiss
use styrene_rs.Framing.Kiss.{KissDecoder, feed}
use styrene_rs.Framing.Kiss.RoundTrip.{feed-kiss_stream, kiss_stream}

abbrev blank : ℕ → OutputBuffer
blank n = record { buffer = replicate n 0; offset = 0 }

-- A flag byte between two plain ones.
abbrev packet_bytes : List ℕ
packet_bytes = 1 ∷ 0x7e ∷ 2 ∷ []

encode_run : as_slice (encode packet_bytes (blank 8)).1 ≡ 0x7e ∷ 1 ∷ 0x7d ∷ 0x5e ∷ 2 ∷ 0x7e ∷ []
unfolding encode encode_loop encode_byte write write_byte
encode_run = refl

decode-encode_example :
    decode (as_slice (encode packet_bytes (blank 8)).1) (blank 3)
    ≡ (ok (0 + length packet_bytes), appended packet_bytes (blank 3))
unfolding escaped escaped_byte
decode-encode_example =
    decode-encode packet_bytes (blank 8) (blank 3) refl (omega arith) (omega arith)

-- A decoder that has seen the start of a frame that never ends.
abbrev cut_off : KissDecoder
cut_off = record { buf = 0 ∷ 5 ∷ []; in_frame = true; escape = false; ready = [] }

feed-kiss_stream_example :
    (feed Kiss.new (kiss_stream ((1 ∷ []) ∷ [] ∷ (0xc0 ∷ []) ∷ []))).ready
    ≡ (1 ∷ []) ∷ (0 ∷ []) ∷ (0xc0 ∷ []) ∷ []
feed-kiss_stream_example = feed-kiss_stream ((1 ∷ []) ∷ [] ∷ (0xc0 ∷ []) ∷ [])
