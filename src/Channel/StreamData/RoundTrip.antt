-- ===== src/Channel/StreamData/RoundTrip.antt =====
-- What a stream message of crates/libs/styrene-rns/src/transport/channel_buffer.rs is read back as.
use styrene_rs.Base.{
  ℕ, suc, ◌≤◌, bit_and, ◌≡◌, refl, sym, Bool, true, false, not, ◌&&◌, Option, List, arith, ◌==◌,
  if◌then◌else◌, le→ltb, ==_iff, length, ok, ◌>>=◌,
}
use styrene_rs.Base.Bytes.{each_below, each_below-holds}
use styrene_rs.Channel.Envelope.RoundTrip.{word}
use styrene_rs.Channel.StreamData.{
  StreamDataMessage, stream_id_max, stream_eof_mask, stream_compressed_mask, encode_header, encode,
  decompress, decode,
}

bool_eq : Bool → Bool → Bool
bool_eq true b = b
bool_eq false b = not b

-- The word is read back as the identifier and the flags.
abbrev agrees : Bool → Bool → ℕ → Bool
agrees eof compressed id =
    let header = encode_header id eof compressed in
    (bit_and header stream_id_max == id)
    && (bool_eq (not (bit_and header stream_eof_mask == 0)) eof
        && bool_eq (not (bit_and header stream_compressed_mask == 0)) compressed)

agrees_table : (eof compressed : Bool) → each_below 0x4000 (agrees eof compressed) ≡ true
unfolding each_below encode_header bool_eq
agrees_table true true = refl
agrees_table true false = refl
agrees_table false true = refl
agrees_table false false = refl

bool_eq_sound : (a b : Bool) → bool_eq a b ≡ true → a ≡ b
unfolding bool_eq
bool_eq_sound true b h = sym h
bool_eq_sound false true h = cc
bool_eq_sound false false h = refl

header_read :
    (eof compressed : Bool) (id : ℕ)
    → id ≤ stream_id_max
    → let header = encode_header id eof compressed in
      (bit_and header stream_id_max ≡ id)
      × (not (bit_and header stream_eof_mask == 0) ≡ eof)
      × (not (bit_and header stream_compressed_mask == 0) ≡ compressed)
header_read eof compressed id small =
    let header = encode_header id eof compressed in
    let checked : agrees eof compressed id ≡ true =
      each_below-holds 0x4000 (agrees eof compressed) id (agrees_table eof compressed)
        (omega (arith, small)) in
    ground (
      arith,
      checked,
      ==_iff (bit_and header stream_id_max) id,
      bool_eq_sound (not (bit_and header stream_eof_mask == 0)) eof,
      bool_eq_sound (not (bit_and header stream_compressed_mask == 0)) compressed,
    )

-- A stream message whose identifier is in range is read back with its identifier and flags, and
-- with its content, decompressed where the message is marked as compressed; it is refused
-- exactly where that decompression is.
pub decode-encode_stream :
    (bunzip2 : ℕ → List ℕ → Option (List ℕ)) (m : StreamDataMessage)
    → m.stream_id ≤ stream_id_max
    → decode bunzip2 (encode m) ≡ (
        (if m.compressed then decompress bunzip2 m.content else ok m.content) >>= λ content.
        ok (record m { content = content }))
unfolding decode encode
decode-encode_stream bunzip2 m small =
    let (id, eof, compressed) = header_read m.eof m.compressed m.stream_id small in
    rw
      (
        word (encode_header m.stream_id m.eof m.compressed),
        id,
        eof,
        compressed,
        le→ltb (suc (suc (length m.content))) 2 (omega arith),
      )
      refl
