-- ===== src/Channel/StreamData.antt =====
-- crates/libs/styrene-rns/src/transport/channel_buffer.rs: the messages of a stream.
pub mod RoundTrip
use styrene_rs.Base.{
  ℕ, ◌+◌, ◌*◌, bit_and, bit_or, Bool, not, Option, none, some, List, ◌++◌, ltb, ◌==◌, if◌then◌else◌,
  length, get_or, drop, Result, ok, err, ◌>>=◌,
}
use styrene_rs.Base.Bytes.{to_be_bytes, from_be_bytes}
use styrene_rs.Channel.Envelope.{ChannelError, invalid_frame}

abbrev pub stream_id_max : ℕ
stream_id_max = 0x3fff

abbrev pub stream_eof_mask : ℕ
stream_eof_mask = 0x8000

abbrev pub stream_compressed_mask : ℕ
stream_compressed_mask = 0x4000

abbrev pub max_chunk_len : ℕ
max_chunk_len = 1024 * 16

pub record StreamDataMessage : Type 0 where
  pub stream_id : ℕ
  pub content : List ℕ
  pub eof : Bool
  pub compressed : Bool

pub new : ℕ → List ℕ → Bool → Bool → Result ChannelError StreamDataMessage
new stream_id content eof compressed =
    if ltb stream_id_max stream_id
    then err invalid_frame
    else ok
        (record { stream_id = stream_id; content = content; eof = eof; compressed = compressed })

-- The first word of a message: the identifier of the stream and its two flags.
unfoldable pub encode_header : ℕ → Bool → Bool → ℕ
encode_header stream_id eof compressed =
    let id = bit_and stream_id stream_id_max in
    let ended = if eof then bit_or id stream_eof_mask else id in
    if compressed then bit_or ended stream_compressed_mask else ended

unfoldable pub encode : StreamDataMessage → List ℕ
encode m = to_be_bytes (encode_header m.stream_id m.eof m.compressed) ++ m.content

-- `bunzip2 limit l` is what the decompressor makes of `l`, read up to `limit` bytes, or nothing where
-- it fails.
module _ (bunzip2 : ℕ → List ℕ → Option (List ℕ)) where
  abbrev pub decompress : List ℕ → Result ChannelError (List ℕ)
  decompress content = elim (bunzip2 (max_chunk_len + 1) content) [
    | none ↦ err invalid_frame
    | some decoded ↦ if ltb max_chunk_len (length decoded) then err invalid_frame else ok decoded
  ]

  unfoldable pub decode : List ℕ → Result ChannelError StreamDataMessage
  decode payload =
      if ltb (length payload) 2
      then err invalid_frame
      else (let header = from_be_bytes (get_or payload 0 0) (get_or payload 1 0) in
          let compressed = not (bit_and header stream_compressed_mask == 0) in
          (if compressed then decompress (drop 2 payload) else ok (drop 2 payload)) >>= λ content.
          ok (record {
            stream_id = bit_and header stream_id_max;
            content = content;
            eof = not (bit_and header stream_eof_mask == 0);
            compressed = compressed;
          }))
