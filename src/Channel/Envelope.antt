-- ===== src/Channel/Envelope.antt =====
-- crates/libs/styrene-rns/src/transport/channel.rs: the envelope that a channel sends.
pub mod RoundTrip
use styrene_rs.Base.{
  ℕ, ◌+◌, ◌%◌, ◌^◌, List, ◌++◌, ltb, if◌then◌else◌, length, get_or, take, drop, Result, ok, err,
}
use styrene_rs.Base.Bytes.{to_be_bytes, from_be_bytes}

pub data ChannelError : Type 0 where
  no_handler link_not_ready payload_too_large invalid_frame invalid_message_type : ChannelError

pub record Envelope : Type 0 where
  pub msg_type : ℕ
  pub sequence : ℕ
  pub payload : List ℕ

-- The length is written as a `u16`: what does not fit is lost.
unfoldable pub pack : Envelope → List ℕ
pack e =
    to_be_bytes e.msg_type
    ++ (to_be_bytes e.sequence ++ (to_be_bytes (length e.payload % 2 ^ 16) ++ e.payload))

unfoldable pub unpack : List ℕ → Result ChannelError Envelope
unpack raw =
    if ltb (length raw) 6
    then err invalid_frame
    else (let len = from_be_bytes (get_or raw 4 0) (get_or raw 5 0) in
        if ltb (length raw) (6 + len)
        then err invalid_frame
        else ok (record {
          msg_type = from_be_bytes (get_or raw 0 0) (get_or raw 1 0);
          sequence = from_be_bytes (get_or raw 2 0) (get_or raw 3 0);
          payload = take len (drop 6 raw);
        }))
