-- ===== src/Tunnel/Session/Close.antt =====
-- The end of a session of crates/libs/styrene-tunnel/src/session/mod.rs: the close that travels in a data
-- frame, and the close in the open.
use styrene_rs.Base.{
  ℕ, ◌+◌, ◌/◌, ◌%◌, min, ◌≡◌, refl, Bool, true, ◌&&◌, Option, none, some, List, ◌∷◌, ◌++◌, arith,
  ltb, if◌then◌else◌, le→ltb, le→leb, length, take, length-take, take_ge,
}
use styrene_rs.Base.Bytes.{bytes_eq, from_be_bytes}
use styrene_rs.Tunnel.Crypto.Laws.{Laws}
use styrene_rs.Tunnel.CloseMessage.{
  close_magic, message_bytes, encode_authenticated_close, decode_authenticated_close,
}

-- A text of at most 65535 bytes, read back when it is not empty.
abbrev pub readable : (List ℕ → Bool) → List ℕ → Option (List ℕ)
readable utf8 text = if ltb 0 (length text) && utf8 text then some text else none

-- What a close message is read as: cut to what a 16-bit length counts.
abbrev pub delivered : (List ℕ → Bool) → Option (List ℕ) → Option (List ℕ)
delivered utf8 message =
    let text = message_bytes message in readable utf8 (take (min (length text) 65535) text)

decode_frame :
    (utf8 : List ℕ → Bool) (reason hi lo : ℕ) (text : List ℕ)
    → from_be_bytes hi lo ≡ length text
    → decode_authenticated_close utf8 (close_magic ++ (reason ∷ hi ∷ lo ∷ text))
      ≡ some (reason, readable utf8 text)
unfolding decode_authenticated_close
decode_frame utf8 reason hi lo text size =
    let content = close_magic ++ (reason ∷ hi ∷ lo ∷ text) in
    let long : length content ≡ 11 + length text = omega arith in
    let front : bytes_eq (take 8 content) close_magic ≡ true = unfold bytes_eq in refl in
    rw
      (
        decode_authenticated_close,
        le→ltb (length content) 11 (omega (arith, long)),
        front,
        size,
        take_ge (length text) text (omega arith),
        le→leb (11 + length text) (length content) (omega (arith, long)),
      )
      (ground arith)

-- A close message is read back with its reason, and with its message where that is readable.
pub decode-encode_authenticated_close :
    (utf8 : List ℕ → Bool) (reason : ℕ) (message : Option (List ℕ))
    → decode_authenticated_close utf8 (encode_authenticated_close reason message)
      ≡ some (reason, delivered utf8 message)
unfolding encode_authenticated_close
decode-encode_authenticated_close utf8 reason message =
    let text = message_bytes message in
    let n = min (length text) 65535 in
    decode_frame utf8 reason (n / 256) (n % 256) (take n text) (omega (arith, length-take n text))
