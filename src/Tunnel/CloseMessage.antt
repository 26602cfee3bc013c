-- ===== src/Tunnel/CloseMessage.antt =====
-- crates/libs/styrene-tunnel/src/session/mod.rs: the close message inside a data frame.
use styrene_rs.Base.{
  ℕ, ◌+◌, min, Bool, not, ◌&&◌, ltb, leb, if◌then◌else◌, Option, none, some, List, [], ◌∷◌, ◌++◌,
  length, get_or, take, drop,
}
use styrene_rs.Base.Bytes.{bytes_eq, to_be_bytes, from_be_bytes}

-- `b"\xFFSTYCLOS"`
abbrev pub close_magic : List ℕ
close_magic = 0xff ∷ 83 ∷ 84 ∷ 89 ∷ 67 ∷ 76 ∷ 79 ∷ 83 ∷ []

abbrev pub message_bytes : Option (List ℕ) → List ℕ
message_bytes none = []
message_bytes (some text) = text

-- A message longer than a 16-bit length is cut.
unfoldable pub encode_authenticated_close : ℕ → Option (List ℕ) → List ℕ
encode_authenticated_close reason message =
    let text = message_bytes message in
    let text_length = min (length text) 65535 in
    close_magic ++ (reason ∷ (to_be_bytes text_length ++ take text_length text))

-- `utf8` tells which bytes are a text.
unfoldable pub decode_authenticated_close : (List ℕ → Bool) → List ℕ → Option (ℕ × Option (List ℕ))
decode_authenticated_close utf8 content =
    if ltb (length content) 11
    then none
    else if not (bytes_eq (take 8 content) close_magic)
    then none
    else (let text_length = from_be_bytes (get_or content 9 0) (get_or content 10 0) in
        let text = take text_length (drop 11 content) in
        some (
          get_or content 8 0,
          if ltb 0 text_length && leb (11 + text_length) (length content) && utf8 text
              then some text
              else none,
        ))
