-- ===== src/Framing/Kiss.antt =====
-- crates/libs/styrene-rns/src/transport/iface/kiss.rs
pub mod RoundTrip
use styrene_rs.Base.{
  [], ℕ, Bool, true, false, not, ◌&&◌, Option, none, some, List, ◌∷◌, ◌++◌, ltb, ◌==◌,
  if◌then◌else◌, length, drop,
}

abbrev pub fend : ℕ
fend = 0xc0

abbrev pub fesc : ℕ
fesc = 0xdb

abbrev pub tfend : ℕ
tfend = 0xdc

abbrev pub tfesc : ℕ
tfesc = 0xdd

abbrev pub cmd_data : ℕ
cmd_data = 0x00

-- The loop of `kiss_encode`.
unfoldable pub encode_loop : List ℕ → List ℕ → List ℕ
encode_loop [] out = out
encode_loop (b ∷ rest) out = encode_loop rest (
    if b == fend
    then out ++ (fesc ∷ tfend ∷ [])
    else if b == fesc
    then out ++ (fesc ∷ tfesc ∷ [])
    else out ++ (b ∷ []))

unfoldable pub kiss_encode : List ℕ → List ℕ
kiss_encode bytes = encode_loop bytes (fend ∷ cmd_data ∷ []) ++ (fend ∷ [])

pub record KissDecoder : Type 0 where
  pub buf : List ℕ
  pub in_frame : Bool
  pub escape : Bool
  pub ready : List (List ℕ)

abbrev pub new : KissDecoder
new = record { buf = []; in_frame = false; escape = false; ready = [] }

abbrev first_is : ℕ → List ℕ → Bool
first_is b [] = false
first_is b (x ∷ xs) = x == b

unfoldable pub strip_cmd : List ℕ → Option (List ℕ)
strip_cmd frame =
    if first_is cmd_data frame && ltb 1 (length frame)
    then some (drop 1 frame)
    else if length frame == 0
    then none
    else some frame

-- The queue after a frame is complete.
abbrev push_frame : List (List ℕ) → Option (List ℕ) → List (List ℕ)
push_frame ready none = ready
push_frame ready (some frame) = ready ++ (frame ∷ [])

-- One round of the loop of `feed`.
unfoldable pub feed_byte : KissDecoder → ℕ → KissDecoder
feed_byte d b =
    if d.escape
    then record d {
      escape = false;
      buf =
          if b == tfend
          then d.buf ++ (fend ∷ [])
          else if b == tfesc
          then d.buf ++ (fesc ∷ [])
          else d.buf;
    }
    else if b == fend
    then record d {
      buf = [];
      in_frame = true;
      ready =
          if d.in_frame && not (length d.buf == 0)
          then push_frame d.ready (strip_cmd d.buf)
          else d.ready;
    }
    else if b == fesc
    then record d { escape = true }
    else record d { buf = if d.in_frame then d.buf ++ (b ∷ []) else d.buf }

unfoldable pub feed : KissDecoder → List ℕ → KissDecoder
feed d [] = d
feed d (b ∷ rest) = feed (feed_byte d b) rest

unfoldable pub take_frame : KissDecoder → KissDecoder × Option (List ℕ)
take_frame d = elim d.ready [
  | [] ↦ (d, none)
  | frame ∷ rest ↦ (record d { ready = rest }, some frame)
]
