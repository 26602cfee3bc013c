-- ===== src/Framing/Hdlc.antt =====
-- crates/libs/styrene-rns/src/transport/iface/hdlc.rs
pub mod Encode
pub mod RoundTrip
pub mod Search
use styrene_rs.Base.{
  [], ℕ, ◌+◌, bit_xor, Bool, true, false, not, ◌||◌, Option, none, some, List, ◌∷◌, ◌==◌,
  if◌then◌else◌,
}
use styrene_rs.Error.{out_of_memory}
use styrene_rs.Buffer.OutputBuffer.{
  ◌>>=◌, Writes, done, refuse, ◌>>◌, write, write_byte, current_offset,
}

abbrev pub hdlc_frame_flag : ℕ
hdlc_frame_flag = 0x7e

abbrev pub hdlc_escape_byte : ℕ
hdlc_escape_byte = 0x7d

abbrev pub hdlc_escape_mask : ℕ
hdlc_escape_mask = 0x20

abbrev pub is_special : ℕ → Bool
is_special byte = byte == hdlc_frame_flag || byte == hdlc_escape_byte

-- One round of the loop of `encode`.
unfoldable pub encode_byte : ℕ → Writes ℕ
encode_byte byte =
    if is_special byte
    then write (hdlc_escape_byte ∷ bit_xor byte hdlc_escape_mask ∷ [])
    else write_byte byte

unfoldable pub encode_loop : List ℕ → Writes (Unit {0})
encode_loop [] = done tt
encode_loop (byte ∷ rest) = encode_byte byte >> encode_loop rest

unfoldable pub encode : List ℕ → Writes ℕ
encode bytes = do
  write_byte hdlc_frame_flag
  encode_loop bytes
  write_byte hdlc_frame_flag
  current_offset

-- The loop of `find`: the index of the byte, whether a start was seen, and where. The end flag of
-- the source is set only on the round that returns.
unfoldable pub find_loop : List ℕ → ℕ → Bool → ℕ → Option (ℕ × ℕ)
find_loop [] i start start_index = none
find_loop (byte ∷ rest) i start start_index =
    let next = find_loop rest (i + 1) start start_index in
    let started = find_loop rest (i + 1) true i in
    if not (byte == hdlc_frame_flag)
    then next
    else if not start
    then started
    else some (start_index, i)

unfoldable pub find : List ℕ → Option (ℕ × ℕ)
unfolding find_loop
find bytes = find_loop bytes 0 false 0

-- One round of the loop of `decode`, on `started` and `escape`; `none` is the `break` that sets
-- `finished`.
unfoldable pub decode_byte : ℕ → Bool → Bool → Writes (Option (Bool × Bool))
decode_byte byte started true = do
  write_byte (bit_xor byte hdlc_escape_mask)
  done (some (started, false))
decode_byte byte started false =
    if byte == hdlc_frame_flag
    then done (if started then none else some (true, false))
    else if byte == hdlc_escape_byte
    then done (some (started, true))
    else (write_byte byte >> done (some (started, false)))

-- Returns `finished`.
unfoldable pub decode_loop : List ℕ → Bool → Bool → Writes Bool
decode_loop [] started escape = done false
decode_loop (byte ∷ rest) started escape = do
  next ← decode_byte byte started escape
  elim next [ none ↦ done true | some (started', escape') ↦ decode_loop rest started' escape' ]

unfoldable pub decode : List ℕ → Writes ℕ
decode bytes = do
  finished ← decode_loop bytes false false
  if finished then current_offset else refuse out_of_memory
