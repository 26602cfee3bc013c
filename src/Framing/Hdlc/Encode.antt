-- ===== src/Framing/Hdlc/Encode.antt =====
-- HDLC: what `encode` writes, and when it runs out of room.
use styrene_rs.Buffer.OutputBuffer.Refinement.{write_byte-Fits, write_byte_full}
use styrene_rs.Buffer.OutputBuffer.{bind_ok, bind_err}
use styrene_rs.Base.{
  [], ℕ, ◌+◌, ◌<◌, bit_xor, ◌≡◌, ap, ◌∙◌, inl, inr, List, ◌∷◌, ◌++◌, arith, leb, if◌then◌else◌,
  leb→le, Bool-cases, length, length-append, ok, err,
}
use styrene_rs.Error.{out_of_memory}
use styrene_rs.Buffer.OutputBuffer.{OutputBuffer, Writes, ◌>>◌, write, write_byte}
use styrene_rs.Buffer.OutputBuffer.Refinement.{
  IsValid, appended, Fits, appended-IsValid, length-appended, appended-appended, appended_nil,
}
use styrene_rs.Framing.Hdlc.{
  hdlc_frame_flag, hdlc_escape_byte, hdlc_escape_mask, is_special, encode_byte, encode_loop, encode,
}
use styrene_rs.Buffer.OutputBuffer.{current_offset}

-- The escaped form of one byte, and of all.
unfoldable pub escaped_byte : ℕ → List ℕ
escaped_byte byte =
    if is_special byte then hdlc_escape_byte ∷ bit_xor byte hdlc_escape_mask ∷ [] else byte ∷ []

unfoldable pub escaped : List ℕ → List ℕ
escaped [] = []
escaped (byte ∷ rest) = escaped_byte byte ++ escaped rest

-- A frame on the wire: the escaped bytes between two flags.
abbrev pub frame : List ℕ → List ℕ
frame bytes = hdlc_frame_flag ∷ (escaped bytes ++ (hdlc_frame_flag ∷ []))

encode_byte-Fits :
    (byte : ℕ) (b : OutputBuffer)
    → Fits (escaped_byte byte) b
    → encode_byte byte b ≡ (ok (length (escaped_byte byte)), appended (escaped_byte byte) b)
unfolding encode_byte escaped_byte write_byte write
encode_byte-Fits byte b h = ground arith

encode_byte_full :
    (byte : ℕ) (b : OutputBuffer)
    → length b.buffer < b.offset + length (escaped_byte byte)
    → (encode_byte byte b).0 ≡ err out_of_memory
unfolding encode_byte escaped_byte write_byte write
encode_byte_full byte b h = ground arith

encode_loop-Fits :
    (bytes : List ℕ) (b : OutputBuffer)
    → Fits (escaped bytes) b
    → encode_loop bytes b ≡ (ok tt, appended (escaped bytes) b)
unfolding encode_loop escaped
encode_loop-Fits [] b h = ground (arith, appended_nil b)
encode_loop-Fits (byte ∷ rest) b h =
    let lengths = length-append (escaped_byte byte) (escaped rest) in
    let here : Fits (escaped_byte byte) b = omega (arith, lengths) in
    let b' = appended (escaped_byte byte) b in
    let later : Fits (escaped rest) b' =
      omega (arith, lengths, length-appended (escaped_byte byte) b here) in
    bind_ok (encode_byte byte) (λ _. encode_loop rest) b (encode_byte-Fits byte b here)
    ∙ encode_loop-Fits rest b' later
    ∙ ap (λ o. (ok tt, o)) (appended-appended (escaped_byte byte) (escaped rest) b here)

encode_loop_full :
    (bytes : List ℕ) (b : OutputBuffer)
    → IsValid b
    → length b.buffer < b.offset + length (escaped bytes)
    → (encode_loop bytes b).0 ≡ err out_of_memory
unfolding encode_loop escaped
encode_loop_full [] b v h = absurd (omega arith)
encode_loop_full (byte ∷ rest) b v h =
    elim (Bool-cases (leb (b.offset + length (escaped_byte byte)) (length b.buffer))) [
      | inl fits ↦
          let here : Fits (escaped_byte byte) b = leb→le _ _ fits in
          ap (λ p. p.0)
            (bind_ok (encode_byte byte) (λ _. encode_loop rest) b (encode_byte-Fits byte b here))
          ∙ encode_loop_full rest (appended (escaped_byte byte) b) (appended-IsValid _ b here) (
              omega (
                arith,
                length-append (escaped_byte byte) (escaped rest),
                length-appended (escaped_byte byte) b here,
              ))
      | inr full ↦
          bind_err (encode_byte byte) (λ _. encode_loop rest) b
            (encode_byte_full byte b (ground arith))
    ]

-- The parts of `encode` behind the first flag, and behind the escaped bytes.
abbrev close_frame : Writes ℕ
close_frame = write_byte hdlc_frame_flag >> current_offset

abbrev fill_frame : List ℕ → Writes ℕ
fill_frame bytes = encode_loop bytes >> close_frame

encode_tail_full :
    (bytes : List ℕ) (b : OutputBuffer)
    → IsValid b
    → length b.buffer < b.offset + length (escaped bytes) + 1
    → (fill_frame bytes b).0 ≡ err out_of_memory
encode_tail_full bytes b v h =
    elim (Bool-cases (leb (b.offset + length (escaped bytes)) (length b.buffer))) [
      | inr full ↦
          bind_err (encode_loop bytes) (λ _. close_frame) b
            (encode_loop_full bytes b v (ground arith))
      | inl fits ↦
          let here : Fits (escaped bytes) b = leb→le _ _ fits in
          let b' = appended (escaped bytes) b in
          ap (λ p. p.0)
            (bind_ok (encode_loop bytes) (λ _. close_frame) b (encode_loop-Fits bytes b here))
          ∙ bind_err (write_byte hdlc_frame_flag) (λ _. current_offset) b'
              (write_byte_full hdlc_frame_flag b'
                (omega (arith, length-appended (escaped bytes) b here)))
    ]

-- Into a buffer with room for the frame, Hdlc::encode appends exactly the frame of the bytes and
-- returns the new offset.
pub encode-Fits :
    (bytes : List ℕ) (b : OutputBuffer)
    → Fits (frame bytes) b
    → encode bytes b ≡ (ok (b.offset + length (frame bytes)), appended (frame bytes) b)
unfolding encode
encode-Fits bytes b h =
    let flag : List ℕ = hdlc_frame_flag ∷ [] in
    let lengths = length-append (escaped bytes) flag in
    let fits₁ : Fits flag b = omega (arith, lengths) in
    let b₁ = appended flag b in
    let fits₂ : Fits (escaped bytes) b₁ = omega (arith, lengths, length-appended flag b fits₁) in
    let b₂ = appended (escaped bytes) b₁ in
    let fits₃ : Fits flag b₂ =
      omega
        (arith, lengths, length-appended flag b fits₁, length-appended (escaped bytes) b₁ fits₂) in
    let whole : appended flag b₂ ≡ appended (frame bytes) b =
      appended-appended (escaped bytes) flag b₁ fits₂
      ∙ appended-appended flag (escaped bytes ++ flag) b fits₁ in
    bind_ok (write_byte hdlc_frame_flag) (λ _. fill_frame bytes) b
      (write_byte-Fits hdlc_frame_flag b fits₁)
    ∙ bind_ok (encode_loop bytes) (λ _. close_frame) b₁ (encode_loop-Fits bytes b₁ fits₂)
    ∙ bind_ok (write_byte hdlc_frame_flag) (λ _. current_offset) b₂
        (write_byte-Fits hdlc_frame_flag b₂ fits₃)
    ∙ ap (λ (o : OutputBuffer). current_offset o) whole

-- Into a buffer without room for the whole frame, Hdlc::encode fails with OutOfMemory.
pub encode_full :
    (bytes : List ℕ) (b : OutputBuffer)
    → IsValid b
    → length b.buffer < b.offset + length (frame bytes)
    → (encode bytes b).0 ≡ err out_of_memory
unfolding encode
encode_full bytes b v h = elim (Bool-cases (leb (b.offset + 1) (length b.buffer))) [
  | inr full ↦
      bind_err (write_byte hdlc_frame_flag) (λ _. fill_frame bytes) b
        (write_byte_full hdlc_frame_flag b (ground arith))
  | inl fits ↦
      let flag : List ℕ = hdlc_frame_flag ∷ [] in
      let fits₁ : Fits flag b = leb→le _ _ fits in
      let b₁ = appended flag b in
      let first =
        bind_ok (write_byte hdlc_frame_flag) (λ _. fill_frame bytes) b
          (write_byte-Fits hdlc_frame_flag b fits₁) in
      ap (λ p. p.0) first
      ∙ encode_tail_full bytes b₁ (appended-IsValid flag b fits₁)
          (omega (arith, length-append (escaped bytes) flag, length-appended flag b fits₁))
]
