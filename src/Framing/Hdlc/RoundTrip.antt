-- ===== src/Framing/Hdlc/RoundTrip.antt =====
-- HDLC: `decode` undoes `encode`, in whatever output buffer there is room.
use styrene_rs.Framing.Hdlc.Encode.{encode-Fits}
use styrene_rs.Framing.Hdlc.{encode}
use styrene_rs.Buffer.OutputBuffer.{bind_ok}
use styrene_rs.Base.{
  [], ℕ, ◌+◌, bit_xor, ◌≡◌, refl, sym, ap, ◌∙◌, true, false, List, ◌∷◌, ◌++◌, append-nil,
  append_assoc, arith, if◌then◌else◌, length, take, ok,
}
use styrene_rs.Error.{out_of_memory}
use styrene_rs.Buffer.OutputBuffer.{OutputBuffer, refuse, write, write_byte, as_slice}
use styrene_rs.Buffer.OutputBuffer.Refinement.{
  appended, Fits, length-appended, as_slice-appended, appended-appended, appended_nil,
}
use styrene_rs.Framing.Hdlc.{
  hdlc_frame_flag, hdlc_escape_mask, is_special, encode, decode_byte, decode_loop, decode,
}
use styrene_rs.Buffer.OutputBuffer.{current_offset}
use styrene_rs.Framing.Hdlc.Encode.{escaped_byte, escaped, frame}

-- Undoing the mask on the two special bytes.
unmask :
    (byte : ℕ)
    → is_special byte ≡ true
    → bit_xor (bit_xor byte hdlc_escape_mask) hdlc_escape_mask ≡ byte
unmask byte h = ground arith

-- The escaped form of a byte is read back as the byte, whatever follows.
decode_loop-escaped_byte :
    (byte : ℕ) (rest : List ℕ) (b : OutputBuffer)
    → Fits (byte ∷ []) b
    → decode_loop (escaped_byte byte ++ rest) true false b
      ≡ decode_loop rest true false (appended (byte ∷ []) b)
unfolding decode_loop decode_byte escaped_byte write_byte write
decode_loop-escaped_byte byte rest b h = ground (arith, unmask byte)

decode_loop-escaped :
    (bytes more : List ℕ) (b : OutputBuffer)
    → Fits bytes b
    → decode_loop (escaped bytes ++ (hdlc_frame_flag ∷ more)) true false b
      ≡ (ok true, appended bytes b)
unfolding escaped
decode_loop-escaped [] more b h = unfold decode_loop decode_byte in ground (arith, appended_nil b)
decode_loop-escaped (byte ∷ rest) more b h =
    let here : Fits (byte ∷ []) b = omega arith in
    let b' = appended (byte ∷ []) b in
    let later : Fits rest b' = omega (arith, length-appended (byte ∷ []) b here) in
    rw (append_assoc (escaped_byte byte) (escaped rest) (hdlc_frame_flag ∷ more)) (
      decode_loop-escaped_byte byte _ b here
      ∙ decode_loop-escaped rest more b' later
      ∙ rw (appended-appended (byte ∷ []) rest b here))

flag_starts :
    (rest : List ℕ) (b : OutputBuffer)
    → decode_loop (hdlc_frame_flag ∷ rest) false false b ≡ decode_loop rest true false b
unfolding decode_loop decode_byte
flag_starts rest b = refl

-- `decode` reads back what `encode` framed, whatever follows the frame, into any buffer with room.
pub decode-frame :
    (bytes more : List ℕ) (b : OutputBuffer)
    → Fits bytes b
    → decode (frame bytes ++ more) b ≡ (ok (b.offset + length bytes), appended bytes b)
unfolding decode
decode-frame bytes more b h =
    bind_ok (decode_loop (frame bytes ++ more) false false)
      (λ finished. if finished then current_offset else refuse out_of_memory) b
      (flag_starts _ b
        ∙ ap (λ l. decode_loop l true false b)
            (append_assoc (escaped bytes) (hdlc_frame_flag ∷ []) more)
        ∙ decode_loop-escaped bytes more b h)

-- What Hdlc::encode writes into an unused buffer with room for the frame, Hdlc::decode appends
-- to any buffer with room for the bytes, as exactly those bytes, and it returns the new offset.
pub decode-encode :
    (bytes : List ℕ) (b out : OutputBuffer)
    → b.offset ≡ 0
    → Fits (frame bytes) b
    → Fits bytes out
    → decode (as_slice (encode bytes b).1) out
      ≡ (ok (out.offset + length bytes), appended bytes out)
decode-encode bytes b out empty room fits =
    let written : as_slice (encode bytes b).1 ≡ frame bytes ++ [] =
      ap (λ r. as_slice r.1) (encode-Fits bytes b room)
      ∙ as_slice-appended (frame bytes) b room
      ∙ ap (λ n. take n b.buffer ++ frame bytes) empty
      ∙ sym (append-nil (frame bytes)) in
    ap (λ l. decode l out) written ∙ decode-frame bytes [] out fits
