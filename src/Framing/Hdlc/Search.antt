-- ===== src/Framing/Hdlc/Search.antt =====
-- HDLC: `find` locates a frame in a stream.
use styrene_rs.Base.{
  [], ℕ, ◌+◌, ◌≡◌, refl, ap, ◌∙◌, ◌≢◌, Bool, true, false, some, List, ◌∷◌, ◌++◌, append_assoc,
  arith, length, All,
}
use styrene_rs.Framing.Hdlc.{hdlc_frame_flag, find_loop, find}
use styrene_rs.Framing.Hdlc.Encode.{escaped_byte, escaped, frame}

abbrev pub NotFlag : ℕ → Type 0
NotFlag byte = byte ≢ hdlc_frame_flag

All-append : (xs ys : List ℕ) → All NotFlag xs → All NotFlag ys → All NotFlag (xs ++ ys)
All-append [] ys hx hy = hy
All-append (x ∷ xs) ys hx hy = (hx.0, All-append xs ys hx.1 hy)

escaped_byte-NotFlag : (byte : ℕ) → All NotFlag (escaped_byte byte)
unfolding escaped_byte
escaped_byte-NotFlag byte = ground arith

-- No flag stands inside a frame.
pub escaped-NotFlag : (bytes : List ℕ) → All NotFlag (escaped bytes)
unfolding escaped
escaped-NotFlag [] = tt
escaped-NotFlag (byte ∷ rest) =
    All-append (escaped_byte byte) (escaped rest) (escaped_byte-NotFlag byte) (escaped-NotFlag rest)

find_loop-skip :
    (xs rest : List ℕ) (i : ℕ) (start : Bool) (start_index : ℕ)
    → All NotFlag xs
    → find_loop (xs ++ rest) i start start_index ≡ find_loop rest (i + length xs) start start_index
unfolding find_loop
find_loop-skip [] rest i start start_index h =
    let same : i ≡ i + 0 = omega arith in ap (λ k. find_loop rest k start start_index) same
find_loop-skip (x ∷ xs) rest i start start_index h =
    ground (arith, find_loop-skip xs rest (i + 1) start start_index h.1)

find_loop_start :
    (rest : List ℕ) (i start_index : ℕ)
    → find_loop (hdlc_frame_flag ∷ rest) i false start_index ≡ find_loop rest (i + 1) true i
unfolding find_loop
find_loop_start rest i start_index = refl

find_loop_end :
    (rest : List ℕ) (i start_index : ℕ)
    → find_loop (hdlc_frame_flag ∷ rest) i true start_index ≡ some (start_index, i)
unfolding find_loop
find_loop_end rest i start_index = refl

-- Behind any bytes that hold no flag, Hdlc::find returns the positions of the two flags of the
-- first frame, whatever follows it.
pub find-frame :
    (noise bytes more : List ℕ)
    → All NotFlag noise
    → find (noise ++ (frame bytes ++ more))
      ≡ some (length noise, length noise + 1 + length (escaped bytes))
unfolding find
find-frame noise bytes more h =
    find_loop-skip noise (frame bytes ++ more) 0 false 0 h
    ∙ find_loop_start ((escaped bytes ++ (hdlc_frame_flag ∷ [])) ++ more) (0 + length noise) 0
    ∙ ap (λ l. find_loop l (0 + length noise + 1) true (0 + length noise))
        (append_assoc (escaped bytes) (hdlc_frame_flag ∷ []) more)
    ∙ find_loop-skip (escaped bytes) (hdlc_frame_flag ∷ more) (0 + length noise + 1) true
        (0 + length noise) (escaped-NotFlag bytes)
    ∙ find_loop_end more _ (0 + length noise)
    ∙ ground arith
