-- ===== src/Framing/Kiss/RoundTrip.antt =====
-- KISS: the decoder delivers what was encoded, however the bytes are cut into reads.
use styrene_rs.Base.{
  [], ℕ, ◌≡◌, refl, sym, ap, ◌∙◌, true, false, not, ◌&&◌, List, ◌∷◌, ◌++◌, map, append-nil,
  append_assoc, arith, ◌==◌, if◌then◌else◌, length,
}
use styrene_rs.Framing.Kiss.{
  fend, fesc, tfend, tfesc, cmd_data, encode_loop, kiss_encode, KissDecoder, new, strip_cmd,
  push_frame, feed_byte, feed,
}

-- How the stream is cut into reads does not matter.
pub feed-append : (xs ys : List ℕ) (d : KissDecoder) → feed d (xs ++ ys) ≡ feed (feed d xs) ys
unfolding feed
feed-append [] ys d = refl
feed-append (x ∷ xs) ys d = feed-append xs ys (feed_byte d x)

unfoldable pub escaped_byte : ℕ → List ℕ
escaped_byte b =
    if b == fend then fesc ∷ tfend ∷ [] else if b == fesc then fesc ∷ tfesc ∷ [] else b ∷ []

unfoldable pub escaped : List ℕ → List ℕ
escaped [] = []
escaped (b ∷ rest) = escaped_byte b ++ escaped rest

one_byte :
    (b : ℕ) (out : List ℕ)
    → (if b == fend
        then out ++ (fesc ∷ tfend ∷ [])
        else if b == fesc
        then out ++ (fesc ∷ tfesc ∷ [])
        else out ++ (b ∷ []))
      ≡ out ++ escaped_byte b
unfolding escaped_byte
one_byte b out = ground arith

encode_loop-escaped : (bytes out : List ℕ) → encode_loop bytes out ≡ out ++ escaped bytes
unfolding encode_loop escaped escaped_byte
encode_loop-escaped [] out = sym (append-nil out)
encode_loop-escaped (b ∷ rest) out =
    encode_loop-escaped rest _
    ∙ ap (λ l. l ++ escaped rest) (one_byte b out)
    ∙ append_assoc out (escaped_byte b) (escaped rest)

pub kiss_encode-escaped :
    (bytes : List ℕ) → kiss_encode bytes ≡ fend ∷ cmd_data ∷ (escaped bytes ++ (fend ∷ []))
unfolding kiss_encode
kiss_encode-escaped bytes =
    ap (λ l. l ++ (fend ∷ [])) (encode_loop-escaped bytes (fend ∷ cmd_data ∷ []))

-- The decoder inside a frame, with what it has gathered.
abbrev gathering : List ℕ → List (List ℕ) → KissDecoder
gathering buf ready = record { buf = buf; in_frame = true; escape = false; ready = ready }

feed-escaped_byte :
    (b : ℕ) (rest acc : List ℕ) (ready : List (List ℕ))
    → feed (gathering acc ready) (escaped_byte b ++ rest)
      ≡ feed (gathering (acc ++ (b ∷ [])) ready) rest
unfolding feed feed_byte escaped_byte
feed-escaped_byte b rest acc ready = ground arith

feed-escaped :
    (bytes rest acc : List ℕ) (ready : List (List ℕ))
    → feed (gathering acc ready) (escaped bytes ++ rest)
      ≡ feed (gathering (acc ++ bytes) ready) rest
unfolding escaped
feed-escaped [] rest acc ready = ap (λ l. feed (gathering l ready) rest) (sym (append-nil acc))
feed-escaped (b ∷ bytes) rest acc ready =
    ap (feed (gathering acc ready)) (append_assoc (escaped_byte b) (escaped bytes) rest)
    ∙ feed-escaped_byte b (escaped bytes ++ rest) acc ready
    ∙ feed-escaped bytes rest (acc ++ (b ∷ [])) ready
    ∙ ap (λ l. feed (gathering l ready) rest) (append_assoc acc (b ∷ []) bytes)

-- The queue after the flag that starts a frame: an unfinished frame is delivered first.
abbrev pub flushed : KissDecoder → List (List ℕ)
flushed d =
    if d.in_frame && not (length d.buf == 0) then push_frame d.ready (strip_cmd d.buf) else d.ready

feed_start :
    (d : KissDecoder) (rest : List ℕ)
    → d.escape ≡ false
    → feed d (fend ∷ rest) ≡ feed (gathering [] (flushed d)) rest
unfolding feed
feed_start d rest h = ap (λ e. feed e rest) (unfold feed_byte in ground arith)

-- What reaches the reader: the data, but an empty frame comes back as its command byte.
abbrev pub delivered : List ℕ → List ℕ
delivered [] = cmd_data ∷ []
delivered (b ∷ bytes) = b ∷ bytes

feed_end :
    (bytes : List ℕ) (ready : List (List ℕ))
    → feed (gathering (cmd_data ∷ bytes) ready) (fend ∷ [])
      ≡ gathering [] (ready ++ (delivered bytes ∷ []))
unfolding feed feed_byte strip_cmd
feed_end [] ready = refl
feed_end (b ∷ bytes) ready = ground arith

feed_cmd :
    (rest : List ℕ) (ready : List (List ℕ))
    → feed (gathering [] ready) (cmd_data ∷ rest) ≡ feed (gathering (cmd_data ∷ []) ready) rest
unfolding feed feed_byte
feed_cmd rest ready = refl

-- From any state that is not inside an escape, the decoder fed with one encoded packet delivers
-- it last in its queue and stands at a frame boundary; empty data is delivered as the one
-- command byte.
pub feed-kiss_encode :
    (d : KissDecoder) (bytes : List ℕ)
    → d.escape ≡ false
    → feed d (kiss_encode bytes) ≡ gathering [] (flushed d ++ (delivered bytes ∷ []))
feed-kiss_encode d bytes h =
    ap (feed d) (kiss_encode-escaped bytes)
    ∙ feed_start d (cmd_data ∷ (escaped bytes ++ (fend ∷ []))) h
    ∙ feed_cmd (escaped bytes ++ (fend ∷ [])) (flushed d)
    ∙ feed-escaped bytes (fend ∷ []) (cmd_data ∷ []) (flushed d)
    ∙ feed_end bytes (flushed d)

-- The bytes of several packets, one behind the other.
abbrev pub kiss_stream : List (List ℕ) → List ℕ
kiss_stream [] = []
kiss_stream (p ∷ ps) = kiss_encode p ++ kiss_stream ps

feed-kiss_stream_loop :
    (ps : List (List ℕ)) (ready : List (List ℕ))
    → (feed (gathering [] ready) (kiss_stream ps)).ready ≡ ready ++ map delivered ps
feed-kiss_stream_loop [] ready = unfold feed in sym (append-nil ready)
feed-kiss_stream_loop (p ∷ ps) ready =
    ap (λ d. d.ready) (feed-append (kiss_encode p) (kiss_stream ps) (gathering [] ready))
    ∙ ap (λ d. (feed d (kiss_stream ps)).ready) (feed-kiss_encode (gathering [] ready) p refl)
    ∙ feed-kiss_stream_loop ps (ready ++ (delivered p ∷ []))
    ∙ append_assoc ready (delivered p ∷ []) (map delivered ps)

-- A new decoder that is fed the encodings of any packets, one after the other, queues what each
-- is delivered as, in order and nothing else.
pub feed-kiss_stream : (ps : List (List ℕ)) → (feed new (kiss_stream ps)).ready ≡ map delivered ps
feed-kiss_stream [] = unfold feed in refl
feed-kiss_stream (p ∷ ps) =
    ap (λ d. d.ready) (feed-append (kiss_encode p) (kiss_stream ps) new)
    ∙ ap (λ d. (feed d (kiss_stream ps)).ready) (feed-kiss_encode new p refl)
    ∙ feed-kiss_stream_loop ps (delivered p ∷ [])
