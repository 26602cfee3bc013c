-- ===== src/Channel/Envelope/RoundTrip.antt =====
-- What an envelope of crates/libs/styrene-rns/src/transport/channel.rs is read back as.
use styrene_rs.Base.{
  [], ℕ, ◌/◌, ◌%◌, ◌^◌, ◌≤◌, ◌<◌, ◌≡◌, refl, ap, ◌∙◌, ◌≢◌, inl, inr, List, ◌∷◌, ◌++◌, arith, leb,
  lt→ltb, leb→le, Bool-cases, length, take, drop, length-append, length-take, take-append-drop,
  take-append_exact, Result, ok, err,
}
use mathlib.Core.Path.{subst}
use styrene_rs.Base.Bytes.{IsByte, AllBytes, from_be_bytes}
use styrene_rs.Channel.Envelope.{ChannelError, invalid_frame, Envelope, pack, unpack}

-- The two words are 16 bits wide, and so is the length of the payload.
pub record IsValid (e : Envelope) : Type 0 where
  pub type_size : e.msg_type < 2 ^ 16
  pub sequence_size : e.sequence < 2 ^ 16
  pub payload_size : length e.payload < 2 ^ 16

pub word : (n : ℕ) → from_be_bytes (n / 256) (n % 256) ≡ n
word n = omega arith

-- A valid envelope (two 16-bit words and a payload of fewer than 65536 bytes) is read back from
-- what it is packed as, whatever bytes come after it.
pub unpack-pack : (e : Envelope) (rest : List ℕ) → IsValid e → unpack (pack e ++ rest) ≡ ok e
unfolding unpack pack
unpack-pack e rest v =
    let len : length e.payload % 2 ^ 16 ≡ length e.payload = omega (arith, v.payload_size) in
    let long : length e.payload ≤ length (e.payload ++ rest) =
      omega (arith, length-append e.payload rest) in
    ground (
      arith,
      len,
      word e.msg_type,
      word e.sequence,
      word (length e.payload),
      take-append_exact e.payload rest,
    )

word_bytes : (n hi lo : ℕ) → n ≡ from_be_bytes hi lo → IsByte lo → (n / 256 ≡ hi) × (n % 256 ≡ lo)
word_bytes n hi lo e small = (omega arith, omega arith)

word_size : (hi lo : ℕ) → IsByte hi → IsByte lo → from_be_bytes hi lo < 2 ^ 16
word_size hi lo h l = omega (arith, h, l)

pack_bytes :
    (e : Envelope) (tail : List ℕ) (a b c d h l : ℕ)
    → (e.msg_type / 256 ≡ a) × (e.msg_type % 256 ≡ b)
    → (e.sequence / 256 ≡ c) × (e.sequence % 256 ≡ d)
    → (length e.payload % 2 ^ 16 / 256 ≡ h) × (length e.payload % 2 ^ 16 % 256 ≡ l)
    → pack e ++ tail ≡ a ∷ b ∷ c ∷ d ∷ h ∷ l ∷ (e.payload ++ tail)
unfolding pack
pack_bytes e tail a b c d h l (ea, eb) (ec, ed) (eh, el) = rw (ea, eb, ec, ed, eh, el) refl

-- The envelope that six bytes and what follows them stand for.
abbrev framed : ℕ → ℕ → ℕ → ℕ → ℕ → ℕ → List ℕ → Envelope
framed a b c d h l rest = record {
  msg_type = from_be_bytes a b;
  sequence = from_be_bytes c d;
  payload = take (from_be_bytes h l) rest;
}

framed-pack :
    (a b c d h l : ℕ) (rest : List ℕ)
    → AllBytes (a ∷ b ∷ c ∷ d ∷ h ∷ l ∷ rest)
    → from_be_bytes h l ≤ length rest
    → (pack (framed a b c d h l rest) ++ drop (from_be_bytes h l) rest
        ≡ a ∷ b ∷ c ∷ d ∷ h ∷ l ∷ rest)
      × IsValid (framed a b c d h l rest)
framed-pack a b c d h l rest (wa, (wb, (wc, (wd, (wh, (wl, _)))))) long =
    let size : length (take (from_be_bytes h l) rest) ≡ from_be_bytes h l =
      omega (arith, length-take (from_be_bytes h l) rest, long) in
    let small : from_be_bytes h l < 2 ^ 16 = word_size h l wh wl in
    let sent : length (take (from_be_bytes h l) rest) % 2 ^ 16 ≡ from_be_bytes h l =
      omega (arith, small, size) in
    let sized : length (take (from_be_bytes h l) rest) < 2 ^ 16 = omega (arith, small, size) in
    (
      pack_bytes (framed a b c d h l rest) (drop (from_be_bytes h l) rest) a b c d h l
            (word_bytes (from_be_bytes a b) a b refl wb)
            (word_bytes (from_be_bytes c d) c d refl wd)
            (word_bytes (length (take (from_be_bytes h l) rest) % 2 ^ 16) h l sent wl)
          ∙ ap (λ x. a ∷ b ∷ c ∷ d ∷ h ∷ l ∷ x) (take-append-drop (from_be_bytes h l) rest),
      record {
        type_size = word_size a b wa wb;
        sequence_size = word_size c d wc wd;
        payload_size = sized;
      },
    )

unpack-framed :
    (a b c d h l : ℕ) (rest : List ℕ)
    → from_be_bytes h l ≤ length rest
    → unpack (a ∷ b ∷ c ∷ d ∷ h ∷ l ∷ rest) ≡ ok (framed a b c d h l rest)
unfolding unpack
unpack-framed a b c d h l rest long = ground arith

unpack_cut :
    (a b c d h l : ℕ) (rest : List ℕ)
    → length rest < from_be_bytes h l
    → unpack (a ∷ b ∷ c ∷ d ∷ h ∷ l ∷ rest) ≡ err invalid_frame
unfolding unpack
unpack_cut a b c d h l rest short = ground arith

unpack_short : (raw : List ℕ) → length raw < 6 → unpack raw ≡ err invalid_frame
unfolding unpack
unpack_short raw short = rw (lt→ltb (length raw) 6 short) refl

refused : (r : Result ChannelError Envelope) (e : Envelope) → r ≡ err invalid_frame → r ≢ ok e
refused r e refusal acceptance = cc

accepted : (r : Result ChannelError Envelope) (a e : Envelope) → r ≡ ok a → r ≡ ok e → a ≡ e
accepted r a e is_a is_e = cc

-- Bytes (numbers below 256) that are read as an envelope start with that envelope packed, and
-- the envelope is valid (two 16-bit words and a payload of fewer than 65536 bytes).
pub pack-unpack :
    (raw : List ℕ) (e : Envelope)
    → AllBytes raw
    → unpack raw ≡ ok e
    → ((rest : List ℕ) × (pack e ++ rest ≡ raw)) × IsValid e
pack-unpack ([]) e all is_e =
    absurd (refused (unpack ([])) e (unpack_short ([]) (omega arith)) is_e)
pack-unpack (a ∷ []) e all is_e =
    absurd (refused (unpack (a ∷ [])) e (unpack_short (a ∷ []) (omega arith)) is_e)
pack-unpack (a ∷ b ∷ []) e all is_e =
    absurd (refused (unpack (a ∷ b ∷ [])) e (unpack_short (a ∷ b ∷ []) (omega arith)) is_e)
pack-unpack (a ∷ b ∷ c ∷ []) e all is_e =
    absurd (refused (unpack (a ∷ b ∷ c ∷ [])) e (unpack_short (a ∷ b ∷ c ∷ []) (omega arith)) is_e)
pack-unpack (a ∷ b ∷ c ∷ d ∷ []) e all is_e =
    absurd (
      refused (unpack (a ∷ b ∷ c ∷ d ∷ [])) e (unpack_short (a ∷ b ∷ c ∷ d ∷ []) (omega arith))
        is_e)
pack-unpack (a ∷ b ∷ c ∷ d ∷ h ∷ []) e all is_e = absurd (
    refused (unpack (a ∷ b ∷ c ∷ d ∷ h ∷ [])) e
      (unpack_short (a ∷ b ∷ c ∷ d ∷ h ∷ []) (omega arith)) is_e)
pack-unpack (a ∷ b ∷ c ∷ d ∷ h ∷ l ∷ rest) e all is_e =
    let raw : List ℕ = a ∷ b ∷ c ∷ d ∷ h ∷ l ∷ rest in
    elim (Bool-cases (leb (from_be_bytes h l) (length rest))) [
      | inl enough ↦
          let long : from_be_bytes h l ≤ length rest =
            leb→le (from_be_bytes h l) (length rest) enough in
          let (whole, valid) = framed-pack a b c d h l rest all long in
          subst (λ x. ((tail : List ℕ) × (pack x ++ tail ≡ raw)) × IsValid x)
            (accepted (unpack raw) (framed a b c d h l rest) e (unpack-framed a b c d h l rest long)
              is_e)
            ((drop (from_be_bytes h l) rest, whole), valid)
      | inr cut ↦ absurd (refused (unpack raw) e (unpack_cut a b c d h l rest (ground arith)) is_e)
    ]
