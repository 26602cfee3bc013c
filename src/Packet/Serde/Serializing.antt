-- ===== src/Packet/Serde/Serializing.antt =====
-- What crates/libs/styrene-rns/src/serde.rs writes for a packet.
use styrene_rs.Base.{
  ℕ, ◌≡◌, refl, sym, ap, ◌∙◌, ◌≢◌, inl, inr, Option, none, some, List, [], ◌∷◌, ◌++◌, arith, length,
  length-append, ok, Result-cases,
}
use mathlib.Core.Path.{subst}
use styrene_rs.Packet.Header.{HeaderType, type1, type2, to_meta}
use styrene_rs.Packet.Context.{context_code}
use styrene_rs.Packet.Codec.{Packet, to_bytes, written_transport}
use styrene_rs.Packet.Serde.{
  serialize_header, serialize_address, serialize_context, serialize_transport, serialize,
}
use styrene_rs.Hash.{AddressHash}
use styrene_rs.Buffer.StaticBuffer.{as_slice}
use styrene_rs.Buffer.OutputBuffer.{OutputBuffer, Writes, done, bind_ok, ◌>>◌, write}
use styrene_rs.Buffer.OutputBuffer.Refinement.{
  appended, Fits, length-appended, appended-appended, appended_nil, write-Fits,
}

-- The method appends exactly these bytes wherever they fit, and answers the number.
abbrev Puts : Writes ℕ → ℕ → List ℕ → Type 0
Puts method n xs = (b : OutputBuffer) → Fits xs b → method b ≡ (ok n, appended xs b)

write_none : (b : OutputBuffer) → write [] b ≡ (ok 0, b)
unfolding write
write_none b = refl

write-Puts : (xs : List ℕ) → Puts (write xs) (length xs) xs
write-Puts [] b fits = write_none b ∙ ap (λ o. (ok 0, o)) (sym (appended_nil b))
write-Puts (x ∷ xs) b fits = write-Fits x xs b fits

done-Puts : Puts (done 0) 0 []
done-Puts b fits = ap (λ o. (ok 0, o)) (sym (appended_nil b))

then-Puts :
    (first second : Writes ℕ) (m n : ℕ) (xs ys : List ℕ)
    → Puts first m xs
    → Puts second n ys
    → Puts (first >> second) n (xs ++ ys)
then-Puts first second m n xs ys p q b fits =
    let here : Fits xs b = omega (arith, length-append xs ys, fits) in
    let later : Fits ys (appended xs b) =
      omega (arith, length-append xs ys, length-appended xs b here, fits) in
    bind_ok first (λ _. second) b (p b here)
    ∙ q (appended xs b) later
    ∙ ap (λ o. (ok n, o)) (appended-appended xs ys b here)

no_address : (l : List ℕ) → written_transport type2 none ≢ ok l
unfolding written_transport
no_address l e = cc

-- The transport address of the packet, as both writers treat it.
transport-Puts :
    (t : HeaderType) (x : Option AddressHash) (l : List ℕ)
    → written_transport t x ≡ ok l
    → (n : ℕ) × Puts (serialize_transport t x) n l
unfolding written_transport serialize_transport serialize_address
transport-Puts type1 x l e = let same : [] ≡ l = cc in (0, subst (Puts (done 0) 0) same done-Puts)
transport-Puts type2 none l e = absurd (no_address l e)
transport-Puts type2 (some x) l e =
    let same : x ≡ l = cc in (length x, subst (Puts (write x) (length x)) same (write-Puts x))

serialize-Puts :
    (p : Packet) (l : List ℕ)
    → written_transport p.header.header_type p.transport ≡ ok l
    → Puts (serialize p) (length (as_slice p.body)) (
        to_meta p.header
        ∷ p.header.hops
        ∷ (l ++ (p.destination ++ (context_code p.context ∷ as_slice p.body))))
unfolding serialize serialize_header serialize_address serialize_context
serialize-Puts p l e =
    let meta : List ℕ = to_meta p.header ∷ p.header.hops ∷ [] in
    let code : List ℕ = context_code p.context ∷ [] in
    let content : List ℕ = as_slice p.body in
    let (n, sent) = transport-Puts p.header.header_type p.transport l e in
    let last =
      then-Puts (write code) (write content) 1 (length content) code content (write-Puts code)
        (write-Puts content) in
    let address =
      then-Puts (write p.destination) (write code >> write content) (length p.destination)
        (length content) p.destination (code ++ content) (write-Puts p.destination) last in
    let routed =
      then-Puts (serialize_transport p.header.header_type p.transport)
        (write p.destination >> (write code >> write content)) n (length content) l
        (p.destination ++ (code ++ content)) sent address in
    then-Puts (write meta)
      (serialize_transport p.header.header_type p.transport
        >> (write p.destination >> (write code >> write content)))
      2 (length content) meta (l ++ (p.destination ++ (code ++ content))) (write-Puts meta) routed

to_bytes_ok :
    (p : Packet) (bytes : List ℕ)
    → to_bytes p ≡ ok bytes
    → (l : List ℕ) × (written_transport p.header.header_type p.transport ≡ ok l)
      × (to_meta p.header
            ∷ p.header.hops
            ∷ (l ++ (p.destination ++ (context_code p.context ∷ as_slice p.body)))
          ≡ bytes)
unfolding to_bytes
to_bytes_ok p bytes e = elim (Result-cases (written_transport p.header.header_type p.transport)) [
  | inl (l, sent) ↦ (l, sent, ground (arith, sent))
  | inr (x, bad) ↦ ground (arith, bad)
]

-- Where to_bytes writes a packet and the bytes fit the buffer, serialize appends the same bytes
-- to the buffer and answers the number of data bytes.
pub serialize-to_bytes :
    (p : Packet) (bytes : List ℕ) (b : OutputBuffer)
    → to_bytes p ≡ ok bytes
    → Fits bytes b
    → serialize p b ≡ (ok (length (as_slice p.body)), appended bytes b)
serialize-to_bytes p bytes b written fits =
    let (l, sent, whole) = to_bytes_ok p bytes written in
    subst (λ xs. Puts (serialize p) (length (as_slice p.body)) xs) whole (serialize-Puts p l sent) b
      fits
