-- ===== src/Mesh/Wire/RoundTrip.antt =====
-- What the envelope of crates/libs/styrene-mesh/src/wire.rs writes and reads back.
use styrene_rs.Base.{
  ℕ, ◌≤◌, ◌≡◌, refl, sym, ap, ◌∙◌, ◌≢◌, inl, inr, Bool, true, List, ◌∷◌, ◌++◌, arith, ltb, ◌==◌,
  lt→ltb, le→ltb, ==_iff, Bool-cases, length, get_or, take, drop, length-append, length-take,
  length-drop, take-append-drop, drop-drop, drop-get_or, take-append_len, drop-append_len, Result,
  ok, err, Result-cases,
}
use mathlib.Core.Path.{subst}
use styrene_rs.Base.Bytes.{AllBytes, All-get_or, bytes_eq, bytes_eq_iff}
use styrene_rs.Mesh.WireError.{WireError, too_short, invalid_namespace, unsupported_version}
use styrene_rs.Mesh.MessageType.Bytes.{available, from_byte-as_u8, as_u8-from_byte}
use styrene_rs.Mesh.MessageType.{StyreneMessageType, from_byte}
use styrene_rs.Mesh.Wire.{StyreneMessage, namespace, wire_version, header_size, encode, decode}

-- A message of this version, of a type the build has, with a request identifier of 16 bytes.
pub record IsValid (pqc : Bool) (m : StyreneMessage) : Type 0 where
  pub this_version : m.version ≡ wire_version
  pub known_type : available pqc m.message_type ≡ true
  pub id_size : length m.request_id ≡ 16

-- A valid message (this version, a type of the build, a request identifier of 16 bytes) is
-- decoded from what encode writes.
pub decode-encode_message :
    (pqc : Bool) (m : StyreneMessage) → IsValid pqc m → decode pqc (encode m) ≡ ok m
unfolding decode encode bytes_eq
decode-encode_message pqc m v =
    let long : 29 ≤ length (encode m) =
      omega (arith, v.id_size, length-append m.request_id m.payload) in
    rw
      (
        le→ltb _ _ long,
        v.this_version,
        from_byte-as_u8 pqc m.message_type v.known_type,
        take-append_len 16 m.request_id m.payload v.id_size,
        drop-append_len 16 m.request_id m.payload v.id_size,
      )
      refl

-- What a message of the version is read as, once its type is known.
abbrev parsed : List ℕ → StyreneMessageType → StyreneMessage
parsed bytes message_type = record {
  version = get_or bytes 11 0;
  message_type = message_type;
  request_id = take 16 (drop 13 bytes);
  payload = drop header_size bytes;
}

-- The namespace, the two bytes after it, the identifier and the payload, put together again.
reassemble :
    (bytes : List ℕ)
    → header_size ≤ length bytes
    → take 11 bytes
        ++ (get_or bytes 11 0
            ∷ get_or bytes 12 0
            ∷ (take 16 (drop 13 bytes) ++ drop header_size bytes))
      ≡ bytes
reassemble bytes long =
    ap
      (λ l.
        take 11 bytes ++ (get_or bytes 11 0 ∷ get_or bytes 12 0 ∷ (take 16 (drop 13 bytes) ++ l)))
      (sym (drop-drop 13 16 bytes))
    ∙ ap (λ l. take 11 bytes ++ (get_or bytes 11 0 ∷ get_or bytes 12 0 ∷ l))
        (take-append-drop 16 (drop 13 bytes))
    ∙ ap (λ l. take 11 bytes ++ (get_or bytes 11 0 ∷ l))
        (sym (drop-get_or 12 bytes 0 (omega arith)))
    ∙ ap (λ l. take 11 bytes ++ l) (sym (drop-get_or 11 bytes 0 (omega arith)))
    ∙ take-append-drop 11 bytes

refused :
    (r : Result WireError StyreneMessage) (e : WireError) (m : StyreneMessage)
    → r ≡ err e
    → r ≢ ok m
refused r e m refusal acceptance = cc

accepted :
    (r : Result WireError StyreneMessage) (a m : StyreneMessage) → r ≡ ok a → r ≡ ok m → a ≡ m
accepted r a m is_a is_m = cc

parsed-IsValid :
    (pqc : Bool) (bytes : List ℕ) (t : StyreneMessageType)
    → AllBytes bytes
    → header_size ≤ length bytes
    → take 11 bytes ≡ namespace
    → get_or bytes 11 0 ≡ wire_version
    → from_byte pqc (get_or bytes 12 0) ≡ ok t
    → (encode (parsed bytes t) ≡ bytes) × IsValid pqc (parsed bytes t)
unfolding encode
parsed-IsValid pqc bytes t all long prefix version known =
    let (code, built) = as_u8-from_byte pqc (get_or bytes 12 0) t (All-get_or 12 bytes all) known in
    (
      ap
            (λ c.
              namespace
              ++ (get_or bytes 11 0 ∷ c ∷ (take 16 (drop 13 bytes) ++ drop header_size bytes)))
            code
          ∙ ap
              (λ p.
                p
                ++ (get_or bytes 11 0
                    ∷ get_or bytes 12 0
                    ∷ (take 16 (drop 13 bytes) ++ drop header_size bytes)))
              (sym prefix)
          ∙ reassemble bytes long,
      record {
        this_version = version;
        known_type = built;
        id_size = omega (arith, length-take 16 (drop 13 bytes), length-drop 13 bytes);
      },
    )

-- A message that decode accepts from bytes (numbers below 256) is valid (this version, a type of
-- the build, a request identifier of 16 bytes), and encode writes it back as the bytes it was
-- read from.
pub encode-decode_message :
    (pqc : Bool) (bytes : List ℕ) (m : StyreneMessage)
    → AllBytes bytes
    → decode pqc bytes ≡ ok m
    → (encode m ≡ bytes) × IsValid pqc m
unfolding decode
encode-decode_message pqc bytes m all h = elim (Bool-cases (ltb (length bytes) header_size)) [
  | inl short ↦ absurd (refused (decode pqc bytes) (too_short (length bytes)) m (rw short refl) h)
  | inr long ↦ elim (Bool-cases (bytes_eq (take 11 bytes) namespace)) [
    | inr other ↦ absurd (refused (decode pqc bytes) invalid_namespace m (rw (long, other) refl) h)
    | inl prefix ↦ elim (Bool-cases (get_or bytes 11 0 == wire_version)) [
      | inr other ↦ absurd (
          refused (decode pqc bytes) (unsupported_version (get_or bytes 11 0)) m
            (rw (long, prefix, other) refl) h)
      | inl version ↦ elim (Result-cases (from_byte pqc (get_or bytes 12 0))) [
        | inr (e, unknown) ↦
            absurd (refused (decode pqc bytes) e m (rw (long, prefix, version, unknown) refl) h)
        | inl (t, known) ↦
            let read : parsed bytes t ≡ m =
              accepted (decode pqc bytes) (parsed bytes t) m
                (rw (long, prefix, version, known) refl) h in
            subst (λ x. (encode x ≡ bytes) × IsValid pqc x) read
              (parsed-IsValid pqc bytes t all (ground (arith, lt→ltb (length bytes) header_size))
                ((bytes_eq_iff (take 11 bytes) namespace).0 prefix)
                ((==_iff (get_or bytes 11 0) wire_version).0 version) known)
      ]
    ]
  ]
]
