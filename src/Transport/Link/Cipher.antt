-- ===== src/Transport/Link/Cipher.antt =====
-- `Link::encrypt` and `Link::decrypt`, with the keys of the session or, before the handshake, with the
-- derived key of the private identity (crates/libs/styrene-rns/src/identity.rs).
use styrene_rs.Base.{
  ℕ, ◌+◌, ◌^◌, ◌/◌, ◌≤◌, ◌<◌, ◌≡◌, refl, Option, none, some, List, leb, length, take, drop,
  if◌then◌else◌, Result, ok, err, ◌>>=◌, arith, lt→leb, false,
}
use styrene_rs.Error.{RnsError, invalid_argument}
use styrene_rs.Hash.{AddressHash}
use styrene_rs.Crypt.Fernet.{
  Ciphers, Fernet, new_from_slices, encrypt, verify, verify_cached, decrypt, fernet_overhead_size,
  padded_len, iv_key_size,
}
use styrene_rs.Crypt.Fernet
use styrene_rs.Transport.LinkTable.{public_key_length}
use styrene_rs.Crypt.Fernet.Tags.{verify_cached_lem}
use styrene_rs.Crypt.Fernet.Sealing.{decrypt-encrypt}

-- What the transfer of resources uses of a link: the vector drawn, the data and the room in the
-- output buffer go in.
pub record LinkCipher : Type 0 where
  pub id : AddressHash
  pub encrypt : List ℕ → List ℕ → ℕ → Result RnsError (List ℕ)
  pub decrypt : List ℕ → ℕ → Result RnsError (List ℕ)

abbrev pub encrypted_len : ℕ → ℕ
encrypted_len n = fernet_overhead_size + padded_len n

-- What it promises: with enough room there is a token of a known length, and it is opened again.
pub record IsLawful (link : LinkCipher) : Type 0 where
  pub opens :
      (iv text : List ℕ) (room : ℕ)
      → length iv ≡ iv_key_size
      → encrypted_len (length text) < 2 ^ 64
      → encrypted_len (length text) ≤ room
      → (token : List ℕ) × (link.encrypt iv text room ≡ ok token)
        × (length token ≡ encrypted_len (length text))
        × ((space : ℕ) → padded_len (length text) ≤ space → link.decrypt token space ≡ ok text)

abbrev pub derived_key_length : ℕ
derived_key_length = 64

pub record LinkKeys : Type 0 where
  pub session_cipher : Option Fernet
  pub derived_key : List ℕ

abbrev pub derived_fernet : List ℕ → Fernet
derived_fernet key =
    new_from_slices (take (derived_key_length / 2) key) (drop (derived_key_length / 2) key)

-- `handshake`: the session keys are the halves of the derived key.
unfoldable pub handshake_keys : List ℕ → LinkKeys
handshake_keys key = record {
  session_cipher = some (new_from_slices (take (length key / 2) key) (drop (length key / 2) key));
  derived_key = key;
}

module _ (c : Ciphers) where
  -- `PrivateIdentity::encrypt` and `decrypt`
  unfoldable pub identity_encrypt : List ℕ → List ℕ → List ℕ → ℕ → Result RnsError (List ℕ)
  identity_encrypt key iv text room = encrypt c (derived_fernet key) iv text room

  unfoldable pub identity_decrypt : List ℕ → List ℕ → ℕ → Result RnsError (List ℕ)
  identity_decrypt key token room =
      if leb (length token) public_key_length
      then err invalid_argument
      else verify c (derived_fernet key) token >>= λ verified.
          decrypt c (derived_fernet key) verified room

  unfoldable pub link_encrypt : LinkKeys → List ℕ → List ℕ → ℕ → Result RnsError (List ℕ)
  link_encrypt keys iv text room = elim keys.session_cipher [
    | some cached ↦ encrypt c cached iv text room
    | none ↦ identity_encrypt keys.derived_key iv text room
  ]

  unfoldable pub link_decrypt : LinkKeys → List ℕ → ℕ → Result RnsError (List ℕ)
  link_decrypt keys token room = elim keys.session_cipher [
    | some cached ↦ verify_cached c cached token >>= λ verified. decrypt c cached verified room
    | none ↦ identity_decrypt keys.derived_key token room
  ]

  abbrev pub link_cipher : AddressHash → LinkKeys → LinkCipher
  link_cipher id keys = record { id = id; encrypt = link_encrypt keys; decrypt = link_decrypt keys }

session_opens :
    (c : Ciphers) (f : Fernet) (token text : List ℕ) (space : ℕ)
    → Fernet.IsLawful c
    → verify c f token ≡ ok token
    → decrypt c f token space ≡ ok text
    → (verify_cached c f token >>= λ verified. decrypt c f verified space) ≡ ok text
session_opens c f token text space laws v d = rw (verify_cached_lem c f token laws, v, d) refl

identity_opens :
    (c : Ciphers) (key token text : List ℕ) (space : ℕ)
    → 32 < length token
    → verify c (derived_fernet key) token ≡ ok token
    → decrypt c (derived_fernet key) token space ≡ ok text
    → identity_decrypt c key token space ≡ ok text
unfolding identity_decrypt
identity_opens c key token text space long v d =
    let test : leb (length token) public_key_length ≡ false = lt→leb _ _ long in
    rw (test, v, d) refl

link_opens :
    (c : Ciphers) (session : Option Fernet) (key iv text : List ℕ) (room : ℕ)
    → Fernet.IsLawful c
    → length iv ≡ iv_key_size
    → encrypted_len (length text) < 2 ^ 64
    → encrypted_len (length text) ≤ room
    → let keys : LinkKeys = record { session_cipher = session; derived_key = key } in
      (token : List ℕ) × (link_encrypt c keys iv text room ≡ ok token)
      × (length token ≡ encrypted_len (length text))
      × ((space : ℕ) → padded_len (length text) ≤ space → link_decrypt c keys token space ≡ ok text)
unfolding link_encrypt link_decrypt identity_encrypt
link_opens c (some cached) key iv text room laws n fits large =
    let (token, sealed, size, v, d) = decrypt-encrypt c cached iv text room laws n fits large in
    (token, sealed, size, λ space h. session_opens c cached token text space laws v (d space h))
link_opens c none key iv text room laws n fits large =
    let (token, sealed, size, v, d) =
      decrypt-encrypt c (derived_fernet key) iv text room laws n fits large in
    let long : 32 < length token = omega arith in
    (token, sealed, size, λ space h. identity_opens c key token text space long v (d space h))

-- With lawful ciphers, the encryption of a link keeps what the transfer of resources relies on,
-- with the session keys and without them: given room there is a token of the known length, and
-- it is opened again.
pub link_cipher-IsLawful :
    (c : Ciphers) (id : AddressHash) (keys : LinkKeys)
    → Fernet.IsLawful c
    → IsLawful (link_cipher c id keys)
link_cipher-IsLawful c id keys laws = record {
  opens = λ iv text room n fits large.
      link_opens c keys.session_cipher keys.derived_key iv text room laws n fits large;
}
