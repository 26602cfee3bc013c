-- ===== src/Crypt/Fernet.antt =====
-- crates/libs/styrene-rns/src/crypt/fernet.rs: tokens of an initialisation vector, a ciphertext and a
-- tag. AES-256-CBC with PKCS#7 padding and HMAC-SHA256 are third-party code: fields of `Ciphers`. The
-- vector that `generate_iv` draws, and the room in the output buffer, are arguments.
pub mod Tags
pub mod Sealing
use Prim.Native.Nat.{compare, Ordering}
use styrene_rs.Base.{
  [], ℕ, ◌+◌, ◌-◌, ◌*◌, ◌/◌, ◌^◌, ◌≤◌, min, ◌≡◌, ◌↔◌, Bool, true, false, Option, none, some, List,
  ◌∷◌, ◌++◌, ltb, leb, if◌then◌else◌, length, take, drop, replicate, splice, Result, ok, err, ◌>>=◌,
}
use styrene_rs.Base.Stateful.{ok_or}
use styrene_rs.Error.{RnsError, invalid_argument, incorrect_signature, crypto_error}

abbrev pub hmac_out_size : ℕ
hmac_out_size = 32

-- Without the feature `fernet-aes128`, the algorithm is AES-256.
abbrev pub aes_key_size : ℕ
aes_key_size = 32

abbrev pub iv_key_size : ℕ
iv_key_size = 16

abbrev pub aes_block_size : ℕ
aes_block_size = 16

abbrev pub fernet_overhead_size : ℕ
fernet_overhead_size = iv_key_size + hmac_out_size

abbrev pub fernet_max_padding_size : ℕ
fernet_max_padding_size = aes_block_size

-- The length of a text padded by PKCS#7.
abbrev pub padded_len : ℕ → ℕ
padded_len n = (n / aes_block_size + 1) * aes_block_size

-- Key, vector, input, and the room in the output buffer; `none` is the error of the library.
pub record Ciphers : Type 0 where
  pub aes_encrypt : List ℕ → List ℕ → List ℕ → ℕ → Option (List ℕ)
  pub aes_decrypt : List ℕ → List ℕ → List ℕ → ℕ → Option (List ℕ)
  pub hmac : List ℕ → List ℕ → List ℕ
  pub verify_slice : List ℕ → List ℕ → List ℕ → Bool

-- What the source relies on: padding fills whole blocks, decryption undoes encryption where the
-- buffer is as long as the ciphertext, a tag has 32 bytes, and `verify_slice` compares tags.
pub record IsLawful (c : Ciphers) : Type 0 where
  pub encrypts :
      (key iv text : List ℕ) (room : ℕ)
      → padded_len (length text) ≤ room
      → (cipher : List ℕ) × (c.aes_encrypt key iv text room ≡ some cipher)
        × (length cipher ≡ padded_len (length text))
        × ((space : ℕ) → length cipher ≤ space → c.aes_decrypt key iv cipher space ≡ some text)
  pub tag_size : (key message : List ℕ) → length (c.hmac key message) ≡ hmac_out_size
  pub verifies :
      (key message tag : List ℕ)
      → (c.verify_slice key message tag ≡ true) ↔ (c.hmac key message ≡ tag)

-- `Fernet` and `CachedFernet`: the two keys. The generator of a `Fernet` is the vector drawn.
pub record Fernet : Type 0 where
  pub sign_key : List ℕ
  pub enc_key : List ℕ

abbrev key_of : List ℕ → List ℕ
key_of bytes = splice (replicate aes_key_size 0) 0 (take (min aes_key_size (length bytes)) bytes)

unfoldable pub new_from_slices : List ℕ → List ℕ → Fernet
new_from_slices sign_key enc_key = record { sign_key = key_of sign_key; enc_key = key_of enc_key }

-- `checked_add` and `checked_mul` on `usize`, of 64 bits.
abbrev checked : ℕ → Result RnsError ℕ
checked n = if ltb n (2 ^ 64) then ok n else err invalid_argument

-- `x.cmp(y)` of each pair, up to the first that is not equal.
unfoldable pub find_difference : List ℕ → List ℕ → Option Ordering
find_difference [] ys = none
find_difference (x ∷ xs) [] = none
find_difference (x ∷ xs) (y ∷ ys) = elim (compare x y) [
  | Ordering.eq ↦ find_difference xs ys
  | Ordering.lt ↦ some Ordering.lt
  | Ordering.gt ↦ some Ordering.gt
]

abbrev is_equal : Ordering → Bool
is_equal Ordering.eq = true
is_equal _ = false

unfoldable pub tags_match : List ℕ → List ℕ → Bool
unfolding find_difference
tags_match expected actual = is_equal (elim (find_difference expected actual) [
  | some order ↦ order
  | none ↦ compare (length actual) (length expected)
])

module _ (c : Ciphers) where
  -- `Fernet::encrypt`; the answer is the token, the part of the buffer that was written.
  unfoldable pub encrypt : Fernet → List ℕ → List ℕ → ℕ → Result RnsError (List ℕ)
  encrypt f iv text room = do
    block_count ← checked (length text / aes_block_size + 1)
    padded_cipher_len ← checked (block_count * aes_block_size)
    required_len ← checked (fernet_overhead_size + padded_cipher_len)
    if ltb room required_len then err invalid_argument else do
      cipher ← ok_or (c.aes_encrypt f.enc_key iv text (room - length iv)) invalid_argument
      let front = iv ++ cipher
      ok (front ++ c.hmac f.sign_key front)

  -- `Fernet::verify`
  unfoldable pub verify : Fernet → List ℕ → Result RnsError (List ℕ)
  verify f token =
      if leb (length token) fernet_overhead_size
      then err invalid_argument
      else let start = length token - hmac_out_size in
        if c.verify_slice f.sign_key (take start token) (drop start token)
        then ok token
        else err incorrect_signature

  -- `CachedFernet::verify`
  unfoldable pub verify_cached : Fernet → List ℕ → Result RnsError (List ℕ)
  unfolding tags_match
  verify_cached f token =
      if leb (length token) fernet_overhead_size
      then err invalid_argument
      else let start = length token - hmac_out_size in
        if tags_match (drop start token) (c.hmac f.sign_key (take start token))
        then ok token
        else err incorrect_signature

  -- `decrypt` of both types, of a token that was verified.
  unfoldable pub decrypt : Fernet → List ℕ → ℕ → Result RnsError (List ℕ)
  decrypt f token room =
      if leb (length token) fernet_overhead_size
      then err invalid_argument
      else let start = length token - hmac_out_size in
        ok_or
          (c.aes_decrypt f.enc_key (take iv_key_size token) (drop iv_key_size (take start token))
            room)
          crypto_error
