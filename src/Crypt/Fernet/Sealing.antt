-- ===== src/Crypt/Fernet/Sealing.antt =====
-- A sealed text is opened again, whatever it is; a buffer without room is refused.
use styrene_rs.Base.{
  ℕ, ◌+◌, ◌-◌, ◌^◌, ◌≤◌, ◌<◌, ◌≡◌, refl, ap, ◌∙◌, sym, true, false, some, List, ◌++◌, arith, leb,
  length, take, drop, length-append, take-append_len, drop-append_len, lt→leb, ok, err,
  append_assoc,
}
use styrene_rs.Error.{invalid_argument}
use styrene_rs.Crypt.Fernet.{
  Ciphers, IsLawful, Fernet, encrypt, verify, decrypt, padded_len, iv_key_size, hmac_out_size,
  fernet_overhead_size,
}

pub encrypt_small :
    (c : Ciphers) (f : Fernet) (iv text : List ℕ) (room : ℕ)
    → fernet_overhead_size + padded_len (length text) < 2 ^ 64
    → room < fernet_overhead_size + padded_len (length text)
    → encrypt c f iv text room ≡ err invalid_argument
unfolding encrypt
encrypt_small c f iv text room fits small = ground arith

sealed_lem :
    (c : Ciphers) (f : Fernet) (iv text cipher : List ℕ) (room : ℕ)
    → fernet_overhead_size + padded_len (length text) < 2 ^ 64
    → fernet_overhead_size + padded_len (length text) ≤ room
    → c.aes_encrypt f.enc_key iv text (room - length iv) ≡ some cipher
    → encrypt c f iv text room ≡ ok ((iv ++ cipher) ++ c.hmac f.sign_key (iv ++ cipher))
unfolding encrypt
sealed_lem c f iv text cipher room fits large e = ground arith

module _ (c : Ciphers) (f : Fernet) (iv cipher tag : List ℕ) (n : length iv ≡ iv_key_size)
    (m : length tag ≡ hmac_out_size) (some_blocks : 0 < length cipher) where
  token_length : length ((iv ++ cipher) ++ tag) ≡ fernet_overhead_size + length cipher
  token_length = omega (arith, length-append (iv ++ cipher) tag, length-append iv cipher)

  token_start : length (iv ++ cipher) ≡ length ((iv ++ cipher) ++ tag) - hmac_out_size
  token_start = omega (arith, length-append (iv ++ cipher) tag)

  verify-token :
      IsLawful c
      → tag ≡ c.hmac f.sign_key (iv ++ cipher)
      → verify c f ((iv ++ cipher) ++ tag) ≡ ok ((iv ++ cipher) ++ tag)
  unfolding verify
  verify-token laws e =
      let token : List ℕ = (iv ++ cipher) ++ tag in
      let start : ℕ = length token - hmac_out_size in
      let front : take start token ≡ iv ++ cipher =
        take-append_len start (iv ++ cipher) tag token_start in
      let back : drop start token ≡ tag = drop-append_len start (iv ++ cipher) tag token_start in
      let long : leb (length token) fernet_overhead_size ≡ false =
        lt→leb _ _ (omega (arith, token_length)) in
      let holds : c.verify_slice f.sign_key (take start token) (drop start token) ≡ true =
        (laws.verifies f.sign_key _ _).1 (ap (c.hmac f.sign_key) front ∙ sym e ∙ sym back) in
      rw (long, holds) refl

  decrypt-token :
      (text : List ℕ) (space : ℕ)
      → c.aes_decrypt f.enc_key iv cipher space ≡ some text
      → decrypt c f ((iv ++ cipher) ++ tag) space ≡ ok text
  unfolding decrypt
  decrypt-token text space e =
      let token : List ℕ = (iv ++ cipher) ++ tag in
      let start : ℕ = length token - hmac_out_size in
      let front : take start token ≡ iv ++ cipher =
        take-append_len start (iv ++ cipher) tag token_start in
      let long : leb (length token) fernet_overhead_size ≡ false =
        lt→leb _ _ (omega (arith, token_length)) in
      let vector : take iv_key_size token ≡ iv =
        ap (take iv_key_size) (append_assoc iv cipher tag)
        ∙ take-append_len iv_key_size iv (cipher ++ tag) n in
      let body : drop iv_key_size (take start token) ≡ cipher =
        ap (drop iv_key_size) front ∙ drop-append_len iv_key_size iv cipher n in
      rw (long, vector, body, e) refl

-- With lawful ciphers, a vector of 16 bytes, a token length below 2 ^ 64 and a buffer that holds
-- it, encrypt succeeds with a token of 48 bytes and the padded text, verify lets it pass, and
-- decrypt with room for the padded text gives the text back.
pub decrypt-encrypt :
    (c : Ciphers) (f : Fernet) (iv text : List ℕ) (room : ℕ)
    → IsLawful c
    → length iv ≡ iv_key_size
    → fernet_overhead_size + padded_len (length text) < 2 ^ 64
    → fernet_overhead_size + padded_len (length text) ≤ room
    → (token : List ℕ) × (encrypt c f iv text room ≡ ok token)
      × (length token ≡ fernet_overhead_size + padded_len (length text))
      × (verify c f token ≡ ok token)
      × ((space : ℕ) → padded_len (length text) ≤ space → decrypt c f token space ≡ ok text)
decrypt-encrypt c f iv text room laws n fits large =
    let (cipher, sealed, size, opens) =
      laws.encrypts f.enc_key iv text (room - length iv) (omega arith) in
    let tag : List ℕ = c.hmac f.sign_key (iv ++ cipher) in
    let m : length tag ≡ hmac_out_size = laws.tag_size f.sign_key (iv ++ cipher) in
    let positive : 0 < length cipher = omega arith in
    (
      (iv ++ cipher) ++ tag,
      sealed_lem c f iv text cipher room fits large sealed,
      omega (arith, token_length c f iv cipher tag n m positive),
      verify-token c f iv cipher tag n m positive laws refl,
      λ space enough.
          decrypt-token c f iv cipher tag n m positive text space (opens space (omega arith)),
    )
