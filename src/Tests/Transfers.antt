-- ===== src/Tests/Transfers.antt =====
-- The encryption of links and the transfer of resources at concrete inputs, with ciphers that only pad.
use mathlib.Core.List.{Memᴰ}
use styrene_rs.Base.{
  [], ℕ, zero, suc, ◌+◌, ◌-◌, ◌≤◌, ◌<◌, ◌≡◌, refl, ap, sym, Bool, true, false, Option, none, some,
  List, ◌∷◌, ◌++◌, arith, ltb, length, take, drop, replicate, length-append, length-take,
  length-replicate, drop-append_len, le→ltb, Result, ok, err, if◌then◌else◌,
}
use styrene_rs.Base.Bytes.{bytes_eq, bytes_eq_iff}
use styrene_rs.Hash.{Hash}
use styrene_rs.Crypt.Fernet.{
  Ciphers, Fernet, IsLawful, padded_len, new_from_slices, encrypt, verify, verify_cached, decrypt,
  fernet_overhead_size,
}
use styrene_rs.Crypt.Fernet.Tags.{verify_cached_lem}
use styrene_rs.Crypt.Fernet.Sealing.{decrypt-encrypt}
use styrene_rs.Transport.Link.Cipher
use styrene_rs.Transport.Link.Cipher.{LinkCipher, link_cipher, handshake_keys, link_cipher-IsLawful}
use styrene_rs.Transport.Resource.Messages.{MessagePack, pack}
use styrene_rs.Transport.Resource.Sender
use styrene_rs.Transport.Resource.Sender.{
  Draws, Prepared, ResourceSender, divide, prepare, metadata_prefix,
}
use mathlib.Core.Path.{subst}
use styrene_rs.Transport.Resource.Transfer.Slots.{Distinct}
use styrene_rs.Transport.Resource.Transfer.Complete.{Completes, transfer-Completes}

abbrev pub digest_of : List ℕ → List ℕ
digest_of xs = take 32 (xs ++ replicate 32 0)

digest_len : (xs : List ℕ) → length (digest_of xs) ≡ 32
digest_len xs = omega (
  arith,
  length-take 32 (xs ++ replicate 32 0),
  length-append xs (replicate 32 0),
  length-replicate {A = ℕ} 32 0,
)

abbrev pad_of : ℕ → ℕ
pad_of n = padded_len n - n

-- The padding stands in front, its length first.
abbrev padded : List ℕ → List ℕ
padded text = pad_of (length text) ∷ (replicate (pad_of (length text) - 1) 0 ++ text)

abbrev unpadded : List ℕ → Option (List ℕ)
unpadded [] = none
unpadded (pad ∷ rest) = some (drop (pad - 1) rest)

abbrev toy_ciphers : Ciphers
toy_ciphers = record {
  aes_encrypt =
      λ key iv text room. if ltb room (padded_len (length text)) then none else some (padded text);
  aes_decrypt = λ key iv cipher room. if ltb room (length cipher) then none else unpadded cipher;
  hmac = λ key message. digest_of message;
  verify_slice = λ key message tag. bytes_eq (digest_of message) tag;
}

toy_encrypts :
    (text : List ℕ) (room : ℕ)
    → padded_len (length text) ≤ room
    → (cipher : List ℕ) × ((if ltb room (padded_len (length text))
          then none
          else some (padded text))
        ≡ some cipher)
      × (length cipher ≡ padded_len (length text))
      × ((space : ℕ)
          → length cipher ≤ space
          → (if ltb space (length cipher) then none else unpadded cipher) ≡ some text)
toy_encrypts text room h =
    let n : ℕ = pad_of (length text) - 1 in
    let size : length (padded text) ≡ padded_len (length text) =
      omega (arith, length-append (replicate n 0) text, length-replicate {A = ℕ} n 0) in
    let opened : unpadded (padded text) ≡ some text =
      ap some (drop-append_len n (replicate n 0) text (length-replicate {A = ℕ} n 0)) in
    (padded text, rw (le→ltb _ _ h) refl, size, λ space enough. rw (le→ltb _ _ enough) opened)

toy_ciphers-IsLawful : IsLawful toy_ciphers
toy_ciphers-IsLawful = record {
  encrypts = λ key iv text room h. toy_encrypts text room h;
  tag_size = λ key message. digest_len message;
  verifies = λ key message tag. bytes_eq_iff (digest_of message) tag;
}

abbrev toy_fernet : Fernet
toy_fernet = record { sign_key = replicate 32 1; enc_key = replicate 32 2 }

abbrev toy_iv : List ℕ
toy_iv = 1 ∷ 2 ∷ 3 ∷ 4 ∷ 5 ∷ 6 ∷ 7 ∷ 8 ∷ 9 ∷ 10 ∷ 11 ∷ 12 ∷ 13 ∷ 14 ∷ 15 ∷ 16 ∷ []

abbrev toy_token : List ℕ
toy_token = digest_of toy_iv ++ digest_of (digest_of toy_iv)

decrypt-encrypt_example :
    (token : List ℕ) × (encrypt toy_ciphers toy_fernet toy_iv (65 ∷ 66 ∷ []) 80 ≡ ok token)
    × (length token ≡ fernet_overhead_size + padded_len 2)
    × (verify toy_ciphers toy_fernet token ≡ ok token)
    × ((space : ℕ)
        → padded_len 2 ≤ space
        → decrypt toy_ciphers toy_fernet token space ≡ ok (65 ∷ 66 ∷ []))
decrypt-encrypt_example =
    decrypt-encrypt toy_ciphers toy_fernet toy_iv (65 ∷ 66 ∷ []) 80 toy_ciphers-IsLawful refl
      (omega arith) (omega arith)

verify_cached_lem_example :
    verify_cached toy_ciphers toy_fernet toy_token ≡ verify toy_ciphers toy_fernet toy_token
verify_cached_lem_example = verify_cached_lem toy_ciphers toy_fernet toy_token toy_ciphers-IsLawful

abbrev toy_link : LinkCipher
toy_link = link_cipher toy_ciphers (replicate 16 3) (handshake_keys (replicate 64 4))

toy_link-IsLawful : Cipher.IsLawful toy_link
toy_link-IsLawful =
    link_cipher-IsLawful toy_ciphers (replicate 16 3) (handshake_keys (replicate 64 4))
      toy_ciphers-IsLawful

link_cipher-IsLawful_example : Cipher.IsLawful toy_link
link_cipher-IsLawful_example =
    link_cipher-IsLawful toy_ciphers (replicate 16 3) (handshake_keys (replicate 64 4))
      toy_ciphers-IsLawful

abbrev pub toy_msgpack : MessagePack
toy_msgpack = record {
  write_advertisement = λ adv. some (1 ∷ 2 ∷ 3 ∷ []);
  read_advertisement = λ bytes. none;
  write_update = λ update. none;
  read_update = λ bytes. none;
}

abbrev pub toy_bunzip : List ℕ → Option (List ℕ)
toy_bunzip bytes = none

abbrev toy_draws : Draws
toy_draws = record {
  random_hash = 9 ∷ 9 ∷ 9 ∷ 9 ∷ [];
  leading = 8 ∷ 8 ∷ 8 ∷ 8 ∷ [];
  data_iv = toy_iv;
  advertisement_iv = toy_iv;
}

-- Enough for two parts.
abbrev toy_bytes : List ℕ
toy_bytes = replicate 446 7

abbrev toy_prefix : List ℕ
toy_prefix = 0 ∷ 0 ∷ 1 ∷ 42 ∷ []

abbrev resource_sum : Hash
resource_sum = digest_of ((toy_prefix ++ toy_bytes) ++ toy_draws.random_hash)

abbrev cipher_text : List ℕ
cipher_text =
    elim (encrypt toy_ciphers (new_from_slices (replicate 32 4) (replicate 32 4)) toy_iv
      (toy_draws.leading ++ (toy_prefix ++ toy_bytes)) 582) [ ok token ↦ token | err _ ↦ [] ]

abbrev toy_prepared : Prepared
toy_prepared =
    divide digest_of toy_draws (some (42 ∷ [])) (toy_prefix ++ toy_bytes) resource_sum
      (digest_of ((toy_prefix ++ toy_bytes) ++ resource_sum)) cipher_text

toy_prepares : prepare digest_of toy_link toy_draws toy_bytes (some (42 ∷ [])) ≡ ok toy_prepared
unfolding prepare encrypt Cipher.link_encrypt handshake_keys
toy_prepares = refl

two_parts : length toy_prepared.parts ≡ 2
unfolding divide encrypt
two_parts = refl

toy_hashes : toy_prepared.map_hashes ≡ (1 ∷ 2 ∷ 3 ∷ 4 ∷ []) ∷ (7 ∷ 7 ∷ 7 ∷ 7 ∷ []) ∷ []
unfolding divide encrypt
toy_hashes = refl

toy-Distinct : Distinct toy_prepared.map_hashes
toy-Distinct = subst Distinct (sym toy_hashes) two_differ
  where
    two_differ : Distinct ((1 ∷ 2 ∷ 3 ∷ 4 ∷ []) ∷ (7 ∷ 7 ∷ 7 ∷ 7 ∷ []) ∷ [])
    two_differ zero zero hash e d = refl
    two_differ (suc zero) (suc zero) hash e d = refl
    two_differ zero (suc zero) hash e d = ground arith
    two_differ (suc zero) zero hash e d = ground arith
    two_differ (suc (suc i)) j hash e d = ground arith
    two_differ zero (suc (suc j)) hash e d = ground arith
    two_differ (suc zero) (suc (suc j)) hash e d = ground arith

abbrev is_ok {ℓ κ} : {E : Type ℓ} {A : Type κ} → Result E A → Bool
is_ok (ok a) = true
is_ok (err e) = false

value_of {ℓ κ} : {E : Type ℓ} {A : Type κ} (r : Result E A) → is_ok r ≡ true → (a : A) × (r ≡ ok a)
value_of (ok a) h = (a, refl)
value_of (err e) h = ground arith

toy_sends :
    is_ok (Sender.new digest_of toy_link toy_msgpack toy_draws 0 toy_bytes (some (42 ∷ []))) ≡ true
unfolding Sender.new prepare encrypt Cipher.link_encrypt handshake_keys pack
toy_sends = refl

abbrev toy_sender : ResourceSender
toy_sender =
    (value_of (Sender.new digest_of toy_link toy_msgpack toy_draws 0 toy_bytes (some (42 ∷ [])))
      toy_sends).0

both_parts : (j : ℕ) → j < length toy_prepared.parts → Memᴰ j (1 ∷ 1 ∷ 0 ∷ [])
both_parts zero h = Memᴰ.tail (Memᴰ.tail (Memᴰ.head refl))
both_parts (suc zero) h = Memᴰ.head refl
both_parts (suc (suc j)) h = absurd (omega (arith, two_parts))

-- The second part comes first, and twice.
transfer-Completes_example :
    Completes digest_of toy_link toy_msgpack toy_bunzip toy_draws
      (some (42 ∷ []))
      toy_prefix
      toy_bytes
      toy_prepared
      toy_sender
      5
      (replicate 16 3)
      (1 ∷ 1 ∷ 0 ∷ [])
transfer-Completes_example =
    transfer-Completes digest_of toy_link toy_msgpack toy_bunzip toy_draws (some (42 ∷ []))
      toy_prefix toy_bytes toy_prepared toy_sender 0 5 (replicate 16 3) (1 ∷ 1 ∷ 0 ∷ []) digest_len
      link_cipher-IsLawful_example (unfold metadata_prefix in refl) refl refl (omega arith)
      toy_prepares
      (value_of (Sender.new digest_of toy_link toy_msgpack toy_draws 0 toy_bytes (some (42 ∷ [])))
        toy_sends).1
      toy-Distinct (omega (arith, two_parts)) both_parts
