-- ===== src/Transport/Resource/Sender/Cutting.antt =====
-- What a sender cuts up is put together again: the parts of the token, and the metadata of the data.
use styrene_rs.Base.{
  [], ℕ, zero, suc, ◌+◌, ◌*◌, ◌/◌, ◌%◌, ◌^◌, ◌≤◌, ◌<◌, ◌≡◌, refl, ap, ◌∙◌, bit_or, Bool, true,
  false, Option, none, some, List, ◌∷◌, ◌++◌, arith, ltb, leb, length, take, drop, length-append,
  length-take, length-drop, take-append-drop, take-append_exact, drop-append_exact, le→ltb, le→leb,
  ok,
}
use styrene_rs.Base.Bits.{bit_or_disjoint}
use styrene_rs.Transport.Resource.{metadata_max_size}
use styrene_rs.Transport.Resource.Messages.{concat}
use styrene_rs.Transport.Resource.Sender.{chunks, total_len, metadata_prefix}
use styrene_rs.Transport.Resource.Receiver.Assembly.{split_metadata}

pub chunks_lem :
    (fuel size : ℕ) (xs : List ℕ)
    → length xs ≤ fuel
    → 0 < size
    → (concat (chunks fuel size xs) ≡ xs)
      × (length (chunks fuel size xs) ≤ total_len (chunks fuel size xs))
      × (0 < length xs → 0 < length (chunks fuel size xs))
unfolding chunks concat total_len
chunks_lem fuel size [] enough h = (refl, omega arith, λ p. absurd (omega arith))
chunks_lem zero size (x ∷ xs) enough h = absurd (omega arith)
chunks_lem (suc fuel) size (x ∷ xs) enough h =
    let rest : List ℕ = drop size (x ∷ xs) in
    let (whole, sizes, some_parts) =
      chunks_lem fuel size rest (omega (arith, length-drop size (x ∷ xs))) h in
    (
      ap (λ l. take size (x ∷ xs) ++ l) whole ∙ take-append-drop size (x ∷ xs),
      omega (arith, length-take size (x ∷ xs)),
      λ p. omega arith,
    )

three_bytes :
    (n : ℕ)
    → n ≤ metadata_max_size
    → bit_or (bit_or (n / 2 ^ 16 % 256 * 2 ^ 16) (n / 2 ^ 8 % 256 * 2 ^ 8)) (n % 256) ≡ n
three_bytes n h =
    let high : ℕ = n / 65536 % 256 in
    let middle : ℕ = n / 256 % 256 in
    let inner : bit_or (high * 2 ^ 16) (middle * 2 ^ 8) ≡ (high * 256 + middle) * 2 ^ 8 =
      bit_or_disjoint 16 high (middle * 2 ^ 8) (omega arith) ∙ omega arith in
    ap (λ x. bit_or x (n % 256)) inner
    ∙ bit_or_disjoint 8 (high * 256 + middle) (n % 256) (omega arith)
    ∙ omega arith

abbrev pub has_some : Option (List ℕ) → Bool
has_some none = false
has_some (some xs) = true

split_some :
    (a b c : ℕ) (meta bytes : List ℕ)
    → bit_or (bit_or (a * 2 ^ 16) (b * 2 ^ 8)) c ≡ length meta
    → length meta ≤ metadata_max_size
    → split_metadata true (a ∷ b ∷ c ∷ (meta ++ bytes))
      ≡ ok (record { bytes = bytes; metadata = some meta })
unfolding split_metadata
split_some a b c meta bytes size h =
    let n : ℕ = length meta in
    let payload : List ℕ = a ∷ b ∷ c ∷ (meta ++ bytes) in
    let total : length payload ≡ 3 + n + length bytes = omega (arith, length-append meta bytes) in
    let header : leb 3 (length payload) ≡ true = le→leb _ _ (omega (arith, total)) in
    let small : ltb metadata_max_size n ≡ false = le→ltb _ _ h in
    let long : leb (3 + n) (length payload) ≡ true = le→leb _ _ (omega (arith, total)) in
    let three : 3 + n ≡ suc (suc (suc n)) = omega arith in
    let rest : drop (3 + n) payload ≡ bytes =
      ap (λ k. drop k payload) three ∙ drop-append_exact meta bytes in
    rw (header, size, small, long, rest, take-append_exact meta bytes) refl

pub split_metadata-metadata_prefix :
    (metadata : Option (List ℕ)) (prefix bytes : List ℕ)
    → metadata_prefix metadata ≡ ok prefix
    → split_metadata (has_some metadata) (prefix ++ bytes)
      ≡ ok (record { bytes = bytes; metadata = metadata })
unfolding metadata_prefix split_metadata
split_metadata-metadata_prefix none prefix bytes e =
    let empty : prefix ≡ [] = ground arith in ap (λ p. split_metadata false (p ++ bytes)) empty
split_metadata-metadata_prefix (some meta) prefix bytes e =
    let n : ℕ = length meta in
    let written : List ℕ = (n / 2 ^ 16 % 256) ∷ (n / 2 ^ 8 % 256) ∷ (n % 256) ∷ meta in
    let (fits, same) : (n ≤ metadata_max_size) × (prefix ≡ written) =
      (ground arith, ground arith) in
    ap (λ p. split_metadata true (p ++ bytes)) same
    ∙ split_some _ _ _ meta bytes (three_bytes n fits) fits
