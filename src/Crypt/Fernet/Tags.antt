-- ===== src/Crypt/Fernet/Tags.antt =====
-- The two comparisons of tags agree: `verify_slice` of the library, and the loop of `CachedFernet`.
use styrene_rs.Base.{
  [], ℕ, ◌≡◌, ◌↔◌, Bool, true, List, ◌∷◌, arith, leb, if◌then◌else◌, length, take, drop, ◌-◌, ok,
  err, ap, sym,
}
use styrene_rs.Error.{invalid_argument, incorrect_signature}
use styrene_rs.Crypt.Fernet.{
  Ciphers, IsLawful, Fernet, tags_match, find_difference, verify, verify_cached, hmac_out_size,
  fernet_overhead_size,
}

pub tags_match_iff : (xs ys : List ℕ) → (tags_match xs ys ≡ true) ↔ (xs ≡ ys)
unfolding tags_match find_difference
tags_match_iff [] [] = ground arith
tags_match_iff [] (y ∷ ys) = ground arith
tags_match_iff (x ∷ xs) [] = ground arith
tags_match_iff (x ∷ xs) (y ∷ ys) = ground (arith, tags_match_iff xs ys)

same_test : (a b : Bool) → ((a ≡ true) ↔ (b ≡ true)) → a ≡ b
same_test a b h = ground arith

-- With lawful ciphers, the verification of CachedFernet, which compares the tags byte by byte,
-- answers what that of Fernet answers, for every token.
pub verify_cached_lem :
    (c : Ciphers) (f : Fernet) (token : List ℕ)
    → IsLawful c
    → verify_cached c f token ≡ verify c f token
unfolding verify verify_cached
verify_cached_lem c f token laws =
    let start : ℕ = length token - hmac_out_size in
    let tag : List ℕ = drop start token in
    let front : List ℕ = take start token in
    let tests : tags_match tag (c.hmac f.sign_key front) ≡ c.verify_slice f.sign_key front tag =
      same_test _ _ (
        λ e.
            (laws.verifies f.sign_key front tag).1
              (sym ((tags_match_iff tag (c.hmac f.sign_key front)).0 e)),
        λ e.
            (tags_match_iff tag (c.hmac f.sign_key front)).1
              (sym ((laws.verifies f.sign_key front tag).0 e)),
      ) in
    ap
      (λ test.
        if leb (length token) fernet_overhead_size
        then err invalid_argument
        else (if test then ok token else err incorrect_signature))
      tests
