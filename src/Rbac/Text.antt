-- ===== src/Rbac/Text.antt =====
-- The operations of the standard library on texts that crates/libs/styrene-rbac calls. A text is its bytes.
use styrene_rs.Base.{
  ℕ, ◌+◌, ◌≡◌, refl, Bool, true, false, ◌&&◌, ◌||◌, leb, if◌then◌else◌, List, [], ◌∷◌, arith,
  ◌==◌ as nat_eq,
}
use styrene_rs.Base.Bytes.{bytes_eq}

abbrev ascii_lower : ℕ → ℕ
ascii_lower b = if leb 65 b && leb b 90 then b + 32 else b

unfoldable pub to_ascii_lowercase : List ℕ → List ℕ
to_ascii_lowercase [] = []
to_ascii_lowercase (b ∷ text) = ascii_lower b ∷ to_ascii_lowercase text

abbrev pub is_ascii_hexdigit : ℕ → Bool
is_ascii_hexdigit b = (leb 48 b && leb b 57) || (leb 65 b && leb b 70) || (leb 97 b && leb b 102)

unfoldable pub all_hexdigits : List ℕ → Bool
all_hexdigits [] = true
all_hexdigits (b ∷ text) = is_ascii_hexdigit b && all_hexdigits text

-- `text.starts_with(prefix)`
unfoldable pub starts_with : List ℕ → List ℕ → Bool
starts_with text [] = true
starts_with [] (p ∷ prefix) = false
starts_with (b ∷ text) (p ∷ prefix) = nat_eq b p && starts_with text prefix

-- `texts.contains(text)`
unfoldable pub contains : List (List ℕ) → List ℕ → Bool
contains [] text = false
contains (x ∷ texts) text = bytes_eq x text || contains texts text

pub lowercase_twice :
    (text : List ℕ) → to_ascii_lowercase (to_ascii_lowercase text) ≡ to_ascii_lowercase text
unfolding to_ascii_lowercase
lowercase_twice [] = refl
lowercase_twice (b ∷ text) = ground (arith, lowercase_twice text)
