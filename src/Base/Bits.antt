-- ===== src/Base/Bits.antt =====
-- The binary digits of a word, and what masks, unions and shifts do to them.
use Prim.Native.Nat.{digits, bit_and-bitwise, bit_or-bitwise}
use native.Mathlib.Nat.{
  pow-suc, mul_assoc, mod-add-div, mul-add-mod_self_left, mod-lt, mod-eq_of_lt,
}
use styrene_rs.Base.{
  ℕ, zero, suc, ◌+◌, ◌-◌, ◌*◌, ◌/◌, ◌%◌, ◌^◌, ◌≤◌, ◌<◌, min, max, bit_and, bit_or, ◌≡◌, refl, ap,
  ◌∙◌, sym, arith, ◌==◌, ltb, if◌then◌else◌,
}

-- The digit at a place, the lowest at 0.
abbrev pub digit : ℕ → ℕ → ℕ
digit word zero = word % 2
digit word (suc place) = digit (word / 2) place

-- More rounds than the first number has digits change nothing.
digits_enough :
    (z : ℕ → ℕ) (f : ℕ → ℕ → ℕ) (rounds more a b : ℕ)
    → a ≤ rounds
    → a ≤ more
    → digits z f rounds a b ≡ digits z f more a b
digits_enough z f zero zero zero b p q = refl
digits_enough z f zero (suc more) zero b p q = refl
digits_enough z f (suc rounds) zero zero b p q = refl
digits_enough z f (suc rounds) (suc more) zero b p q = refl
digits_enough z f zero more (suc a) b p q = absurd (omega arith)
digits_enough z f (suc rounds) zero (suc a) b p q = absurd (omega arith)
digits_enough z f (suc rounds) (suc more) (suc a) b p q =
    ap (λ high. high * 2 + f (suc a % 2) (b % 2))
      (digits_enough z f rounds more (suc a / 2) (b / 2) (omega arith) (omega arith))

pub bit_and_lowest : (a b : ℕ) → bit_and a b ≡ bit_and (a / 2) (b / 2) * 2 + min (a % 2) (b % 2)
bit_and_lowest zero b = omega (arith, bit_and-bitwise 0 b, bit_and-bitwise 0 (b / 2))
bit_and_lowest (suc a) b = omega (
  arith,
  bit_and-bitwise (suc a / 2) (b / 2),
  digits_enough (λ b. zero) min (suc a / 2) a (suc a / 2) (b / 2) (omega arith) (omega arith),
  bit_and-bitwise (suc a) b,
)

pub bit_or_lowest : (a b : ℕ) → bit_or a b ≡ bit_or (a / 2) (b / 2) * 2 + max (a % 2) (b % 2)
bit_or_lowest zero b = omega (arith, bit_or-bitwise 0 b, bit_or-bitwise 0 (b / 2))
bit_or_lowest (suc a) b = omega (
  arith,
  bit_or-bitwise (suc a / 2) (b / 2),
  digits_enough (λ b. b) max (suc a / 2) a (suc a / 2) (b / 2) (omega arith) (omega arith),
  bit_or-bitwise (suc a) b,
)

bit_and_none : (rounds a : ℕ) → a ≤ rounds → bit_and a 0 ≡ 0
bit_and_none rounds zero h = refl
bit_and_none zero (suc a) h = absurd (omega arith)
bit_and_none (suc rounds) (suc a) h =
    omega (arith, bit_and_lowest (suc a) 0, bit_and_none rounds (suc a / 2) (omega arith))

bit_or_none : (rounds a : ℕ) → a ≤ rounds → bit_or a 0 ≡ a
bit_or_none rounds zero h = refl
bit_or_none zero (suc a) h = absurd (omega arith)
bit_or_none (suc rounds) (suc a) h =
    omega (arith, bit_or_lowest (suc a) 0, bit_or_none rounds (suc a / 2) (omega arith))

pub digit-le_one : (w i : ℕ) → digit w i ≤ 1
digit-le_one w zero = omega arith
digit-le_one w (suc i) = digit-le_one (w / 2) i

power : (d : ℕ) → 2 ^ suc d ≡ 2 ^ d * 2
power d = pow-suc 2 d

double_power : (a d : ℕ) → a * 2 ^ suc d ≡ a * 2 ^ d * 2
double_power a d = ap (λ t. a * t) (power d) ∙ sym (mul_assoc a (2 ^ d) 2)

power_positive : (d : ℕ) → 0 < 2 ^ d
power_positive zero = omega arith
power_positive (suc d) = omega (arith, power d, power_positive d)

half_power : (d : ℕ) → (2 ^ suc d / 2 ≡ 2 ^ d) × (2 ^ suc d % 2 ≡ 0)
half_power d = (omega (arith, power d), omega (arith, power d))

-- A mask with one digit picks that digit out.
pub bit_and_power : (d w : ℕ) → bit_and w (2 ^ d) ≡ digit w d * 2 ^ d
bit_and_power zero w = omega (arith, bit_and_lowest w 1, bit_and_none (w / 2) (w / 2) (omega arith))
bit_and_power (suc d) w =
    let high : bit_and (w / 2) (2 ^ suc d / 2) ≡ digit (w / 2) d * 2 ^ d =
      ap (bit_and (w / 2)) (half_power d).0 ∙ bit_and_power d (w / 2) in
    omega (
      arith,
      bit_and_lowest w (2 ^ suc d),
      high,
      double_power (digit (w / 2) d) d,
      (half_power d).1,
    )

-- A union with one digit sets that digit and no other.
pub digit-bit_or : (d w i : ℕ) → digit (bit_or w (2 ^ d)) i ≡ (if i == d then 1 else digit w i)
digit-bit_or zero w zero = omega (arith, bit_or_lowest w 1)
digit-bit_or zero w (suc i) =
    let high : bit_or w 1 / 2 ≡ w / 2 =
      omega (arith, bit_or_lowest w 1, bit_or_none (w / 2) (w / 2) (omega arith)) in
    ap (λ x. digit x i) high ∙ ground arith
digit-bit_or (suc d) w zero = ground (arith, bit_or_lowest w (2 ^ suc d), (half_power d).1)
digit-bit_or (suc d) w (suc i) =
    let high : bit_or w (2 ^ suc d) / 2 ≡ bit_or (w / 2) (2 ^ d) = omega (
      arith,
      bit_or_lowest w (2 ^ suc d),
      (half_power d).1,
      ap (bit_or (w / 2)) (half_power d).0,
    ) in
    ap (λ x. digit x i) high ∙ ground (arith, digit-bit_or d (w / 2) i)

-- A shift to the left moves every digit up.
pub digit-shift : (s w i : ℕ) → digit (w * 2 ^ s) i ≡ (if ltb i s then 0 else digit w (i - s))
digit-shift zero w i =
    let same : w * 2 ^ 0 ≡ w = omega arith in ap (λ x. digit x i) same ∙ ground arith
digit-shift (suc s) w zero = ground (arith, double_power w s)
digit-shift (suc s) w (suc i) =
    let double = double_power w s in
    let half : w * 2 ^ suc s / 2 ≡ w * 2 ^ s = omega (arith, double) in
    ap (λ x. digit x i) half ∙ ground (arith, digit-shift s w i)

halved_mod : (x m : ℕ) → 0 < m → (x % (m * 2) / 2 ≡ x / 2 % m) × (x % (m * 2) % 2 ≡ x % 2)
halved_mod x m h =
    let q : ℕ = x / 2 / m in
    let r : ℕ = x / 2 % m in
    let split : x ≡ m * 2 * q + (r * 2 + x % 2) = grind (arith, mod-add-div (x / 2) m) in
    let small : r * 2 + x % 2 < m * 2 = omega (arith, mod-lt (x / 2) h) in
    let cut : x % (m * 2) ≡ r * 2 + x % 2 =
      ap (λ y. y % (m * 2)) split
      ∙ mul-add-mod_self_left (m * 2) q (r * 2 + x % 2)
      ∙ mod-eq_of_lt small in
    (omega (arith, cut), omega (arith, cut))

pub digit_zero : (i : ℕ) → digit 0 i ≡ 0
digit_zero zero = refl
digit_zero (suc i) = digit_zero i

-- A word of `n` digits keeps the lowest `n`.
pub digit-mod : (n x i : ℕ) → digit (x % 2 ^ n) i ≡ (if ltb i n then digit x i else 0)
digit-mod zero x i =
    let nothing : x % 2 ^ 0 ≡ 0 = omega arith in
    ap (λ y. digit y i) nothing ∙ ground (arith, digit_zero i)
digit-mod (suc n) x zero =
    let cut = halved_mod x (2 ^ n) (power_positive n) in
    let same : x % 2 ^ suc n ≡ x % (2 ^ n * 2) = ap (λ m. x % m) (power n) in
    ground (arith, same, cut)
digit-mod (suc n) x (suc i) =
    let cut = halved_mod x (2 ^ n) (power_positive n) in
    let half : x % 2 ^ suc n / 2 ≡ x / 2 % 2 ^ n = ap (λ m. x % m / 2) (power n) ∙ cut.0 in
    ap (λ y. digit y i) half ∙ ground (arith, digit-mod n (x / 2) i)

scaled : (x p : ℕ) → x ≤ 1 → 0 < p → (x * p == 0) ≡ (x == 0)
scaled zero p small positive = ground arith
scaled (suc zero) p small positive = ground arith
scaled (suc (suc x)) p small positive = absurd (omega arith)

-- `word & (1 << d) == 0` reads the digit.
pub bit_and_test : (w d : ℕ) → (bit_and w (2 ^ d) == 0) ≡ (digit w d == 0)
bit_and_test w d =
    ap (λ x. x == 0) (bit_and_power d w)
    ∙ scaled (digit w d) (2 ^ d) (digit-le_one w d) (power_positive d)

-- A union of words whose digits do not meet is a sum.
pub bit_or_disjoint : (s a b : ℕ) → b < 2 ^ s → bit_or (a * 2 ^ s) b ≡ a * 2 ^ s + b
bit_or_disjoint zero a b h = omega (
  arith,
  bit_or_none (a * 2 ^ 0) (a * 2 ^ 0) (omega arith),
  ap (bit_or (a * 2 ^ 0)) (none_left b h),
)
  where
    none_left : (b : ℕ) → b < 2 ^ 0 → b ≡ 0
    none_left b h = omega arith
bit_or_disjoint (suc s) a b h =
    let double = double_power a s in
    let half : a * 2 ^ suc s / 2 ≡ a * 2 ^ s = omega (arith, double) in
    let lower : bit_or (a * 2 ^ suc s / 2) (b / 2) ≡ a * 2 ^ s + b / 2 =
      ap (λ x. bit_or x (b / 2)) half ∙ bit_or_disjoint s a (b / 2) (omega (arith, power s)) in
    omega (arith, bit_or_lowest (a * 2 ^ suc s) b, lower, double)
