-- ===== src/Tunnel/Replay/Window.antt =====
-- The window against the set of all sequence numbers seen.
use styrene_rs.Base.{
  ℕ, zero, suc, ◌-◌, ◌*◌, ◌%◌, ◌^◌, ◌≤◌, ◌<◌, max, bit_or, ◌≡◌, refl, ap, ◌∙◌, inl, inr, Bool, true,
  false, ◌&&◌, ◌||◌, not, ltb, leb, ◌==◌, lt→ltb, le→ltb, if◌then◌else◌, List, [], ◌∷◌, arith, ok,
  err, Bool-cases,
}
use styrene_rs.Base.Bits.{digit, digit-bit_or, digit-shift, digit-mod, digit_zero, bit_and_test}
use styrene_rs.Tunnel.TunnelError.{replay_detected}
use styrene_rs.Tunnel.Replay.{
  ReplayWindow, no_packets, replay_window_size, is_fresh, check_replay, mark_seen,
}

unfoldable pub seen : ℕ → List ℕ → Bool
seen s [] = false
seen s (x ∷ xs) = x == s || seen s xs

unfoldable pub highest : List ℕ → ℕ
highest [] = 0
highest (x ∷ xs) = max x (highest xs)

pub seen-le-highest : (s : ℕ) (xs : List ℕ) → highest xs < s → seen s xs ≡ false
unfolding seen highest
seen-le-highest s [] h = refl
seen-le-highest s (x ∷ xs) h = ground (arith, seen-le-highest s xs)

seen-highest : (x : ℕ) (xs : List ℕ) → seen (highest (x ∷ xs)) (x ∷ xs) ≡ true
unfolding seen highest
seen-highest x [] = ground arith
seen-highest x (y ∷ ys) = ground (arith, seen-highest y ys)

-- A number passes when nothing was seen yet, when it lies above all that was seen, or when it lies less
-- than the size of the window below the highest and was not seen.
abbrev pub passes : List ℕ → ℕ → Bool
passes [] s = true
passes (x ∷ xs) s =
    let top = highest (x ∷ xs) in
    ltb top s || (ltb (top - s) replay_window_size && not (seen s (x ∷ xs)))

abbrev marks : List ℕ → ℕ → ℕ → ℕ
marks xs top d = if leb d top && seen (top - d) xs then 1 else 0

-- The window stands for the numbers seen.
abbrev pub Represents : List ℕ → ReplayWindow → Type 0
Represents [] w = w ≡ no_packets
Represents (x ∷ xs) w =
    (w.top ≡ highest (x ∷ xs))
    × ((d : ℕ) → d < replay_window_size → digit w.word d ≡ marks (x ∷ xs) w.top d)

not_fresh : (x : ℕ) (xs : List ℕ) (w : ReplayWindow) → Represents (x ∷ xs) w → is_fresh w ≡ false
not_fresh x xs w r =
    let lowest : digit w.word 0 ≡ 1 = ground (arith, r.1 0, seen-highest x xs, r.0) in
    ground (arith, lowest)

-- The check lets through exactly the numbers that pass.
pub check_replay-passes :
    (xs : List ℕ) (w : ReplayWindow) (s : ℕ)
    → Represents xs w
    → check_replay w s ≡ (if passes xs s then ok tt else err (replay_detected s))
unfolding check_replay
check_replay-passes [] w s r = rw r refl
check_replay-passes (x ∷ xs) w s r =
    let known = not_fresh x xs w r in
    let top = r.0 in
    elim (Bool-cases (ltb w.top s)) [
      | inl above ↦ ground (arith, known, top)
      | inr below ↦
          let read = bit_and_test w.word (w.top - s) in
          let stored = r.1 (w.top - s) in
          let back : w.top - s ≤ w.top = omega arith in
          let same : w.top - (w.top - s) ≡ s = ground arith in
          ground (arith, known, top, read, stored, back, ap (λ t. seen t (x ∷ xs)) same)
    ]

mark_first : (w : ReplayWindow) (s : ℕ) → Represents [] w → Represents (s ∷ []) (mark_seen w s)
unfolding mark_seen seen highest
mark_first w s r = rw r (ground arith, λ d small. lowest d)
  where
    lowest : (d : ℕ) → digit 1 d ≡ marks (s ∷ []) s d
    lowest zero = ground arith
    lowest (suc d) = digit_zero d ∙ ground arith

seen_next : (t s : ℕ) (xs : List ℕ) → seen t (s ∷ xs) ≡ (s == t || seen t xs)
unfolding seen
seen_next t s xs = refl

-- The digits of the window once it has slid up to a new highest number.
slid : ℕ → ℕ → ℕ
slid word shift = if leb replay_window_size shift then 1 else bit_or (word * 2 ^ shift % 2 ^ 64) 1

digit_one : (d : ℕ) → digit 1 d ≡ (if d == 0 then 1 else 0)
digit_one zero = ground arith
digit_one (suc d) = ground (arith, digit_zero d)

digit-slid :
    (word shift d : ℕ)
    → d < replay_window_size
    → digit (slid word shift) d ≡ (
        if d == 0
        then 1
        else if leb replay_window_size shift
        then 0
        else if ltb d shift
        then 0
        else digit word (d - shift))
unfolding slid
digit-slid word shift d small = elim (Bool-cases (leb replay_window_size shift)) [
  | inl far ↦ rw far (ground (arith, digit_one d))
  | inr near ↦
      let joined = digit-bit_or 0 (word * 2 ^ shift % 2 ^ 64) d in
      let cut = digit-mod 64 (word * 2 ^ shift) d in
      let moved = digit-shift shift word d in rw near (ground (arith, joined, cut, moved))
]

mark_above :
    (x : ℕ) (xs : List ℕ) (w : ReplayWindow) (s : ℕ)
    → Represents (x ∷ xs) w
    → w.top < s
    → Represents (s ∷ x ∷ xs) (mark_seen w s)
mark_above x xs w s r above =
    let known = not_fresh x xs w r in
    let moved : mark_seen w s ≡ record { top = s; word = slid w.word (s - w.top) } =
      unfold mark_seen slid in rw (known, lt→ltb w.top s above) refl in
    rw moved (unfold highest in ground (arith, r.0), λ d small. digits d small)
  where
    digits :
        (d : ℕ)
        → d < replay_window_size
        → digit (slid w.word (s - w.top)) d ≡ marks (s ∷ x ∷ xs) s d
    digits d small =
        let shift : ℕ = s - w.top in
        let stored = r.1 (d - shift) in
        let beyond = seen-le-highest (s - d) (x ∷ xs) in
        let top = r.0 in
        elim (Bool-cases (ltb d shift)) [
          | inl new ↦
              ground
                (arith, seen_next (s - d) s (x ∷ xs), digit-slid w.word shift d small, beyond, top)
          | inr old ↦
              let place : w.top - (d - shift) ≡ s - d = ground arith in
              ground (
                arith,
                seen_next (s - d) s (x ∷ xs),
                digit-slid w.word shift d small,
                stored,
                ap (λ t. seen t (x ∷ xs)) place,
              )
        ]

mark_within :
    (x : ℕ) (xs : List ℕ) (w : ReplayWindow) (s : ℕ)
    → Represents (x ∷ xs) w
    → s ≤ w.top
    → w.top - s < replay_window_size
    → Represents (s ∷ x ∷ xs) (mark_seen w s)
mark_within x xs w s r below near =
    let known = not_fresh x xs w r in
    let place : (w.top - s) % 64 ≡ w.top - s = omega arith in
    let marked : mark_seen w s ≡ record w { word = bit_or w.word (2 ^ (w.top - s)) } =
      unfold mark_seen in rw (known, le→ltb w.top s below, place) refl in
    rw marked (
      unfold highest in ground (arith, r.0),
      λ d small.
          ground (
            arith,
            seen_next (w.top - d) s (x ∷ xs),
            digit-bit_or (w.top - s) w.word d,
            r.1 d small,
          ),
    )

-- A number that passes was not seen, and marking it keeps the window true to what was seen.
pub passes-new : (xs : List ℕ) (s : ℕ) → passes xs s ≡ true → seen s xs ≡ false
passes-new [] s p = unfold seen in refl
passes-new (x ∷ xs) s p = ground (arith, p, seen-le-highest s (x ∷ xs))

-- What was marked does not pass again.
pub passes_again : (xs : List ℕ) (s : ℕ) → passes (s ∷ xs) s ≡ false
unfolding seen highest
passes_again xs s = ground arith

pub mark_seen-Represents :
    (xs : List ℕ) (w : ReplayWindow) (s : ℕ)
    → Represents xs w
    → passes xs s ≡ true
    → Represents (s ∷ xs) (mark_seen w s)
mark_seen-Represents [] w s r p = mark_first w s r
mark_seen-Represents (x ∷ xs) w s r p = elim (Bool-cases (ltb w.top s)) [
  | inl above ↦ mark_above x xs w s r (ground (arith, above))
  | inr below ↦ mark_within x xs w s r (ground (arith, below)) (ground (arith, below, p, r.0))
]
