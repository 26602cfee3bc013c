-- ===== src/Base/Stateful.antt =====
-- Methods that change an object and may fail. What was changed before an error stays changed.
use styrene_rs.Base.{Result, ok, err, Bool, if◌then◌else◌, ◌≡◌, ap, Option, none, some}

abbrev pub Stateful {ℓ κ μ} : Type ℓ → Type κ → Type μ → Type (ℓ ⊔ κ ⊔ μ)
Stateful S E R = S → S × Result E R

module _ {ℓ κ} {S : Type ℓ} {E : Type κ} where
  infixl 5 ◌>>=◌
  abbrev pub ◌>>=◌ {μ ν} :
      {R : Type μ} {Q : Type ν} → Stateful S E R → (R → Stateful S E Q) → Stateful S E Q
  ◌>>=◌ step continue s =
      let (s', outcome) = step s in
      elim outcome [ ok r ↦ continue r s' | err problem ↦ (s', err problem) ]

  infixl 5 ◌>>◌
  abbrev pub ◌>>◌ {μ ν} :
      {R : Type μ} {Q : Type ν} → Stateful S E R → Stateful S E Q → Stateful S E Q
  step >> after = step >>= λ unused. after

  abbrev pub answer {μ} : {R : Type μ} → R → Stateful S E R
  answer r s = (s, ok r)

  abbrev pub fail {μ} : {R : Type μ} → E → Stateful S E R
  fail problem s = (s, err problem)

  -- A call of fallible code that does not touch the object.
  abbrev pub try {μ} : {R : Type μ} → Result E R → Stateful S E R
  try outcome s = (s, outcome)

  abbrev pub check : Bool → E → Stateful S E (Unit {0})
  check test problem s = (s, (if test then ok tt else err problem))

  abbrev pub current : Stateful S E S
  current s = (s, ok s)

  abbrev pub update : (S → S) → Stateful S E (Unit {0})
  update change s = (change s, ok tt)

abbrev pub ok_or {ℓ κ} : {E : Type ℓ} {R : Type κ} → Option R → E → Result E R
ok_or none problem = err problem
ok_or (some r) problem = ok r

-- A step that succeeds is followed by the rest.
pub bind_ok {ℓ κ μ ν} :
    {S : Type ℓ} {E : Type κ} {R : Type μ} {T : Type ν} (step : Stateful S E R)
    (continue : R → Stateful S E T) (s s' : S) (r : R)
    → step s ≡ (s', ok r)
    → (step >>= continue) s ≡ continue r s'
bind_ok step continue s s' r e =
    ap (λ p. elim p.1 [ ok r ↦ continue r p.0 | err problem ↦ (p.0, err problem) ]) e
