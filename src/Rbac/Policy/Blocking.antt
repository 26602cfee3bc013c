-- ===== src/Rbac/Policy/Blocking.antt =====
-- The blocked prefixes of crates/libs/styrene-rbac/src/policy.rs: an identity stays blocked until its prefix is
-- taken away.
use styrene_rs.Base.{
  ℕ, ◌≡◌, refl, ap, ◌∙◌, ◌≢◌, inl, inr, true, false, arith, List, [], ◌∷◌, ◌++◌, if◌then◌else◌,
  Bool-cases,
}
use styrene_rs.Base.Bytes.{bytes_eq, bytes_eq_iff}
use styrene_rs.Rbac.Text.{to_ascii_lowercase, starts_with, contains, lowercase_twice}
use styrene_rs.Rbac.Role.{blocked}
use styrene_rs.Rbac.RosterEntry.{
  RosterEntry, SignedRosterEntry, TrustedHub, is_valid_blocked_prefix,
}
use styrene_rs.Rbac.Policy.{
  RbacPolicy, is_blocked, push_new, drop_prefix, add_entry, remove_entry, block, unblock,
  add_trusted_hub, add_hub_entry, clear_hub_entries, resolve_role, has_capability,
}
use styrene_rs.Rbac.Policy.Normalize.{collect_prefixes, normalize}
use styrene_rs.Rbac.Policy.WellFormed.{IsCleanPrefix}

contains_push :
    (prefix other : List ℕ) (prefixes : List (List ℕ))
    → contains prefixes prefix ≡ true
    → contains (prefixes ++ (other ∷ [])) prefix ≡ true
unfolding contains
contains_push prefix other [] held = absurd (ground (arith, held))
contains_push prefix other (x ∷ prefixes) held =
    ground (arith, held, contains_push prefix other prefixes)

contains_last :
    (prefix : List ℕ) (prefixes : List (List ℕ))
    → contains (prefixes ++ (prefix ∷ [])) prefix ≡ true
unfolding contains
contains_last prefix [] = ground (arith, bytes_eq_iff prefix prefix)
contains_last prefix (x ∷ prefixes) = ground (arith, contains_last prefix prefixes)

contains-drop_prefix :
    (prefix other : List ℕ) (prefixes : List (List ℕ))
    → prefix ≢ other
    → contains prefixes prefix ≡ true
    → contains (drop_prefix other prefixes) prefix ≡ true
unfolding contains drop_prefix
contains-drop_prefix prefix other [] apart held = absurd (ground (arith, held))
contains-drop_prefix prefix other (x ∷ prefixes) apart held = ground (
  arith,
  held,
  contains-drop_prefix prefix other prefixes apart,
  bytes_eq_iff x prefix,
  bytes_eq_iff x other,
)

is_blocked-contains :
    (prefixes : List (List ℕ)) (prefix hash : List ℕ)
    → contains prefixes prefix ≡ true
    → starts_with hash prefix ≡ true
    → is_blocked prefixes hash ≡ true
unfolding contains is_blocked
is_blocked-contains [] prefix hash held front = absurd (ground (arith, held))
is_blocked-contains (x ∷ prefixes) prefix hash held front = elim (Bool-cases (bytes_eq x prefix)) [
  | inl here ↦ ground (arith, ap (starts_with hash) ((bytes_eq_iff x prefix).0 here), front)
  | inr there ↦ ground (arith, held, there, is_blocked-contains prefixes prefix hash)
]

contains-push_new :
    (prefix other : List ℕ) (prefixes : List (List ℕ))
    → contains prefixes prefix ≡ true
    → contains (push_new other prefixes) prefix ≡ true
contains-push_new prefix other prefixes held =
    ground (arith, held, contains_push prefix other prefixes)

push_new-contains :
    (prefix : List ℕ) (prefixes : List (List ℕ)) → contains (push_new prefix prefixes) prefix ≡ true
push_new-contains prefix prefixes = ground (arith, contains_last prefix prefixes)

collect_prefixes_keeps :
    (prefix : List ℕ) (kept prefixes : List (List ℕ))
    → contains kept prefix ≡ true
    → contains (collect_prefixes kept prefixes).0 prefix ≡ true
unfolding collect_prefixes
collect_prefixes_keeps prefix kept [] held = held
collect_prefixes_keeps prefix kept (x ∷ prefixes) held =
    let lower = to_ascii_lowercase x in
    elim (Bool-cases (is_valid_blocked_prefix lower)) [
      | inr refused ↦ rw refused (collect_prefixes_keeps prefix kept prefixes held)
      | inl valid ↦ rw valid (
          collect_prefixes_keeps prefix (push_new lower kept) prefixes
            (contains-push_new prefix lower kept held))
    ]

-- Normalizing keeps a prefix that is valid and in lower case.
collect_prefixes-contains :
    (prefix : List ℕ) (kept prefixes : List (List ℕ))
    → IsCleanPrefix prefix
    → contains prefixes prefix ≡ true
    → contains (collect_prefixes kept prefixes).0 prefix ≡ true
unfolding collect_prefixes contains
collect_prefixes-contains prefix kept [] clean held = absurd (ground (arith, held))
collect_prefixes-contains prefix kept (x ∷ prefixes) clean held =
    let lower = to_ascii_lowercase x in
    elim (Bool-cases (bytes_eq x prefix)) [
      | inl here ↦
          let same = ap to_ascii_lowercase ((bytes_eq_iff x prefix).0 here) ∙ clean.1 in
          rw (same, clean.0)
            (collect_prefixes_keeps prefix (push_new prefix kept) prefixes
              (push_new-contains prefix kept))
      | inr other ↦
          collect_prefixes-contains prefix
            (if is_valid_blocked_prefix lower then push_new lower kept else kept) prefixes clean
            (ground (arith, held, other))
    ]

-- One call that changes a policy, other than the removal of the prefix. normalize_quiet is `normalize`
-- with its warnings dropped.
pub data Step (prefix : List ℕ) : RbacPolicy → RbacPolicy → Type 0 where
  added : {p : RbacPolicy} → (e : RosterEntry) → Step prefix p (add_entry e p).0
  removed : {p : RbacPolicy} → (hash : List ℕ) → Step prefix p (remove_entry hash p).0
  barred : {p : RbacPolicy} → (other : List ℕ) → Step prefix p (block other p).0
  freed :
      {p : RbacPolicy}
      → (other : List ℕ) → prefix ≢ to_ascii_lowercase other
      → Step prefix p (unblock other p).0
  trusted : {p : RbacPolicy} → (hub : TrustedHub) → Step prefix p (add_trusted_hub hub p)
  signed : {p : RbacPolicy} → (e : SignedRosterEntry) → Step prefix p (add_hub_entry e p)
  cleared : {p : RbacPolicy} → Step prefix p (clear_hub_entries p)
  normalized : {p : RbacPolicy} → Step prefix p (normalize p).0

infixr 5 ◌then◌
pub data Steps (prefix : List ℕ) : RbacPolicy → RbacPolicy → Type 0 where
  done : {p : RbacPolicy} → Steps prefix p p
  ◌then◌ : {p q r : RbacPolicy} → Step prefix p q → Steps prefix q r → Steps prefix p r

contains-Step :
    (prefix : List ℕ) (p q : RbacPolicy)
    → IsCleanPrefix prefix
    → Step prefix p q
    → contains p.blocked_prefixes prefix ≡ true
    → contains q.blocked_prefixes prefix ≡ true
contains-Step prefix p q clean (added e) held = (unfold add_entry in ground (arith, held))
contains-Step prefix p q clean (removed hash) held = (unfold remove_entry in held)
contains-Step prefix p q clean (barred other) held =
    (unfold block in
      ground (arith, held, contains_push prefix (to_ascii_lowercase other) p.blocked_prefixes))
contains-Step prefix p q clean (freed other apart) held =
    (unfold unblock in
      contains-drop_prefix prefix (to_ascii_lowercase other) p.blocked_prefixes apart held)
contains-Step prefix p q clean (trusted hub) held = (unfold add_trusted_hub in ground (arith, held))
contains-Step prefix p q clean (signed e) held = (unfold add_hub_entry in held)
contains-Step prefix p q clean cleared held = held
contains-Step prefix p q clean normalized held =
    (unfold normalize in collect_prefixes-contains prefix [] p.blocked_prefixes clean held)

contains-Steps :
    (prefix : List ℕ) (p q : RbacPolicy)
    → IsCleanPrefix prefix
    → Steps prefix p q
    → contains p.blocked_prefixes prefix ≡ true
    → contains q.blocked_prefixes prefix ≡ true
contains-Steps prefix p q clean done held = held
contains-Steps prefix p q clean (step then rest) held =
    contains-Steps prefix _ q clean rest (contains-Step prefix p _ clean step held)

block_adds :
    (prefix : List ℕ) (p : RbacPolicy)
    → (block prefix p).1 ≡ true
    → contains (block prefix p).0.blocked_prefixes (to_ascii_lowercase prefix) ≡ true
unfolding block
block_adds prefix p accepted =
    ground (arith, accepted, contains_last (to_ascii_lowercase prefix) p.blocked_prefixes)

block_valid :
    (prefix : List ℕ) (p : RbacPolicy)
    → (block prefix p).1 ≡ true
    → IsCleanPrefix (to_ascii_lowercase prefix)
unfolding block
block_valid prefix p accepted = (ground (arith, accepted), lowercase_twice prefix)

-- After block accepted a prefix, and after any sequence of further add_entry, remove_entry,
-- block, unblock, add_trusted_hub, add_hub_entry, clear_hub_entries and normalize calls that
-- does not unblock that prefix, an identity whose hash starts with it, in either case, resolves
-- to the blocked role and holds no capability.
pub block_lem :
    (prefix identity_hash cap : List ℕ) (p q : RbacPolicy)
    → (block prefix p).1 ≡ true
    → Steps (to_ascii_lowercase prefix) (block prefix p).0 q
    → starts_with (to_ascii_lowercase identity_hash) (to_ascii_lowercase prefix) ≡ true
    → (resolve_role q identity_hash ≡ blocked) × (has_capability q identity_hash cap ≡ false)
unfolding resolve_role has_capability
block_lem prefix identity_hash cap p q accepted steps front =
    let lower = to_ascii_lowercase prefix in
    let clean = block_valid prefix p accepted in
    let held = contains-Steps lower _ q clean steps (block_adds prefix p accepted) in
    let denied =
      is_blocked-contains q.blocked_prefixes lower (to_ascii_lowercase identity_hash) held front in
    (rw (resolve_role, denied) refl, rw (has_capability, denied) refl)
