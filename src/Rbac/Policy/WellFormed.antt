-- ===== src/Rbac/Policy/WellFormed.antt =====
-- The invariant of the policies of crates/libs/styrene-rbac/src/policy.rs.
use styrene_rs.Base.{
  ℕ, ◌≡◌, refl, sym, ap, ◌∙◌, inl, inr, true, false, ◌||◌, arith, if◌then◌else◌, none, some, List,
  [], ◌∷◌, ◌++◌, Bool-cases,
}
use styrene_rs.Base.Bytes.{bytes_eq, bytes_eq_iff}
use styrene_rs.Rbac.Text.{to_ascii_lowercase, contains}
use styrene_rs.Rbac.RosterEntry.{
  RosterEntry, known, is_valid_identity_hash, is_valid_blocked_prefix,
}
use styrene_rs.Rbac.Policy.{RbacPolicy, find_entry, put_entry, drop_entry, push_new, drop_prefix}

-- A valid hash in lower case, and known grants only.
pub record IsClean (e : RosterEntry) : Type 0 where
  pub valid : is_valid_identity_hash e.identity_hash ≡ true
  pub lower : to_ascii_lowercase e.identity_hash ≡ e.identity_hash
  pub grants : known e.grants ≡ e.grants

-- Each hash stands once.
abbrev pub CleanRoster : List RosterEntry → Type 0
CleanRoster [] = Unit
CleanRoster (e ∷ roster) =
    IsClean e × (find_entry e.identity_hash roster ≡ none) × CleanRoster roster

abbrev pub IsCleanPrefix : List ℕ → Type 0
IsCleanPrefix prefix =
    (is_valid_blocked_prefix prefix ≡ true) × (to_ascii_lowercase prefix ≡ prefix)

abbrev pub CleanPrefixes : List (List ℕ) → Type 0
CleanPrefixes [] = Unit
CleanPrefixes (x ∷ prefixes) =
    IsCleanPrefix x × (contains prefixes x ≡ false) × CleanPrefixes prefixes

pub record WellFormed (p : RbacPolicy) : Type 0 where
  pub roster : CleanRoster p.roster
  pub prefixes : CleanPrefixes p.blocked_prefixes

pub find_entry-put_entry :
    (hash : List ℕ) (e : RosterEntry) (roster : List RosterEntry)
    → find_entry hash (put_entry e roster)
      ≡ (if bytes_eq e.identity_hash hash then some e else find_entry hash roster)
unfolding find_entry put_entry
find_entry-put_entry hash e [] = refl
find_entry-put_entry hash e (x ∷ roster) =
    elim (Bool-cases (bytes_eq x.identity_hash e.identity_hash)) [
      | inl same ↦ ground (
        arith,
        same,
        ap (λ h. bytes_eq h hash) ((bytes_eq_iff x.identity_hash e.identity_hash).0 same),
      )
      | inr other ↦ ground (
        arith,
        other,
        find_entry-put_entry hash e roster,
        bytes_eq_iff x.identity_hash e.identity_hash,
        bytes_eq_iff x.identity_hash hash,
        bytes_eq_iff e.identity_hash hash,
      )
    ]

pub find_entry-drop_entry :
    (hash other : List ℕ) (roster : List RosterEntry)
    → find_entry hash (drop_entry other roster)
      ≡ (if bytes_eq other hash then none else find_entry hash roster)
unfolding find_entry drop_entry
find_entry-drop_entry hash other [] = ground arith
find_entry-drop_entry hash other (x ∷ roster) = ground (
  arith,
  find_entry-drop_entry hash other roster,
  bytes_eq_iff x.identity_hash other,
  bytes_eq_iff x.identity_hash hash,
  bytes_eq_iff other hash,
)

pub contains-push :
    (t prefix : List ℕ) (prefixes : List (List ℕ))
    → contains (prefixes ++ (prefix ∷ [])) t ≡ (contains prefixes t || bytes_eq prefix t)
unfolding contains
contains-push t prefix [] = ground arith
contains-push t prefix (x ∷ prefixes) = ground (arith, contains-push t prefix prefixes)

contains-drop :
    (t prefix : List ℕ) (prefixes : List (List ℕ))
    → contains prefixes t ≡ false
    → contains (drop_prefix prefix prefixes) t ≡ false
unfolding contains drop_prefix
contains-drop t prefix [] absent = refl
contains-drop t prefix (x ∷ prefixes) absent =
    ground (arith, absent, contains-drop t prefix prefixes)

pub put_entry-CleanRoster :
    (e : RosterEntry) (roster : List RosterEntry)
    → IsClean e
    → CleanRoster roster
    → CleanRoster (put_entry e roster)
unfolding put_entry find_entry
put_entry-CleanRoster e [] clean all = (clean, refl, tt)
put_entry-CleanRoster e (x ∷ roster) clean (first, once, rest) =
    elim (Bool-cases (bytes_eq x.identity_hash e.identity_hash)) [
      | inl same ↦ rw same (
        clean,
        ap (λ h. find_entry h roster) (sym ((bytes_eq_iff x.identity_hash e.identity_hash).0 same))
            ∙ once,
        rest,
      )
      | inr other ↦ rw other (
        first,
        ground (
          arith,
          find_entry-put_entry x.identity_hash e roster,
          bytes_eq_iff x.identity_hash e.identity_hash,
          bytes_eq_iff e.identity_hash x.identity_hash,
          other,
          once,
        ),
        put_entry-CleanRoster e roster clean rest,
      )
    ]

pub drop_entry-CleanRoster :
    (hash : List ℕ) (roster : List RosterEntry)
    → CleanRoster roster
    → CleanRoster (drop_entry hash roster)
unfolding drop_entry
drop_entry-CleanRoster hash [] all = tt
drop_entry-CleanRoster hash (x ∷ roster) (first, once, rest) =
    elim (Bool-cases (bytes_eq x.identity_hash hash)) [
      | inl same ↦ rw same (drop_entry-CleanRoster hash roster rest)
      | inr other ↦ rw other (
        first,
        ground (arith, find_entry-drop_entry x.identity_hash hash roster, once),
        drop_entry-CleanRoster hash roster rest,
      )
    ]

push-CleanPrefixes :
    (prefix : List ℕ) (prefixes : List (List ℕ))
    → IsCleanPrefix prefix
    → contains prefixes prefix ≡ false
    → CleanPrefixes prefixes
    → CleanPrefixes (prefixes ++ (prefix ∷ []))
unfolding contains
push-CleanPrefixes prefix [] clean absent all = (clean, refl, tt)
push-CleanPrefixes prefix (x ∷ prefixes) clean absent (first, once, rest) = (
  first,
  ground (
    arith,
    contains-push x prefix prefixes,
    once,
    absent,
    bytes_eq_iff x prefix,
    bytes_eq_iff prefix x,
  ),
  push-CleanPrefixes prefix prefixes clean (ground (arith, absent)) rest,
)

pub push_new-CleanPrefixes :
    (prefix : List ℕ) (prefixes : List (List ℕ))
    → IsCleanPrefix prefix
    → CleanPrefixes prefixes
    → CleanPrefixes (push_new prefix prefixes)
push_new-CleanPrefixes prefix prefixes clean all = elim (Bool-cases (contains prefixes prefix)) [
  | inl there ↦ rw there all
  | inr absent ↦ rw absent (push-CleanPrefixes prefix prefixes clean absent all)
]

pub drop_prefix-CleanPrefixes :
    (prefix : List ℕ) (prefixes : List (List ℕ))
    → CleanPrefixes prefixes
    → CleanPrefixes (drop_prefix prefix prefixes)
unfolding drop_prefix
drop_prefix-CleanPrefixes prefix [] all = tt
drop_prefix-CleanPrefixes prefix (x ∷ prefixes) (first, once, rest) =
    elim (Bool-cases (bytes_eq x prefix)) [
      | inl same ↦ rw same (drop_prefix-CleanPrefixes prefix prefixes rest)
      | inr other ↦ rw other (
        first,
        contains-drop x prefix prefixes once,
        drop_prefix-CleanPrefixes prefix prefixes rest,
      )
    ]

pub known_twice : (grants : List (List ℕ)) → known (known grants) ≡ known grants
unfolding known
known_twice [] = refl
known_twice (g ∷ grants) = ground (arith, known_twice grants)
