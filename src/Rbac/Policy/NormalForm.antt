-- ===== src/Rbac/Policy/NormalForm.antt =====
-- `RbacPolicy::normalize` of crates/libs/styrene-rbac/src/policy.rs: what it makes of any policy, and of one
-- that is well formed.
use styrene_rs.Base.{
  ℕ, ◌≡◌, refl, sym, ap, ◌∙◌, inl, inr, true, false, arith, if◌then◌else◌, none, List, [], ◌∷◌,
  ◌++◌, append-nil, append_assoc, Bool-cases,
}
use styrene_rs.Base.Bytes.{bytes_eq_iff}
use styrene_rs.Rbac.Text.{to_ascii_lowercase, contains, lowercase_twice}
use styrene_rs.Rbac.RosterEntry.{
  RosterEntry, known, is_valid_identity_hash, is_valid_blocked_prefix,
}
use styrene_rs.Rbac.Policy.{RbacPolicy, find_entry, put_entry, push_new}
use styrene_rs.Rbac.Policy.Normalize.{
  unknown_grants, normalize_entry, normalize_entries, collect_entries, collect_prefixes, normalize,
}
use styrene_rs.Rbac.Policy.WellFormed.{
  IsClean, CleanRoster, CleanPrefixes, WellFormed, find_entry-put_entry, put_entry-CleanRoster,
  push_new-CleanPrefixes, contains-push, known_twice,
}

-- Lower case and known grants, whatever the hash.
abbrev Lowered : List RosterEntry → Type 0
Lowered [] = Unit
Lowered (e ∷ roster) =
    (to_ascii_lowercase e.identity_hash ≡ e.identity_hash)
    × (known e.grants ≡ e.grants)
    × Lowered roster

normalize_entries-Lowered : (roster : List RosterEntry) → Lowered (normalize_entries roster).0
unfolding normalize_entries normalize_entry
normalize_entries-Lowered [] = tt
normalize_entries-Lowered (e ∷ roster) =
    (lowercase_twice e.identity_hash, known_twice e.grants, normalize_entries-Lowered roster)

collect_entries_kept :
    (kept : List RosterEntry) (e : RosterEntry) (roster : List RosterEntry)
    → (collect_entries kept (e ∷ roster)).0
      ≡ (collect_entries
          (if is_valid_identity_hash e.identity_hash then put_entry e kept else kept)
          roster).0
unfolding collect_entries
collect_entries_kept kept e roster = ground arith

collect_entries-CleanRoster :
    (kept roster : List RosterEntry)
    → CleanRoster kept
    → Lowered roster
    → CleanRoster (collect_entries kept roster).0
collect_entries-CleanRoster kept [] clean lowered = (unfold collect_entries in clean)
collect_entries-CleanRoster kept (e ∷ roster) clean (lower, grants, rest) =
    let step = collect_entries_kept kept e roster in
    elim (Bool-cases (is_valid_identity_hash e.identity_hash)) [
      | inr refused ↦ rw (step, refused) (collect_entries-CleanRoster kept roster clean rest)
      | inl valid ↦
          rw (step, valid)
            (collect_entries-CleanRoster (put_entry e kept) roster
              (put_entry-CleanRoster e kept
                (record { valid = valid; lower = lower; grants = grants }) clean)
              rest)
    ]

collect_prefixes-CleanPrefixes :
    (kept prefixes : List (List ℕ))
    → CleanPrefixes kept
    → CleanPrefixes (collect_prefixes kept prefixes).0
unfolding collect_prefixes
collect_prefixes-CleanPrefixes kept [] clean = clean
collect_prefixes-CleanPrefixes kept (x ∷ prefixes) clean =
    let lower = to_ascii_lowercase x in
    elim (Bool-cases (is_valid_blocked_prefix lower)) [
      | inr refused ↦ rw refused (collect_prefixes-CleanPrefixes kept prefixes clean)
      | inl valid ↦ rw valid (
          collect_prefixes-CleanPrefixes (push_new lower kept) prefixes
            (push_new-CleanPrefixes lower kept (valid, lowercase_twice x) clean))
    ]

normalize-WellFormed : (p : RbacPolicy) → WellFormed (normalize p).0
unfolding normalize
normalize-WellFormed p = record {
  roster =
      collect_entries-CleanRoster [] (normalize_entries p.roster).0 tt
        (normalize_entries-Lowered p.roster);
  prefixes = collect_prefixes-CleanPrefixes [] p.blocked_prefixes tt;
}

all_known :
    (hash : List ℕ) (kept grants : List (List ℕ))
    → ((g : List ℕ) → contains grants g ≡ true → contains kept g ≡ true)
    → unknown_grants hash kept grants ≡ []
unfolding unknown_grants contains
all_known hash kept [] within = refl
all_known hash kept (g ∷ grants) within = ground (
  arith,
  within g,
  bytes_eq_iff g g,
  all_known hash kept grants (λ t h. within t (ground (arith, h))),
)

normalize_clean : (e : RosterEntry) → IsClean e → normalize_entry e ≡ (e, [])
unfolding normalize_entry
normalize_clean e clean =
    let lower = to_ascii_lowercase e.identity_hash in
    let same = (bytes_eq_iff e.identity_hash lower).1 (sym clean.lower) in
    let nothing =
      all_known lower (known e.grants) e.grants
        (λ g held. ap (λ kept. contains kept g) clean.grants ∙ held) in
    rw (same, nothing)
      (ap (λ hash. (record e { identity_hash = hash; grants = known e.grants }, [])) clean.lower
        ∙ ap (λ grants. (record e { grants = grants }, [])) clean.grants)

normalize_entries-CleanRoster :
    (roster : List RosterEntry) → CleanRoster roster → normalize_entries roster ≡ (roster, [])
unfolding normalize_entries
normalize_entries-CleanRoster [] all = refl
normalize_entries-CleanRoster (e ∷ roster) (first, _, rest) =
    rw (normalize_clean e first, normalize_entries-CleanRoster roster rest) refl

-- None of the entries is found among those kept.
abbrev Fresh : List RosterEntry → List RosterEntry → Type 0
Fresh kept [] = Unit
Fresh kept (e ∷ roster) = (find_entry e.identity_hash kept ≡ none) × Fresh kept roster

find_last :
    (e : RosterEntry) (kept : List RosterEntry)
    → find_entry e.identity_hash kept ≡ none
    → put_entry e kept ≡ kept ++ (e ∷ [])
unfolding put_entry find_entry
find_last e [] absent = refl
find_last e (x ∷ kept) absent = ground (arith, absent, find_last e kept)

put_entry-Fresh :
    (e : RosterEntry) (kept roster : List RosterEntry)
    → find_entry e.identity_hash roster ≡ none
    → Fresh kept roster
    → Fresh (put_entry e kept) roster
unfolding find_entry
put_entry-Fresh e kept [] absent fresh = tt
put_entry-Fresh e kept (x ∷ roster) absent (new, rest) = (
  ground (
    arith,
    find_entry-put_entry x.identity_hash e kept,
    new,
    absent,
    bytes_eq_iff x.identity_hash e.identity_hash,
    bytes_eq_iff e.identity_hash x.identity_hash,
  ),
  put_entry-Fresh e kept roster (ground (arith, absent)) rest,
)

collect_entries-clean :
    (kept roster : List RosterEntry)
    → CleanRoster roster
    → Fresh kept roster
    → collect_entries kept roster ≡ (kept ++ roster, [])
unfolding collect_entries
collect_entries-clean kept [] all fresh = ap (λ l. (l, [])) (sym (append-nil kept))
collect_entries-clean kept (e ∷ roster) (first, once, rest) (new, later) =
    let next =
      collect_entries-clean (put_entry e kept) roster rest
        (put_entry-Fresh e kept roster once later) in
    let valid = first.valid in
    let place = find_last e kept new in
    rw (valid, new, valid, next, place) (ap (λ l. (l, [])) (append_assoc kept (e ∷ []) roster))

-- None of the prefixes is among those kept.
abbrev FreshPrefixes : List (List ℕ) → List (List ℕ) → Type 0
FreshPrefixes kept [] = Unit
FreshPrefixes kept (x ∷ prefixes) = (contains kept x ≡ false) × FreshPrefixes kept prefixes

push-FreshPrefixes :
    (x : List ℕ) (kept prefixes : List (List ℕ))
    → contains prefixes x ≡ false
    → FreshPrefixes kept prefixes
    → FreshPrefixes (kept ++ (x ∷ [])) prefixes
unfolding contains
push-FreshPrefixes x kept [] absent fresh = tt
push-FreshPrefixes x kept (y ∷ prefixes) absent (new, rest) = (
  ground (arith, contains-push y x kept, new, absent, bytes_eq_iff x y, bytes_eq_iff y x),
  push-FreshPrefixes x kept prefixes (ground (arith, absent)) rest,
)

collect_prefixes-clean :
    (kept prefixes : List (List ℕ))
    → CleanPrefixes prefixes
    → FreshPrefixes kept prefixes
    → collect_prefixes kept prefixes ≡ (kept ++ prefixes, [])
unfolding collect_prefixes
collect_prefixes-clean kept [] all fresh = ap (λ l. (l, [])) (sym (append-nil kept))
collect_prefixes-clean kept (x ∷ prefixes) ((valid, lower), once, rest) (new, later) =
    let next =
      collect_prefixes-clean (kept ++ (x ∷ [])) prefixes rest
        (push-FreshPrefixes x kept prefixes once later) in
    let same = (bytes_eq_iff x x).1 refl in
    rw (lower, valid, same, new, next) (ap (λ l. (l, [])) (append_assoc kept (x ∷ []) prefixes))

nil-Fresh : (roster : List RosterEntry) → Fresh [] roster
unfolding find_entry
nil-Fresh [] = tt
nil-Fresh (e ∷ roster) = (refl, nil-Fresh roster)

nil-FreshPrefixes : (prefixes : List (List ℕ)) → FreshPrefixes [] prefixes
unfolding contains
nil-FreshPrefixes [] = tt
nil-FreshPrefixes (x ∷ prefixes) = (refl, nil-FreshPrefixes prefixes)

normalize_same : (p : RbacPolicy) → WellFormed p → normalize p ≡ (p, [])
unfolding normalize
normalize_same p w =
    rw
      (
        normalize_entries-CleanRoster p.roster w.roster,
        collect_entries-clean [] p.roster w.roster (nil-Fresh p.roster),
        collect_prefixes-clean [] p.blocked_prefixes w.prefixes
            (nil-FreshPrefixes p.blocked_prefixes),
      )
      refl

-- normalize makes any policy well formed, leaves a well-formed policy as it is without a
-- warning, and so a second run changes nothing and warns of nothing.
pub normalize_lem :
    (p : RbacPolicy)
    → WellFormed (normalize p).0
      × (WellFormed p → normalize p ≡ (p, []))
      × (normalize (normalize p).0 ≡ ((normalize p).0, []))
normalize_lem p = (
  normalize-WellFormed p,
  normalize_same p,
  normalize_same (normalize p).0 (normalize-WellFormed p),
)
