-- ===== src/Rbac/Policy/Normalize.antt =====
-- crates/libs/styrene-rbac/src/policy.rs (`RbacPolicy::normalize`): what a loaded policy is brought to, and
-- the warnings about it.
use styrene_rs.Base.{ℕ, not, if◌then◌else◌, none, some, List, [], ◌∷◌, ◌++◌}
use styrene_rs.Base.Bytes.{bytes_eq}
use styrene_rs.Rbac.Text.{to_ascii_lowercase, contains}
use styrene_rs.Rbac.Role.{as_str}
use styrene_rs.Rbac.RosterEntry.{
  RosterEntry, known, is_valid_identity_hash, is_valid_blocked_prefix, PolicyWarning,
  invalid_identity_hash, invalid_blocked_prefix, normalized_identity_hash,
  normalized_blocked_prefix, unknown_grant, duplicate_roster_entry,
}
use styrene_rs.Rbac.Policy.{RbacPolicy, find_entry, put_entry, push_new}

-- One warning for each grant that was not kept.
unfoldable pub unknown_grants : List ℕ → List (List ℕ) → List (List ℕ) → List PolicyWarning
unknown_grants hash kept [] = []
unknown_grants hash kept (g ∷ grants) =
    let rest = unknown_grants hash kept grants in
    if contains kept g then rest else unknown_grant hash g ∷ rest

unfoldable pub normalize_entry : RosterEntry → RosterEntry × List PolicyWarning
normalize_entry e =
    let lower = to_ascii_lowercase e.identity_hash in
    let kept = known e.grants in
    (
      record e { identity_hash = lower; grants = kept },
      (if bytes_eq e.identity_hash lower
            then []
            else normalized_identity_hash e.identity_hash lower ∷ [])
          ++ unknown_grants lower kept e.grants,
    )

unfoldable pub normalize_entries : List RosterEntry → List RosterEntry × List PolicyWarning
normalize_entries [] = ([], [])
normalize_entries (e ∷ roster) =
    let (e', first) = normalize_entry e in
    let (roster', rest) = normalize_entries roster in (e' ∷ roster', first ++ rest)

-- The entries in their order, each put over the one with its hash.
unfoldable pub collect_entries :
    List RosterEntry → List RosterEntry → List RosterEntry × List PolicyWarning
collect_entries kept [] = (kept, [])
collect_entries kept (e ∷ roster) =
    let valid = is_valid_identity_hash e.identity_hash in
    let (all, rest) = collect_entries (if valid then put_entry e kept else kept) roster in
    if not valid
    then (all, invalid_identity_hash e.identity_hash e.label ∷ rest)
    else elim (find_entry e.identity_hash kept) [
      | none ↦ (all, rest)
      | some existing ↦ (
        all,
        duplicate_roster_entry e.identity_hash (as_str e.role) (as_str existing.role) ∷ rest,
      )
    ]

unfoldable pub collect_prefixes : List (List ℕ) → List (List ℕ) → List (List ℕ) × List PolicyWarning
collect_prefixes kept [] = (kept, [])
collect_prefixes kept (prefix ∷ prefixes) =
    let lower = to_ascii_lowercase prefix in
    let changed =
      if bytes_eq lower prefix then [] else normalized_blocked_prefix prefix lower ∷ [] in
    let valid = is_valid_blocked_prefix lower in
    let (all, rest) = collect_prefixes (if valid then push_new lower kept else kept) prefixes in
    (all, changed ++ (if valid then rest else invalid_blocked_prefix prefix ∷ rest))

unfoldable pub normalize : RbacPolicy → RbacPolicy × List PolicyWarning
normalize p =
    let (lowered, first) = normalize_entries p.roster in
    let (roster, second) = collect_entries [] lowered in
    let (prefixes, third) = collect_prefixes [] p.blocked_prefixes in
    (record p { roster = roster; blocked_prefixes = prefixes }, first ++ (second ++ third))
