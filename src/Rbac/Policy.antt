-- ===== src/Rbac/Policy.antt =====
-- crates/libs/styrene-rbac/src/policy.rs: the roster, the blocked prefixes, the entries of the hubs, and
-- what they permit.
pub mod Access
pub mod Blocking
pub mod Operations
pub mod Normalize
pub mod NormalForm
pub mod WellFormed
use styrene_rs.Base.{
  ℕ, Bool, true, false, ◌&&◌, ◌||◌, not, ltb, if◌then◌else◌, Option, none, some, List, [], ◌∷◌,
  ◌++◌, length,
}
use styrene_rs.Base.Bytes.{bytes_eq}
use styrene_rs.Rbac.Text.{to_ascii_lowercase, starts_with, contains}
use styrene_rs.Rbac.Role.{Role, blocked}
use styrene_rs.Rbac.Capability.Tiers.{capabilities_for_role}
use styrene_rs.Rbac.RosterEntry.{
  RosterEntry, known, entry_has_capability, is_valid_identity_hash, is_valid_blocked_prefix,
  SignedRosterEntry, TrustedHub,
}

pub record RbacPolicy : Type 0 where
  pub default_role : Role
  pub roster : List RosterEntry
  pub blocked_prefixes : List (List ℕ)
  pub trusted_hubs : List TrustedHub
  pub hub_entries : List SignedRosterEntry

abbrev pub new_policy : Role → RbacPolicy
new_policy default_role = record {
  default_role = default_role;
  roster = [];
  blocked_prefixes = [];
  trusted_hubs = [];
  hub_entries = [];
}

-- `roster.iter().find(|e| e.identity_hash == hash)`
unfoldable pub find_entry : List ℕ → List RosterEntry → Option RosterEntry
find_entry hash [] = none
find_entry hash (e ∷ roster) =
    if bytes_eq e.identity_hash hash then some e else find_entry hash roster

-- In the place of the first entry with the hash, or as the last entry.
unfoldable pub put_entry : RosterEntry → List RosterEntry → List RosterEntry
put_entry entry [] = entry ∷ []
put_entry entry (e ∷ roster) =
    if bytes_eq e.identity_hash entry.identity_hash
    then entry ∷ roster
    else e ∷ put_entry entry roster

unfoldable pub add_entry : RosterEntry → RbacPolicy → RbacPolicy × Bool
add_entry entry p =
    let lower = record entry { identity_hash = to_ascii_lowercase entry.identity_hash } in
    if not (is_valid_identity_hash lower.identity_hash) then (p, false) else (
      record p { roster = put_entry (record lower { grants = known lower.grants }) p.roster },
      true,
    )

unfoldable pub drop_entry : List ℕ → List RosterEntry → List RosterEntry
drop_entry hash [] = []
drop_entry hash (e ∷ roster) =
    let rest = drop_entry hash roster in if bytes_eq e.identity_hash hash then rest else e ∷ rest

unfoldable pub remove_entry : List ℕ → RbacPolicy → RbacPolicy × Bool
remove_entry identity_hash p =
    let kept = drop_entry (to_ascii_lowercase identity_hash) p.roster in
    (record p { roster = kept }, ltb (length kept) (length p.roster))

-- A prefix that is in the list already is not pushed again.
abbrev pub push_new : List ℕ → List (List ℕ) → List (List ℕ)
push_new prefix prefixes = if contains prefixes prefix then prefixes else prefixes ++ (prefix ∷ [])

unfoldable pub block : List ℕ → RbacPolicy → RbacPolicy × Bool
block prefix p =
    let lower = to_ascii_lowercase prefix in
    if not (is_valid_blocked_prefix lower)
    then (p, false)
    else (record p { blocked_prefixes = push_new lower p.blocked_prefixes }, true)

unfoldable pub drop_prefix : List ℕ → List (List ℕ) → List (List ℕ)
drop_prefix prefix [] = []
drop_prefix prefix (x ∷ prefixes) =
    let rest = drop_prefix prefix prefixes in if bytes_eq x prefix then rest else x ∷ rest

unfoldable pub unblock : List ℕ → RbacPolicy → RbacPolicy × Bool
unblock prefix p =
    let kept = drop_prefix (to_ascii_lowercase prefix) p.blocked_prefixes in
    (record p { blocked_prefixes = kept }, ltb (length kept) (length p.blocked_prefixes))

unfoldable pub get_entry : RbacPolicy → List ℕ → Option RosterEntry
get_entry p identity_hash = find_entry (to_ascii_lowercase identity_hash) p.roster

unfoldable pub has_hub : List ℕ → List TrustedHub → Bool
has_hub hash [] = false
has_hub hash (h ∷ hubs) = bytes_eq h.hub_hash hash || has_hub hash hubs

unfoldable pub add_trusted_hub : TrustedHub → RbacPolicy → RbacPolicy
add_trusted_hub hub p =
    if has_hub hub.hub_hash p.trusted_hubs
    then p
    else record p { trusted_hubs = p.trusted_hubs ++ (hub ∷ []) }

unfoldable pub drop_hub_entry : List ℕ → List SignedRosterEntry → List SignedRosterEntry
drop_hub_entry hash [] = []
drop_hub_entry hash (e ∷ entries) =
    let rest = drop_hub_entry hash entries in
    if bytes_eq (to_ascii_lowercase e.entry.identity_hash) hash then rest else e ∷ rest

unfoldable pub add_hub_entry : SignedRosterEntry → RbacPolicy → RbacPolicy
add_hub_entry entry p =
    let kept = drop_hub_entry (to_ascii_lowercase entry.entry.identity_hash) p.hub_entries in
    record p { hub_entries = kept ++ (entry ∷ []) }

abbrev pub clear_hub_entries : RbacPolicy → RbacPolicy
clear_hub_entries p = record p { hub_entries = [] }

unfoldable pub find_hub_entry : List ℕ → List SignedRosterEntry → Option RosterEntry
find_hub_entry hash [] = none
find_hub_entry hash (e ∷ entries) =
    if bytes_eq (to_ascii_lowercase e.entry.identity_hash) hash
    then some e.entry
    else find_hub_entry hash entries

-- `blocked.iter().any(|prefix| hash.starts_with(prefix))`
unfoldable pub is_blocked : List (List ℕ) → List ℕ → Bool
is_blocked [] hash = false
is_blocked (x ∷ prefixes) hash = starts_with hash x || is_blocked prefixes hash

-- Blocked, then the roster, then the entries of the hubs, then the default.
unfoldable pub resolve_role : RbacPolicy → List ℕ → Role
resolve_role p identity_hash =
    let lower = to_ascii_lowercase identity_hash in
    if is_blocked p.blocked_prefixes lower then blocked else elim (find_entry lower p.roster) [
      | some e ↦ e.role
      | none ↦ elim (find_hub_entry lower p.hub_entries) [ some e ↦ e.role | none ↦ p.default_role ]
    ]

unfoldable pub has_capability : RbacPolicy → List ℕ → List ℕ → Bool
has_capability p identity_hash cap =
    let lower = to_ascii_lowercase identity_hash in
    if is_blocked p.blocked_prefixes lower then false else elim (find_entry lower p.roster) [
      | some e ↦ entry_has_capability e cap
      | none ↦ elim (find_hub_entry lower p.hub_entries) [
        | some e ↦ entry_has_capability e cap
        | none ↦ contains (capabilities_for_role p.default_role) cap
      ]
    ]

abbrev pub default_role_grants : RbacPolicy → List ℕ → Bool
default_role_grants p cap = contains (capabilities_for_role p.default_role) cap

unfoldable pub allowed : List (List ℕ) → List ℕ → List RosterEntry → List (List ℕ)
allowed prefixes cap [] = []
allowed prefixes cap (e ∷ roster) =
    let rest = allowed prefixes cap roster in
    if not (is_blocked prefixes e.identity_hash) && entry_has_capability e cap
    then e.identity_hash ∷ rest
    else rest

abbrev pub allow_list : RbacPolicy → List ℕ → List (List ℕ)
allow_list p cap = allowed p.blocked_prefixes cap p.roster
