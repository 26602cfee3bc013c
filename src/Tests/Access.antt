-- ===== src/Tests/Access.antt =====
-- A policy of crates/libs/styrene-rbac with two entries and a blocked prefix.
use styrene_rs.Base.{ℕ, ◌≡◌, refl, true, false, ◌&&◌, ◌||◌, none, some, List, [], ◌∷◌, replicate}
use styrene_rs.Base.Bytes.{bytes_eq}
use styrene_rs.Rbac.Text.{to_ascii_lowercase, all_hexdigits, starts_with, contains}
use styrene_rs.Rbac.Role.{blocked, peer, operator, admin}
use styrene_rs.Rbac.Capability.{rpc_exec, vpn_handshake}
use styrene_rs.Rbac.Capability.Tiers.{capabilities_for_role, is_valid_capability}
use styrene_rs.Rbac.RosterEntry.{
  RosterEntry, new_entry, known, is_valid_identity_hash, is_valid_blocked_prefix,
}
use styrene_rs.Rbac.Policy.{
  RbacPolicy, new_policy, find_entry, add_entry, remove_entry, block, unblock, get_entry,
  resolve_role, has_capability, allow_list,
}
use styrene_rs.Rbac.Policy.Access.{granted, has_capability-resolve_role}
use styrene_rs.Rbac.Policy.Blocking.{done, ◌then◌, added, normalized, block_lem}
use styrene_rs.Rbac.Policy.Normalize.{normalize}
use styrene_rs.Rbac.Policy.NormalForm.{normalize_lem}
use styrene_rs.Rbac.Policy.WellFormed.{WellFormed}
use styrene_rs.Rbac.Policy.Operations.{operations-WellFormed, contains-allow_list}

-- 32 times the letter `A`, in both cases.
abbrev upper_hash : List ℕ
upper_hash = replicate 32 65

abbrev lower_hash : List ℕ
lower_hash = replicate 32 97

abbrev entry : RosterEntry
entry = record (new_entry upper_hash admin) { grants = vpn_handshake ∷ (1 ∷ []) ∷ [] }

abbrev policy : RbacPolicy
policy = record (new_policy peer) {
  roster = record (new_entry lower_hash operator) { grants = vpn_handshake ∷ [] } ∷ [];
  blocked_prefixes = replicate 8 98 ∷ [];
}

policy-WellFormed : WellFormed policy
unfolding is_valid_identity_hash is_valid_blocked_prefix all_hexdigits to_ascii_lowercase known
    is_valid_capability contains bytes_eq find_entry
policy-WellFormed = record {
  roster = (record { valid = refl; lower = refl; grants = refl }, refl, tt);
  prefixes = ((refl, refl), refl, tt);
}

has_capability-resolve_role_example : has_capability policy upper_hash vpn_handshake ≡ (
    contains (capabilities_for_role (resolve_role policy upper_hash)) vpn_handshake
    || (is_valid_capability vpn_handshake && contains (granted policy upper_hash) vpn_handshake))
has_capability-resolve_role_example = has_capability-resolve_role policy upper_hash vpn_handshake

-- The policy with the prefix blocked, a new entry, and normalized.
abbrev changed : RbacPolicy
changed = (normalize (add_entry entry (block (replicate 8 65) policy).0).0).0

block_lem_example :
    (resolve_role changed upper_hash ≡ blocked)
    × (has_capability changed upper_hash rpc_exec ≡ false)
unfolding block is_valid_blocked_prefix all_hexdigits to_ascii_lowercase starts_with
block_lem_example =
    block_lem (replicate 8 65) upper_hash rpc_exec policy changed refl
      (added entry then normalized then done) refl

operations-WellFormed_example :
    ((e : RosterEntry) → WellFormed (add_entry e policy).0)
    × ((hash : List ℕ) → WellFormed (remove_entry hash policy).0)
    × ((prefix : List ℕ) → WellFormed (block prefix policy).0)
    × ((prefix : List ℕ) → WellFormed (unblock prefix policy).0)
operations-WellFormed_example = operations-WellFormed policy policy-WellFormed

contains-allow_list_example : contains (allow_list policy vpn_handshake) lower_hash ≡ (
    has_capability policy lower_hash vpn_handshake
    && elim (get_entry policy lower_hash) [ some e ↦ true | none ↦ false ])
unfolding to_ascii_lowercase
contains-allow_list_example =
    contains-allow_list policy lower_hash vpn_handshake policy-WellFormed refl

abbrev loaded : RbacPolicy
loaded = record (new_policy peer) {
  roster = entry ∷ new_entry (65 ∷ []) admin ∷ new_entry lower_hash operator ∷ [];
  blocked_prefixes = replicate 8 66 ∷ (97 ∷ []) ∷ replicate 8 98 ∷ [];
}

normalize_lem_example :
    WellFormed (normalize loaded).0
    × (WellFormed loaded → normalize loaded ≡ (loaded, []))
    × (normalize (normalize loaded).0 ≡ ((normalize loaded).0, []))
normalize_lem_example = normalize_lem loaded
