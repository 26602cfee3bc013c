-- ===== src/Rbac/RosterEntry.antt =====
-- crates/libs/styrene-rbac/src/policy.rs (`RosterEntry` and the checks of hashes and prefixes), signed.rs
-- (the records) and warning.rs.
use styrene_rs.Base.{ℕ, Bool, ◌&&◌, ◌||◌, leb, ◌==◌ as nat_eq, if◌then◌else◌, List, [], ◌∷◌, length}
use styrene_rs.Base.Bytes.{bytes_eq}
use styrene_rs.Rbac.Text.{all_hexdigits, contains}
use styrene_rs.Rbac.Role.{Role}
use styrene_rs.Rbac.Capability.Tiers.{capabilities_for_role, is_valid_capability}

abbrev pub min_blocked_prefix_len : ℕ
min_blocked_prefix_len = 8

pub record RosterEntry : Type 0 where
  pub identity_hash : List ℕ
  pub role : Role
  pub label : List ℕ
  pub grants : List (List ℕ)

abbrev pub new_entry : List ℕ → Role → RosterEntry
new_entry identity_hash role = record {
  identity_hash = identity_hash;
  role = role;
  label = [];
  grants = [];
}

-- `retain(|g| is_valid_capability(g))`
unfoldable pub known : List (List ℕ) → List (List ℕ)
known [] = []
known (g ∷ grants) = let rest = known grants in if is_valid_capability g then g ∷ rest else rest

abbrev pub with_grants : List (List ℕ) → RosterEntry → RosterEntry
with_grants grants entry = record entry { grants = known grants }

unfoldable pub entry_has_capability : RosterEntry → List ℕ → Bool
entry_has_capability entry cap =
    contains (capabilities_for_role entry.role) cap
    || (is_valid_capability cap && contains entry.grants cap)

unfoldable pub is_valid_identity_hash : List ℕ → Bool
is_valid_identity_hash hash = nat_eq (length hash) 32 && all_hexdigits hash

unfoldable pub is_valid_blocked_prefix : List ℕ → Bool
is_valid_blocked_prefix prefix = leb min_blocked_prefix_len (length prefix) && all_hexdigits prefix

-- The times of a signed entry are not used here.
pub record SignedRosterEntry : Type 0 where
  pub entry : RosterEntry
  pub hub_hash : List ℕ
  pub hub_pubkey : List ℕ
  pub signature : List ℕ

pub record TrustedHub : Type 0 where
  pub hub_hash : List ℕ
  pub hub_pubkey : List ℕ
  pub label : List ℕ

unfoldable pub matches : TrustedHub → SignedRosterEntry → Bool
matches hub entry = bytes_eq hub.hub_hash entry.hub_hash && bytes_eq hub.hub_pubkey entry.hub_pubkey

pub data PolicyWarning : Type 0 where
  invalid_identity_hash : List ℕ → List ℕ → PolicyWarning
  invalid_blocked_prefix : List ℕ → PolicyWarning
  normalized_identity_hash : List ℕ → List ℕ → PolicyWarning
  normalized_blocked_prefix : List ℕ → List ℕ → PolicyWarning
  unknown_grant : List ℕ → List ℕ → PolicyWarning
  duplicate_roster_entry : List ℕ → List ℕ → List ℕ → PolicyWarning
