-- ===== src/Rbac/Policy/Access.antt =====
-- What crates/libs/styrene-rbac/src/policy.rs permits: roles, grants and blocked identities.
use styrene_rs.Base.{
  ℕ, ◌≡◌, refl, sym, ap, ◌∙◌, ◌≢◌, inl, inr, Bool, true, false, ◌&&◌, ◌||◌, leb, arith,
  if◌then◌else◌, none, some, List, [], ◌∷◌, Bool-cases, Option-cases,
}
use styrene_rs.Base.Bytes.{bytes_eq, bytes_eq_iff}
use styrene_rs.Rbac.Text.{to_ascii_lowercase, contains}
use styrene_rs.Rbac.Role.{Role, blocked, none as no_access, peer, monitor, operator, admin, rank}
use styrene_rs.Rbac.Capability.{vpn_handshake, relay_reject, i2p_proxy}
use styrene_rs.Rbac.Capability.Tiers.{all_capabilities, capabilities_for_role, is_valid_capability}
use styrene_rs.Rbac.RosterEntry.{entry_has_capability}
use styrene_rs.Rbac.Policy.{
  RbacPolicy, find_entry, find_hub_entry, is_blocked, resolve_role, has_capability,
}

-- Every text of the first list stands in the second.
unfoldable pub includes : List (List ℕ) → List (List ℕ) → Bool
includes [] ys = true
includes (x ∷ xs) ys = contains ys x && includes xs ys

contains_included :
    (xs ys : List (List ℕ)) (t : List ℕ)
    → includes xs ys ≡ true
    → contains xs t ≡ true
    → contains ys t ≡ true
unfolding includes contains
contains_included [] ys t i c = absurd (ground (arith, c))
contains_included (x ∷ xs) ys t i c = elim (Bool-cases (bytes_eq x t)) [
  | inl here ↦ ap (contains ys) (sym ((bytes_eq_iff x t).0 here)) ∙ ground (arith, i)
  | inr there ↦ contains_included xs ys t (ground (arith, i)) (ground (arith, there, c))
]

tiers_included :
    (low high : Role)
    → leb (rank low) (rank high) ≡ true
    → includes (capabilities_for_role low) (capabilities_for_role high) ≡ true
unfolding includes contains bytes_eq
tiers_included blocked high order = refl
tiers_included no_access high order = refl
tiers_included peer peer order = refl
tiers_included peer monitor order = refl
tiers_included peer operator order = refl
tiers_included peer admin order = refl
tiers_included monitor monitor order = refl
tiers_included monitor operator order = refl
tiers_included monitor admin order = refl
tiers_included operator operator order = refl
tiers_included operator admin order = refl
tiers_included admin admin order = refl
tiers_included _ _ order = absurd (ground (arith, order))

tiers_known : (role : Role) → includes (capabilities_for_role role) all_capabilities ≡ true
unfolding includes contains bytes_eq
tiers_known blocked = refl
tiers_known no_access = refl
tiers_known peer = refl
tiers_known monitor = refl
tiers_known operator = refl
tiers_known admin = refl

orthogonal :
    (role : Role)
    → (contains (capabilities_for_role role) vpn_handshake ≡ false)
      × (contains (capabilities_for_role role) relay_reject ≡ false)
      × (contains (capabilities_for_role role) i2p_proxy ≡ false)
unfolding contains bytes_eq
orthogonal blocked = (refl, refl, refl)
orthogonal no_access = (refl, refl, refl)
orthogonal peer = (refl, refl, refl)
orthogonal monitor = (refl, refl, refl)
orthogonal operator = (refl, refl, refl)
orthogonal admin = (refl, refl, refl)

-- A capability of a role is one of each role of the same or a higher rank, is a known
-- capability, and is none of the three that only a grant gives (vpn.handshake, relay.reject,
-- i2p.proxy).
pub capabilities_for_role_lem :
    (low high : Role) (cap : List ℕ)
    → leb (rank low) (rank high) ≡ true
    → contains (capabilities_for_role low) cap ≡ true
    → (contains (capabilities_for_role high) cap ≡ true)
      × (is_valid_capability cap ≡ true)
      × (cap ≢ vpn_handshake)
      × (cap ≢ relay_reject)
      × (cap ≢ i2p_proxy)
unfolding is_valid_capability
capabilities_for_role_lem low high cap order held = (
  contains_included (capabilities_for_role low) (capabilities_for_role high) cap
      (tiers_included low high order) held,
  contains_included (capabilities_for_role low) all_capabilities cap (tiers_known low) held,
  apart vpn_handshake (orthogonal low).0,
  apart relay_reject (orthogonal low).1,
  apart i2p_proxy (orthogonal low).2,
)
  where
    apart : (other : List ℕ) → contains (capabilities_for_role low) other ≡ false → cap ≢ other
    apart other absent same =
        ground (arith, absent, ap (contains (capabilities_for_role low)) same, held)

-- What an identity was given by name, over its role.
unfoldable pub granted : RbacPolicy → List ℕ → List (List ℕ)
granted p identity_hash =
    let lower = to_ascii_lowercase identity_hash in
    if is_blocked p.blocked_prefixes lower then [] else elim (find_entry lower p.roster) [
      | some e ↦ e.grants
      | none ↦ elim (find_hub_entry lower p.hub_entries) [ some e ↦ e.grants | none ↦ [] ]
    ]

-- has_capability answers true exactly for the capabilities of the role that resolve_role gives,
-- and for the known capabilities granted by name in the entry that decides.
pub has_capability-resolve_role :
    (p : RbacPolicy) (identity_hash cap : List ℕ)
    → has_capability p identity_hash cap ≡ (
        contains (capabilities_for_role (resolve_role p identity_hash)) cap
        || (is_valid_capability cap && contains (granted p identity_hash) cap))
unfolding has_capability resolve_role granted entry_has_capability
has_capability-resolve_role p identity_hash cap =
    let lower = to_ascii_lowercase identity_hash in
    let nothing : contains [] cap ≡ false = unfold contains in refl in
    elim (Bool-cases (is_blocked p.blocked_prefixes lower)) [
      | inl denied ↦ rw (has_capability, resolve_role, granted, denied) (ground (arith, nothing))
      | inr free ↦ elim (Option-cases (find_entry lower p.roster)) [
        | inr (e, found) ↦ rw (has_capability, resolve_role, granted, free, found) refl
        | inl absent ↦ elim (Option-cases (find_hub_entry lower p.hub_entries)) [
          | inr (e, found) ↦ rw (has_capability, resolve_role, granted, free, absent, found) refl
          | inl missing ↦
              rw (has_capability, resolve_role, granted, free, absent, missing)
                (ground (arith, nothing))
        ]
      ]
    ]
