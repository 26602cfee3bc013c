-- ===== src/Rbac/Policy/Operations.antt =====
-- The operations of crates/libs/styrene-rbac/src/policy.rs that change a policy: they keep it well formed,
-- and what was added is found again.
use styrene_rs.Base.{
  ℕ, ◌≡◌, sym, ap, ◌∙◌, inl, inr, true, false, ◌&&◌, not, arith, if◌then◌else◌, none, some, List,
  [], ◌∷◌, Bool-cases,
}
use styrene_rs.Base.Bytes.{bytes_eq, bytes_eq_iff}
use styrene_rs.Rbac.Text.{to_ascii_lowercase, contains, lowercase_twice}
use styrene_rs.Rbac.RosterEntry.{
  RosterEntry, known, is_valid_identity_hash, is_valid_blocked_prefix, entry_has_capability,
}
use styrene_rs.Rbac.Policy.{
  RbacPolicy, find_entry, put_entry, is_blocked, add_entry, remove_entry, block, unblock, get_entry,
  has_capability, allowed, allow_list,
}
use styrene_rs.Rbac.Policy.WellFormed.{
  CleanRoster, WellFormed, find_entry-put_entry, find_entry-drop_entry, put_entry-CleanRoster,
  drop_entry-CleanRoster, push_new-CleanPrefixes, drop_prefix-CleanPrefixes, known_twice,
}

-- add_entry, remove_entry, block and unblock keep a policy well formed: valid hashes and
-- prefixes in lower case, each once, and known grants only.
pub operations-WellFormed :
    (p : RbacPolicy)
    → WellFormed p
    → ((e : RosterEntry) → WellFormed (add_entry e p).0)
      × ((hash : List ℕ) → WellFormed (remove_entry hash p).0)
      × ((prefix : List ℕ) → WellFormed (block prefix p).0)
      × ((prefix : List ℕ) → WellFormed (unblock prefix p).0)
operations-WellFormed p w = (adding, removing, blocking, unblocking)
  where
    adding : (e : RosterEntry) → WellFormed (add_entry e p).0
    adding e =
        let lower = to_ascii_lowercase e.identity_hash in
        unfold add_entry in
        elim (Bool-cases (is_valid_identity_hash lower)) [
          | inr refused ↦ rw refused w
          | inl valid ↦ rw valid (record {
            roster =
                put_entry-CleanRoster (record e { identity_hash = lower; grants = known e.grants })
                  p.roster
                  (record {
                    valid = valid;
                    lower = lowercase_twice e.identity_hash;
                    grants = known_twice e.grants;
                  })
                  w.roster;
            prefixes = w.prefixes;
          })
        ]

    removing : (hash : List ℕ) → WellFormed (remove_entry hash p).0
    removing hash =
        (unfold remove_entry in
          record {
            roster = drop_entry-CleanRoster (to_ascii_lowercase hash) p.roster w.roster;
            prefixes = w.prefixes;
          })

    blocking : (prefix : List ℕ) → WellFormed (block prefix p).0
    blocking prefix =
        let lower = to_ascii_lowercase prefix in
        unfold block in
        elim (Bool-cases (is_valid_blocked_prefix lower)) [
          | inr refused ↦ rw refused w
          | inl valid ↦ rw valid (record {
            roster = w.roster;
            prefixes =
                push_new-CleanPrefixes lower p.blocked_prefixes (valid, lowercase_twice prefix)
                  w.prefixes;
          })
        ]

    unblocking : (prefix : List ℕ) → WellFormed (unblock prefix p).0
    unblocking prefix =
        (unfold unblock in
          record {
            roster = w.roster;
            prefixes =
                drop_prefix-CleanPrefixes (to_ascii_lowercase prefix) p.blocked_prefixes w.prefixes;
          })

add_entry_accepted :
    (p : RbacPolicy) (e : RosterEntry)
    → (add_entry e p).1 ≡ true
    → (add_entry e p).0 ≡ record p {
      roster =
          put_entry
            (record e {
              identity_hash = to_ascii_lowercase e.identity_hash;
              grants = known e.grants;
            })
            p.roster;
    }
unfolding add_entry
add_entry_accepted p e accepted = ground (arith, accepted)

-- After add_entry accepted an entry, get_entry finds it, in lower case and with its known
-- grants, under its hash in either case, and finds what it found before under any other hash;
-- after a further remove_entry it finds nothing under the removed hash and the same under any
-- other.
pub get_entry-add_entry :
    (p : RbacPolicy) (e : RosterEntry) (hash other : List ℕ)
    → (add_entry e p).1 ≡ true
    → (get_entry (add_entry e p).0 hash ≡ (
        if bytes_eq (to_ascii_lowercase e.identity_hash) (to_ascii_lowercase hash)
        then some (record e {
          identity_hash = to_ascii_lowercase e.identity_hash;
          grants = known e.grants;
        })
        else get_entry p hash))
      × (get_entry (remove_entry other (add_entry e p).0).0 hash ≡ (
          if bytes_eq (to_ascii_lowercase other) (to_ascii_lowercase hash)
          then none
          else get_entry (add_entry e p).0 hash))
unfolding get_entry remove_entry
get_entry-add_entry p e hash other accepted = (
  rw (add_entry_accepted p e accepted) (find_entry-put_entry (to_ascii_lowercase hash) _ p.roster),
  find_entry-drop_entry (to_ascii_lowercase hash) (to_ascii_lowercase other)
      (add_entry e p).0.roster,
)

-- Each hash of the roster stands once, so the list has exactly the entries that `find_entry` finds.
contains-allowed :
    (prefixes : List (List ℕ)) (ability hash : List ℕ) (roster : List RosterEntry)
    → CleanRoster roster
    → contains (allowed prefixes ability roster) hash ≡ (
        not (is_blocked prefixes hash)
        && elim (find_entry hash roster) [ some e ↦ entry_has_capability e ability | none ↦ false ])
unfolding contains allowed find_entry
contains-allowed prefixes ability hash [] all = ground arith
contains-allowed prefixes ability hash (x ∷ roster) (_, once, rest) =
    let later = contains-allowed prefixes ability hash roster rest in
    let place = bytes_eq_iff x.identity_hash hash in
    elim (Bool-cases (bytes_eq x.identity_hash hash)) [
      | inl here ↦
          let same = place.0 here in
          let alone = ap (λ h. find_entry h roster) (sym same) ∙ once in
          let bar = ap (is_blocked prefixes) same in ground (arith, here, later, alone, bar)
      | inr other ↦ ground (arith, other, later)
    ]

-- Of a well-formed policy, the allow list of a capability has a hash in lower case exactly if
-- has_capability grants it and the roster has an entry for it.
pub contains-allow_list :
    (p : RbacPolicy) (hash ability : List ℕ)
    → WellFormed p
    → to_ascii_lowercase hash ≡ hash
    → contains (allow_list p ability) hash
      ≡ (has_capability p hash ability && elim (get_entry p hash) [ some e ↦ true | none ↦ false ])
unfolding has_capability get_entry
contains-allow_list p hash ability w lower =
    let listed = contains-allowed p.blocked_prefixes ability hash p.roster w.roster in
    rw (has_capability, get_entry, lower) (ground (arith, listed))
