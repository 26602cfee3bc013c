-- ===== src/Rbac/Role.antt =====
-- crates/libs/styrene-rbac/src/role.rs: the tiers of privilege.
use styrene_rs.Base.{ℕ, Bool, leb, if◌then◌else◌, List, [], ◌∷◌, Option, some}
use mathlib.Core.Option.{none as no_role}
use styrene_rs.Base.Bytes.{bytes_eq}
use styrene_rs.Rbac.Text.{to_ascii_lowercase}

pub data Role : Type 0 where
  blocked : Role
  none : Role
  peer : Role
  monitor : Role
  operator : Role
  admin : Role

-- The discriminants, by which roles are ordered.
abbrev pub rank : Role → ℕ
rank blocked = 0
rank none = 1
rank peer = 10
rank monitor = 20
rank operator = 30
rank admin = 40

abbrev pub as_str : Role → List ℕ
as_str blocked = 98 ∷ 108 ∷ 111 ∷ 99 ∷ 107 ∷ 101 ∷ 100 ∷ []
as_str none = 110 ∷ 111 ∷ 110 ∷ 101 ∷ []
as_str peer = 112 ∷ 101 ∷ 101 ∷ 114 ∷ []
as_str monitor = 109 ∷ 111 ∷ 110 ∷ 105 ∷ 116 ∷ 111 ∷ 114 ∷ []
as_str operator = 111 ∷ 112 ∷ 101 ∷ 114 ∷ 97 ∷ 116 ∷ 111 ∷ 114 ∷ []
as_str admin = 97 ∷ 100 ∷ 109 ∷ 105 ∷ 110 ∷ []

unfoldable pub from_name : List ℕ → Option Role
from_name name =
    let lower = to_ascii_lowercase name in
    if bytes_eq lower (98 ∷ 108 ∷ 111 ∷ 99 ∷ 107 ∷ 101 ∷ 100 ∷ [])
    then some blocked
    else if bytes_eq lower (110 ∷ 111 ∷ 110 ∷ 101 ∷ [])
    then some none
    else if bytes_eq lower (112 ∷ 101 ∷ 101 ∷ 114 ∷ [])
    then some peer
    else if bytes_eq lower (109 ∷ 111 ∷ 110 ∷ 105 ∷ 116 ∷ 111 ∷ 114 ∷ [])
    then some monitor
    else if bytes_eq lower (111 ∷ 112 ∷ 101 ∷ 114 ∷ 97 ∷ 116 ∷ 111 ∷ 114 ∷ [])
    then some operator
    else if bytes_eq lower (97 ∷ 100 ∷ 109 ∷ 105 ∷ 110 ∷ [])
    then some admin
    else no_role

abbrev pub has_access : Role → Bool
has_access role = leb (rank peer) (rank role)
