-- ===== src/Transport/AnnounceCache.antt =====
-- crates/libs/styrene-rns/src/transport/core_transport/announce_table.rs (`AnnounceCache`). `newer` is
-- never `None` between two calls, so it is the map itself.
pub mod Bounded
use styrene_rs.Base.{
  ℕ, ◌+◌, Bool, ◌&&◌, Option, none, some, [], ◌∷◌, ltb, leb, ◌==◌ as nat_eq, if◌then◌else◌, length,
}
use styrene_rs.Base.Keys.{bytes_key, Map, lookup, remove}
use styrene_rs.Base.Ordered.{put}
use styrene_rs.Hash.{AddressHash}
use styrene_rs.Transport.AnnounceEntry.{AnnounceEntry}

abbrev pub Entries : Type 0
Entries = Map AddressHash AnnounceEntry

pub record AnnounceCache : Type 0 where
  pub newer : Entries
  pub older : Option Entries
  pub capacity : ℕ

abbrev pub new : ℕ → AnnounceCache
new capacity = record { newer = []; older = none; capacity = capacity }

unfoldable pub len : AnnounceCache → ℕ
len c = length c.newer + elim c.older [ none ↦ 0 | some older ↦ length older ]

abbrev pub is_empty : AnnounceCache → Bool
is_empty c = nat_eq (len c) 0

-- The entry with the least key goes, when there is one.
abbrev pub remove_first : Entries → Entries
remove_first [] = []
remove_first ((first_key, e) ∷ entries) = remove first_key ((first_key, e) ∷ entries)

abbrev pub non_empty : Entries → Option Entries
non_empty [] = none
non_empty (e ∷ entries) = some (e ∷ entries)

unfoldable pub evict_one : AnnounceCache → AnnounceCache
evict_one c = elim c.older [
  | some (e ∷ older) ↦ record c { older = non_empty (remove_first (e ∷ older)) }
  | some [] ↦ record c { newer = remove_first c.newer }
  | none ↦ record c { newer = remove_first c.newer }
]

unfoldable pub make_room : AnnounceCache → AnnounceCache
make_room c = if ltb 0 c.capacity && leb c.capacity (len c) then evict_one c else c

-- A full newer map becomes the older one.
unfoldable pub rotate : AnnounceCache → AnnounceCache
rotate c =
    if leb c.capacity (length c.newer) then record c { older = some c.newer; newer = [] } else c

unfoldable pub insert : AddressHash → AnnounceEntry → AnnounceCache → AnnounceCache
insert destination entry c =
    let c' = rotate (make_room c) in record c' { newer = put destination entry c'.newer }

unfoldable pub get : AddressHash → AnnounceCache → Option AnnounceEntry
get destination c = elim (lookup destination c.newer) [
  | some entry ↦ some entry
  | none ↦ elim c.older [ some older ↦ lookup destination older | none ↦ none ]
]

abbrev pub clear : AnnounceCache → AnnounceCache
clear c = record c { newer = []; older = none }
