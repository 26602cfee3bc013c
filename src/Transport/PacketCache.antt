-- ===== src/Transport/PacketCache.antt =====
-- crates/libs/styrene-rns/src/transport/core_transport/packet_cache.rs: the filter of duplicates.
pub mod Duplicates
use styrene_rs.Base.{[], ℕ, ◌-◌, min, Bool, true, false, none, some, List, ◌++◌, ltb}
use styrene_rs.Base.Keys.{bytes_key, Map, lookup, insert}
use styrene_rs.Base.Retain.{keys_where, remove_all}
use styrene_rs.Hash.{Hash}
use styrene_rs.Packet.Codec.{Packet}
use styrene_rs.Packet.Digest.{packet_hash}

pub record PacketTrack : Type 0 where
  pub time : ℕ
  pub min_hops : ℕ

-- `remove_cache` is scratch space, empty between calls.
pub record PacketCache : Type 0 where
  pub tracks : Map Hash PacketTrack
  pub remove_cache : List Hash

abbrev pub new : PacketCache
new = record { tracks = []; remove_cache = [] }

-- `time.elapsed() > duration`, where a clock that went back counts as nothing elapsed.
abbrev pub is_expired : ℕ → ℕ → PacketTrack → Bool
is_expired now duration track = ltb duration (now - track.time)

unfoldable pub release : ℕ → ℕ → PacketCache → PacketCache
release now duration c =
    let found = c.remove_cache ++ keys_where (λ _. is_expired now duration) c.tracks in
    record { tracks = remove_all found c.tracks; remove_cache = [] }

unfoldable pub update : (List ℕ → Hash) → ℕ → Packet → PacketCache → PacketCache × Bool
update sha256 now p c =
    let hash = packet_hash sha256 p in
    elim (lookup hash c.tracks) [
      | some track ↦ (
        record c {
          tracks =
              insert hash (record { time = now; min_hops = min p.header.hops track.min_hops })
                c.tracks;
        },
        false,
      )
      | none ↦ (
        record c {
          tracks = insert hash (record { time = now; min_hops = p.header.hops }) c.tracks;
        },
        true,
      )
    ]
