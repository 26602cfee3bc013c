-- ===== src/Hash.antt =====
-- crates/libs/styrene-rns/src/hash.rs: digests and the addresses cut from them. SHA-256 itself is
-- the crate `sha2`, so the digest function is an argument of what uses it.
use styrene_rs.Base.{ℕ, List, take, replicate}

abbrev pub address_hash_size : ℕ
address_hash_size = 16

abbrev pub hash_size : ℕ
hash_size = 32

-- `[u8; HASH_SIZE]` and `[u8; ADDRESS_HASH_SIZE]`
abbrev pub Hash : Type 0
Hash = List ℕ

abbrev pub AddressHash : Type 0
AddressHash = List ℕ

abbrev pub new_empty : AddressHash
new_empty = replicate address_hash_size 0

-- `AddressHash::new_from_hash`
unfoldable pub new_from_hash : Hash → AddressHash
new_from_hash hash = take address_hash_size hash
