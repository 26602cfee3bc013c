-- ===== src/Transport/Resource.antt =====
-- crates/libs/styrene-rns/src/transport/resource: the transfer of data too large for a packet, in
-- parts that the receiver asks for by the first bytes of their digests.
pub mod Messages
pub mod Utils
pub mod Sender
pub mod Receiver
pub mod Manager
pub mod Transfer
use styrene_rs.Base.{ℕ, ◌+◌, ◌-◌, ◌*◌, ◌/◌}
use styrene_rs.Hash.{address_hash_size}
use styrene_rs.Packet.Codec.{packet_mdu}
use styrene_rs.Crypt.Fernet.{fernet_overhead_size, fernet_max_padding_size}

abbrev pub window : ℕ
window = 4

abbrev pub maphash_len : ℕ
maphash_len = 4

abbrev pub random_hash_size : ℕ
random_hash_size = 4

abbrev pub advertisement_overhead : ℕ
advertisement_overhead = 134

abbrev pub header_minsize : ℕ
header_minsize = 2 + 1 + address_hash_size

abbrev pub header_maxsize : ℕ
header_maxsize = 2 + 1 + address_hash_size * 2

abbrev pub ifac_min_size : ℕ
ifac_min_size = 1

abbrev pub reticulum_mtu : ℕ
reticulum_mtu = packet_mdu + header_maxsize + ifac_min_size

abbrev pub link_packet_mdu : ℕ
link_packet_mdu =
    (reticulum_mtu - ifac_min_size - header_minsize - fernet_overhead_size)
      / fernet_max_padding_size
      * fernet_max_padding_size
    - 1

abbrev pub hashmap_max_len : ℕ
hashmap_max_len = (link_packet_mdu - advertisement_overhead) / maphash_len

abbrev pub metadata_max_size : ℕ
metadata_max_size = 16 * 1024 * 1024 - 1

abbrev pub max_awaiting_proof_retries : ℕ
max_awaiting_proof_retries = 3

pub data ResourceStatus : Type 0 where
  no_status advertised transferring awaiting_proof complete failed : ResourceStatus
