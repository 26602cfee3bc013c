-- ===== src/Mesh/MessageType/Bytes.antt =====
-- The bytes of the message types of crates/libs/styrene-mesh/src/wire.rs, and the types of a build.
use styrene_rs.Base.{ℕ, ◌≡◌, refl, Bool, true, false, not, ◌&&◌, ◌||◌, arith, leb, ◌==◌, ok, err}
use styrene_rs.Base.Bytes.{IsByte, each_below, each_below-holds}
use styrene_rs.Mesh.MessageType.{StyreneMessageType, ping, as_u8, from_byte}

-- The types of a build: all of them with the feature, all but the post-quantum ones without it.
abbrev pub is_pqc : StyreneMessageType → Bool
is_pqc message_type = leb 0xd0 (as_u8 message_type) && leb (as_u8 message_type) 0xd7

abbrev pub available : Bool → StyreneMessageType → Bool
available pqc message_type = pqc || not (is_pqc message_type)

pub from_byte-as_u8 :
    (pqc : Bool) (m : StyreneMessageType) → available pqc m ≡ true → from_byte pqc (as_u8 m) ≡ ok m
unfolding from_byte
from_byte-as_u8 true ping h = refl
from_byte-as_u8 true _ h = refl
from_byte-as_u8 false ping h = refl
from_byte-as_u8 false m h = ground arith

abbrev agrees : Bool → ℕ → Bool
agrees pqc b = elim (from_byte pqc b) [ ok m ↦ as_u8 m == b && available pqc m | err e ↦ true ]

agrees_table : (pqc : Bool) → each_below 256 (agrees pqc) ≡ true
unfolding each_below from_byte
agrees_table true = refl
agrees_table false = refl

pub as_u8-from_byte :
    (pqc : Bool) (b : ℕ) (m : StyreneMessageType)
    → IsByte b
    → from_byte pqc b ≡ ok m
    → (as_u8 m ≡ b) × (available pqc m ≡ true)
as_u8-from_byte pqc b m h e =
    ground (arith, each_below-holds 256 (agrees pqc) b (agrees_table pqc) h)
