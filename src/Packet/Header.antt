-- ===== src/Packet/Header.antt =====
-- The header of a packet: one enumeration for each flag, and the byte that holds them. `x as u8` is
-- a function `…_code`; `From<u8>` is a function `…_from`.
pub mod Meta
use styrene_rs.Base.{ℕ, ◌*◌, ◌/◌, ◌%◌, ◌^◌, bit_and, bit_or, ◌==◌, if◌then◌else◌}

pub data IfacFlag : Type 0 where
  open_access authenticated : IfacFlag

pub data HeaderType : Type 0 where
  type1 type2 : HeaderType

pub data PropagationType : Type 0 where
  broadcast transport : PropagationType

pub data ContextFlag : Type 0 where
  unset set_flag : ContextFlag

pub data DestinationType : Type 0 where
  single group plain link : DestinationType

pub data PacketType : Type 0 where
  payload announce link_request proof : PacketType

abbrev pub ifac_flag_code : IfacFlag → ℕ
ifac_flag_code open_access = 0
ifac_flag_code authenticated = 1

abbrev pub header_type_code : HeaderType → ℕ
header_type_code type1 = 0
header_type_code type2 = 1

abbrev pub propagation_type_code : PropagationType → ℕ
propagation_type_code broadcast = 0
propagation_type_code transport = 1

abbrev pub context_flag_code : ContextFlag → ℕ
context_flag_code unset = 0
context_flag_code set_flag = 1

abbrev pub destination_type_code : DestinationType → ℕ
destination_type_code single = 0
destination_type_code group = 1
destination_type_code plain = 2
destination_type_code link = 3

abbrev pub packet_type_code : PacketType → ℕ
packet_type_code payload = 0
packet_type_code announce = 1
packet_type_code link_request = 2
packet_type_code proof = 3

-- No mask stands in this one: any value but 1 is open.
unfoldable pub ifac_flag_from : ℕ → IfacFlag
ifac_flag_from value =
    if value == 0 then open_access else if value == 1 then authenticated else open_access

unfoldable pub header_type_from : ℕ → HeaderType
header_type_from value =
    let v = bit_and value 1 in if v == 0 then type1 else if v == 1 then type2 else type1

unfoldable pub propagation_type_from : ℕ → PropagationType
propagation_type_from value =
    let v = bit_and value 1 in if v == 0 then broadcast else if v == 1 then transport else broadcast

unfoldable pub context_flag_from : ℕ → ContextFlag
context_flag_from value =
    let v = bit_and value 1 in if v == 0 then unset else if v == 1 then set_flag else unset

unfoldable pub destination_type_from : ℕ → DestinationType
destination_type_from value =
    let v = bit_and value 3 in
    if v == 0
    then single
    else if v == 1
    then group
    else if v == 2
    then plain
    else if v == 3
    then link
    else single

unfoldable pub packet_type_from : ℕ → PacketType
packet_type_from value =
    let v = bit_and value 3 in
    if v == 0
    then payload
    else if v == 1
    then announce
    else if v == 2
    then link_request
    else if v == 3
    then proof
    else payload

pub record Header : Type 0 where
  pub ifac_flag : IfacFlag
  pub header_type : HeaderType
  pub context_flag : ContextFlag
  pub propagation_type : PropagationType
  pub destination_type : DestinationType
  pub packet_type : PacketType
  pub hops : ℕ

-- `Default::default`
abbrev pub default_header : Header
default_header = record {
  ifac_flag = open_access;
  header_type = type1;
  context_flag = unset;
  propagation_type = broadcast;
  destination_type = single;
  packet_type = payload;
  hops = 0;
}

-- Each shift leaves a `u8`, so it is taken modulo 256.
unfoldable pub to_meta : Header → ℕ
to_meta h =
    bit_or
      (bit_or
        (bit_or
          (bit_or
            (bit_or (ifac_flag_code h.ifac_flag * 2 ^ 7 % 256)
              (header_type_code h.header_type * 2 ^ 6 % 256))
            (context_flag_code h.context_flag * 2 ^ 5 % 256))
          (propagation_type_code h.propagation_type * 2 ^ 4 % 256))
        (destination_type_code h.destination_type * 2 ^ 2 % 256))
      (packet_type_code h.packet_type)

unfoldable pub from_meta : ℕ → Header
unfolding ifac_flag_from header_type_from context_flag_from propagation_type_from
    destination_type_from packet_type_from
from_meta meta = record {
  ifac_flag = ifac_flag_from (meta / 2 ^ 7);
  header_type = header_type_from (meta / 2 ^ 6);
  context_flag = context_flag_from (meta / 2 ^ 5);
  propagation_type = propagation_type_from (meta / 2 ^ 4);
  destination_type = destination_type_from (meta / 2 ^ 2);
  packet_type = packet_type_from meta;
  hops = 0;
}
