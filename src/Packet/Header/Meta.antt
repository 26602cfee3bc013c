-- ===== src/Packet/Header/Meta.antt =====
-- The metadata byte and the header flags determine one another.
use styrene_rs.Base.{
  ℕ, ◌+◌, ◌*◌, ◌/◌, ◌%◌, ◌^◌, ◌<◌, bit_and, ◌≡◌, refl, ◌∙◌, true, arith, ◌==◌, ==_iff,
}
use styrene_rs.Base.Bytes.{IsByte, each_below, each_below-holds}
use styrene_rs.Packet.Header.{
  IfacFlag, open_access, authenticated, HeaderType, type1, type2, PropagationType, broadcast,
  transport, ContextFlag, unset, set_flag, DestinationType, single, group, plain, link, PacketType,
  payload, announce, link_request, proof, Header, to_meta, from_meta, ifac_flag_code,
  header_type_code, context_flag_code, propagation_type_code, destination_type_code,
  packet_type_code, ifac_flag_from, header_type_from, context_flag_from, propagation_type_from,
  destination_type_from, packet_type_from,
}

abbrev flags :
    IfacFlag → HeaderType → ContextFlag → PropagationType → DestinationType → PacketType → Header
flags i h c p d t = record {
  ifac_flag = i;
  header_type = h;
  context_flag = c;
  propagation_type = p;
  destination_type = d;
  packet_type = t;
  hops = 0;
}

-- The bits of the metadata byte, as a sum.
meta_sum : Header → ℕ
meta_sum h =
    ifac_flag_code h.ifac_flag * 128
    + header_type_code h.header_type * 64
    + context_flag_code h.context_flag * 32
    + propagation_type_code h.propagation_type * 16
    + destination_type_code h.destination_type * 4
    + packet_type_code h.packet_type

to_meta_sum :
    (i : IfacFlag) (h : HeaderType) (c : ContextFlag) (p : PropagationType) (d : DestinationType)
    (t : PacketType)
    → to_meta (flags i h c p d t) ≡ meta_sum (flags i h c p d t)
unfolding to_meta meta_sum
to_meta_sum i h c p d t = ground arith

low_bit_table : each_below 256 (λ v. bit_and v 1 == v % 2) ≡ true
unfolding each_below
low_bit_table = refl

low_bit : (v : ℕ) → v < 256 → bit_and v 1 ≡ v % 2
low_bit v h = (==_iff _ _).0 (each_below-holds 256 (λ v. bit_and v 1 == v % 2) v low_bit_table h)

low_two_bits_table : each_below 256 (λ v. bit_and v 3 == v % 4) ≡ true
unfolding each_below
low_two_bits_table = refl

low_two_bits : (v : ℕ) → v < 256 → bit_and v 3 ≡ v % 4
low_two_bits v h =
    (==_iff _ _).0 (each_below-holds 256 (λ v. bit_and v 3 == v % 4) v low_two_bits_table h)

ifac_flag_read : (v : ℕ) (i : IfacFlag) → v ≡ ifac_flag_code i → ifac_flag_from v ≡ i
unfolding ifac_flag_from
ifac_flag_read v open_access h = ground arith
ifac_flag_read v authenticated h = ground arith

header_type_read :
    (v : ℕ) (t : HeaderType) → v < 256 → v % 2 ≡ header_type_code t → header_type_from v ≡ t
unfolding header_type_from
header_type_read v type1 b h = rw (low_bit v b, h)
header_type_read v type2 b h = rw (low_bit v b, h)

context_flag_read :
    (v : ℕ) (c : ContextFlag) → v < 256 → v % 2 ≡ context_flag_code c → context_flag_from v ≡ c
unfolding context_flag_from
context_flag_read v unset b h = rw (low_bit v b, h)
context_flag_read v set_flag b h = rw (low_bit v b, h)

propagation_type_read :
    (v : ℕ) (p : PropagationType)
    → v < 256
    → v % 2 ≡ propagation_type_code p
    → propagation_type_from v ≡ p
unfolding propagation_type_from
propagation_type_read v broadcast b h = rw (low_bit v b, h)
propagation_type_read v transport b h = rw (low_bit v b, h)

destination_type_read :
    (v : ℕ) (d : DestinationType)
    → v < 256
    → v % 4 ≡ destination_type_code d
    → destination_type_from v ≡ d
unfolding destination_type_from
destination_type_read v single b h = rw (low_two_bits v b, h)
destination_type_read v group b h = rw (low_two_bits v b, h)
destination_type_read v plain b h = rw (low_two_bits v b, h)
destination_type_read v link b h = rw (low_two_bits v b, h)

packet_type_read :
    (v : ℕ) (t : PacketType) → v < 256 → v % 4 ≡ packet_type_code t → packet_type_from v ≡ t
unfolding packet_type_from
packet_type_read v payload b h = rw (low_two_bits v b, h)
packet_type_read v announce b h = rw (low_two_bits v b, h)
packet_type_read v link_request b h = rw (low_two_bits v b, h)
packet_type_read v proof b h = rw (low_two_bits v b, h)

record CodesInRange (h : Header) : Type 0 where
  ifac_in : ifac_flag_code h.ifac_flag < 2
  type_in : header_type_code h.header_type < 2
  context_in : context_flag_code h.context_flag < 2
  propagation_in : propagation_type_code h.propagation_type < 2
  destination_in : destination_type_code h.destination_type < 4
  packet_in : packet_type_code h.packet_type < 4

codes_in_range : (h : Header) → CodesInRange h
codes_in_range h = record {
  ifac_in = ground arith;
  type_in = ground arith;
  context_in = ground arith;
  propagation_in = ground arith;
  destination_in = ground arith;
  packet_in = ground arith;
}

to_meta-IsByte-flags :
    (i : IfacFlag) (h : HeaderType) (c : ContextFlag) (p : PropagationType) (d : DestinationType)
    (t : PacketType)
    → IsByte (to_meta (flags i h c p d t))
unfolding to_meta
to_meta-IsByte-flags i h c p d t = ground arith

to_meta-meta_sum : (h : Header) → to_meta h ≡ meta_sum h
unfolding to_meta meta_sum
to_meta-meta_sum h =
    to_meta_sum h.ifac_flag h.header_type h.context_flag h.propagation_type h.destination_type
      h.packet_type

-- from_meta undoes to_meta on every combination of flags; only the hop count, which the byte
-- does not hold, becomes 0.
pub from_meta-to_meta : (h : Header) → from_meta (to_meta h) ≡ record h { hops = 0 }
unfolding from_meta
from_meta-to_meta h =
    let r = codes_in_range h in
    let e : to_meta h ≡ meta_sum h = to_meta-meta_sum h in
    λ i. record {
      ifac_flag =
          ifac_flag_read (to_meta h / 2 ^ 7) h.ifac_flag (unfold meta_sum in omega (arith, e, r)) i;
      header_type =
          header_type_read (to_meta h / 2 ^ 6) h.header_type
            (unfold meta_sum in omega (arith, e, r)) (unfold meta_sum in omega (arith, e, r)) i;
      context_flag =
          context_flag_read (to_meta h / 2 ^ 5) h.context_flag
            (unfold meta_sum in omega (arith, e, r)) (unfold meta_sum in omega (arith, e, r)) i;
      propagation_type =
          propagation_type_read (to_meta h / 2 ^ 4) h.propagation_type
            (unfold meta_sum in omega (arith, e, r)) (unfold meta_sum in omega (arith, e, r)) i;
      destination_type =
          destination_type_read (to_meta h / 2 ^ 2) h.destination_type
            (unfold meta_sum in omega (arith, e, r)) (unfold meta_sum in omega (arith, e, r)) i;
      packet_type =
          packet_type_read (to_meta h) h.packet_type (unfold meta_sum in omega (arith, e, r))
            (unfold meta_sum in omega (arith, e, r)) i;
      hops = 0;
    }

pub to_meta-IsByte : (h : Header) → IsByte (to_meta h)
unfolding to_meta
to_meta-IsByte h =
    to_meta-IsByte-flags h.ifac_flag h.header_type h.context_flag h.propagation_type
      h.destination_type h.packet_type

meta_table : each_below 256 (λ m. to_meta (from_meta m) == m) ≡ true
unfolding each_below to_meta from_meta
meta_table = refl

-- Every byte is the metadata of the header that it is decoded to.
pub to_meta-from_meta : (m : ℕ) → IsByte m → to_meta (from_meta m) ≡ m
to_meta-from_meta m h = (==_iff _ m).0 (each_below-holds 256 _ m meta_table h)

low_nibble_table : each_below 256 (λ v. bit_and v 15 == v % 16) ≡ true
unfolding each_below
low_nibble_table = refl

-- The low half of the metadata byte holds the destination and packet types, and nothing else.
pub low_nibble-to_meta :
    (h : Header)
    → bit_and (to_meta h) 15
      ≡ destination_type_code h.destination_type * 4 + packet_type_code h.packet_type
low_nibble-to_meta h =
    let low : bit_and (to_meta h) 15 ≡ to_meta h % 16 = (==_iff _ _).0 (
      each_below-holds 256 (λ v. bit_and v 15 == v % 16) (to_meta h) low_nibble_table
        (to_meta-IsByte h)) in
    low ∙ unfold meta_sum in omega (arith, to_meta-meta_sum h, codes_in_range h)
