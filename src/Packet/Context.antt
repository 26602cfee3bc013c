-- ===== src/Packet/Context.antt =====
-- The context byte of a packet.
use styrene_rs.Base.{ℕ, ◌≡◌, refl, Bool, true, not, ◌||◌, arith, leb, ◌==◌, if◌then◌else◌}
use styrene_rs.Base.Bytes.{IsByte, each_below, each_below-holds}

pub data PacketContext : Type 0 where
  none_context : PacketContext
  resource : PacketContext
  resource_advrtisement : PacketContext
  resource_request : PacketContext
  resource_hash_update : PacketContext
  resource_proof : PacketContext
  resource_initiator_cancel : PacketContext
  resource_receiver_cancel : PacketContext
  cache_request : PacketContext
  request : PacketContext
  response : PacketContext
  path_response : PacketContext
  command : PacketContext
  command_status : PacketContext
  channel : PacketContext
  keep_alive : PacketContext
  link_identify : PacketContext
  link_close : PacketContext
  link_proof : PacketContext
  link_rtt : PacketContext
  link_request_proof : PacketContext

abbrev pub context_code : PacketContext → ℕ
context_code none_context = 0x00
context_code resource = 0x01
context_code resource_advrtisement = 0x02
context_code resource_request = 0x03
context_code resource_hash_update = 0x04
context_code resource_proof = 0x05
context_code resource_initiator_cancel = 0x06
context_code resource_receiver_cancel = 0x07
context_code cache_request = 0x08
context_code request = 0x09
context_code response = 0x0a
context_code path_response = 0x0b
context_code command = 0x0c
context_code command_status = 0x0d
context_code channel = 0x0e
context_code keep_alive = 0xfa
context_code link_identify = 0xfb
context_code link_close = 0xfc
context_code link_proof = 0xfd
context_code link_rtt = 0xfe
context_code link_request_proof = 0xff

-- A byte that names no context becomes the generic one.
unfoldable pub context_from : ℕ → PacketContext
context_from value =
    if value == 0x01
    then resource
    else if value == 0x02
    then resource_advrtisement
    else if value == 0x03
    then resource_request
    else if value == 0x04
    then resource_hash_update
    else if value == 0x05
    then resource_proof
    else if value == 0x06
    then resource_initiator_cancel
    else if value == 0x07
    then resource_receiver_cancel
    else if value == 0x08
    then cache_request
    else if value == 0x09
    then request
    else if value == 0x0a
    then response
    else if value == 0x0b
    then path_response
    else if value == 0x0c
    then command
    else if value == 0x0d
    then command_status
    else if value == 0x0e
    then channel
    else if value == 0xfa
    then keep_alive
    else if value == 0xfb
    then link_identify
    else if value == 0xfc
    then link_close
    else if value == 0xfd
    then link_proof
    else if value == 0xfe
    then link_rtt
    else if value == 0xff
    then link_request_proof
    else none_context

pub context_from-context_code : (c : PacketContext) → context_from (context_code c) ≡ c
unfolding context_from
context_from-context_code none_context = refl
context_from-context_code _ = refl

pub context_code-IsByte : (c : PacketContext) → IsByte (context_code c)
context_code-IsByte none_context = omega arith
context_code-IsByte _ = omega arith

-- The bytes that name a context.
abbrev pub names_context : ℕ → Bool
names_context b = leb b 0x0e || leb 0xfa b

context_table :
    each_below 256 (λ b. not (names_context b) || context_code (context_from b) == b) ≡ true
unfolding each_below context_from
context_table = refl

pub context_code-context_from :
    (b : ℕ) → IsByte b → names_context b ≡ true → context_code (context_from b) ≡ b
context_code-context_from b h named = ground (
  arith,
  each_below-holds 256 (λ b. not (names_context b) || context_code (context_from b) == b) b
      context_table h,
)
