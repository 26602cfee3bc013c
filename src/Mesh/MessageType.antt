-- ===== src/Mesh/MessageType.antt =====
-- crates/libs/styrene-mesh/src/wire.rs: the message types of the Styrene envelope and their bytes.
-- The types of the post-quantum sessions exist when the crate is built with its feature `pqc`.
pub mod Bytes
use styrene_rs.Base.{ℕ, Bool, ◌&&◌, ◌==◌, if◌then◌else◌, Result, ok, err}
use styrene_rs.Mesh.WireError.{WireError, unknown_message_type}

pub data StyreneMessageType : Type 0 where
  ping pong heartbeat status_request : StyreneMessageType
  status_response capabilities_request capabilities_response chat : StyreneMessageType
  chat_ack file_offer file_accept file_chunk : StyreneMessageType
  announce announce_ack peer_request peer_response : StyreneMessageType
  vpn_handshake_request vpn_handshake_response exec reboot : StyreneMessageType
  config_update self_update inbox_query messages_query : StyreneMessageType
  propagation_ingest propagation_fetch propagation_delete page_request : StyreneMessageType
  exec_result reboot_result config_update_result self_update_result : StyreneMessageType
  inbox_response messages_response propagation_ingest_result propagation_fetch_result :
      StyreneMessageType
  propagation_delete_result page_response i2p_proxy_request i2p_proxy_response : StyreneMessageType
  i2p_proxy_data i2p_proxy_error i2p_proxy_close terminal_request : StyreneMessageType
  terminal_accept terminal_data terminal_resize terminal_close : StyreneMessageType
  pqc_initiate pqc_respond pqc_confirm pqc_rekey : StyreneMessageType
  pqc_data pqc_close pqc_capability pqc_capability_ack : StyreneMessageType
  tunnel_offer tunnel_accept tunnel_reject tunnel_teardown : StyreneMessageType
  tunnel_rekey tunnel_keepalive tunnel_topology resource_available : StyreneMessageType
  chunk_request chunk_response error : StyreneMessageType

abbrev pub as_u8 : StyreneMessageType → ℕ
as_u8 ping = 0x01
as_u8 pong = 0x02
as_u8 heartbeat = 0x03
as_u8 status_request = 0x10
as_u8 status_response = 0x11
as_u8 capabilities_request = 0x12
as_u8 capabilities_response = 0x13
as_u8 chat = 0x20
as_u8 chat_ack = 0x21
as_u8 file_offer = 0x22
as_u8 file_accept = 0x23
as_u8 file_chunk = 0x24
as_u8 announce = 0x30
as_u8 announce_ack = 0x31
as_u8 peer_request = 0x32
as_u8 peer_response = 0x33
as_u8 vpn_handshake_request = 0x34
as_u8 vpn_handshake_response = 0x35
as_u8 exec = 0x40
as_u8 reboot = 0x41
as_u8 config_update = 0x42
as_u8 self_update = 0x43
as_u8 inbox_query = 0x44
as_u8 messages_query = 0x45
as_u8 propagation_ingest = 0x46
as_u8 propagation_fetch = 0x47
as_u8 propagation_delete = 0x48
as_u8 page_request = 0x49
as_u8 exec_result = 0x60
as_u8 reboot_result = 0x61
as_u8 config_update_result = 0x62
as_u8 self_update_result = 0x63
as_u8 inbox_response = 0x64
as_u8 messages_response = 0x65
as_u8 propagation_ingest_result = 0x66
as_u8 propagation_fetch_result = 0x67
as_u8 propagation_delete_result = 0x68
as_u8 page_response = 0x69
as_u8 i2p_proxy_request = 0x84
as_u8 i2p_proxy_response = 0x85
as_u8 i2p_proxy_data = 0x86
as_u8 i2p_proxy_error = 0x87
as_u8 i2p_proxy_close = 0x88
as_u8 terminal_request = 0xc0
as_u8 terminal_accept = 0xc1
as_u8 terminal_data = 0xc2
as_u8 terminal_resize = 0xc3
as_u8 terminal_close = 0xc4
as_u8 pqc_initiate = 0xd0
as_u8 pqc_respond = 0xd1
as_u8 pqc_confirm = 0xd2
as_u8 pqc_rekey = 0xd3
as_u8 pqc_data = 0xd4
as_u8 pqc_close = 0xd5
as_u8 pqc_capability = 0xd6
as_u8 pqc_capability_ack = 0xd7
as_u8 tunnel_offer = 0xd8
as_u8 tunnel_accept = 0xd9
as_u8 tunnel_reject = 0xda
as_u8 tunnel_teardown = 0xdb
as_u8 tunnel_rekey = 0xdc
as_u8 tunnel_keepalive = 0xdd
as_u8 tunnel_topology = 0xde
as_u8 resource_available = 0xe0
as_u8 chunk_request = 0xe1
as_u8 chunk_response = 0xe2
as_u8 error = 0xff

unfoldable pub from_byte : Bool → ℕ → Result WireError StyreneMessageType
from_byte pqc b =
    if b == 0x01
    then ok ping
    else if b == 0x02
    then ok pong
    else if b == 0x03
    then ok heartbeat
    else if b == 0x10
    then ok status_request
    else if b == 0x11
    then ok status_response
    else if b == 0x12
    then ok capabilities_request
    else if b == 0x13
    then ok capabilities_response
    else if b == 0x20
    then ok chat
    else if b == 0x21
    then ok chat_ack
    else if b == 0x22
    then ok file_offer
    else if b == 0x23
    then ok file_accept
    else if b == 0x24
    then ok file_chunk
    else if b == 0x30
    then ok announce
    else if b == 0x31
    then ok announce_ack
    else if b == 0x32
    then ok peer_request
    else if b == 0x33
    then ok peer_response
    else if b == 0x34
    then ok vpn_handshake_request
    else if b == 0x35
    then ok vpn_handshake_response
    else if b == 0x40
    then ok exec
    else if b == 0x41
    then ok reboot
    else if b == 0x42
    then ok config_update
    else if b == 0x43
    then ok self_update
    else if b == 0x44
    then ok inbox_query
    else if b == 0x45
    then ok messages_query
    else if b == 0x46
    then ok propagation_ingest
    else if b == 0x47
    then ok propagation_fetch
    else if b == 0x48
    then ok propagation_delete
    else if b == 0x49
    then ok page_request
    else if b == 0x60
    then ok exec_result
    else if b == 0x61
    then ok reboot_result
    else if b == 0x62
    then ok config_update_result
    else if b == 0x63
    then ok self_update_result
    else if b == 0x64
    then ok inbox_response
    else if b == 0x65
    then ok messages_response
    else if b == 0x66
    then ok propagation_ingest_result
    else if b == 0x67
    then ok propagation_fetch_result
    else if b == 0x68
    then ok propagation_delete_result
    else if b == 0x69
    then ok page_response
    else if b == 0x84
    then ok i2p_proxy_request
    else if b == 0x85
    then ok i2p_proxy_response
    else if b == 0x86
    then ok i2p_proxy_data
    else if b == 0x87
    then ok i2p_proxy_error
    else if b == 0x88
    then ok i2p_proxy_close
    else if b == 0xc0
    then ok terminal_request
    else if b == 0xc1
    then ok terminal_accept
    else if b == 0xc2
    then ok terminal_data
    else if b == 0xc3
    then ok terminal_resize
    else if b == 0xc4
    then ok terminal_close
    else if b == 0xd0 && pqc
    then ok pqc_initiate
    else if b == 0xd1 && pqc
    then ok pqc_respond
    else if b == 0xd2 && pqc
    then ok pqc_confirm
    else if b == 0xd3 && pqc
    then ok pqc_rekey
    else if b == 0xd4 && pqc
    then ok pqc_data
    else if b == 0xd5 && pqc
    then ok pqc_close
    else if b == 0xd6 && pqc
    then ok pqc_capability
    else if b == 0xd7 && pqc
    then ok pqc_capability_ack
    else if b == 0xd8
    then ok tunnel_offer
    else if b == 0xd9
    then ok tunnel_accept
    else if b == 0xda
    then ok tunnel_reject
    else if b == 0xdb
    then ok tunnel_teardown
    else if b == 0xdc
    then ok tunnel_rekey
    else if b == 0xdd
    then ok tunnel_keepalive
    else if b == 0xde
    then ok tunnel_topology
    else if b == 0xe0
    then ok resource_available
    else if b == 0xe1
    then ok chunk_request
    else if b == 0xe2
    then ok chunk_response
    else if b == 0xff
    then ok error
    else err (unknown_message_type b)
