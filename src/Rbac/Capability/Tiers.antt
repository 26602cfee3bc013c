-- ===== src/Rbac/Capability/Tiers.antt =====
-- crates/libs/styrene-rbac/src/capability.rs, the capabilities of each role.
use styrene_rs.Base.{ℕ, Bool, List, [], ◌∷◌}
use styrene_rs.Base.Keys.{bytes_key}
use styrene_rs.Rbac.Role.{Role, blocked, none, peer, monitor, operator, admin}
use styrene_rs.Rbac.Text.{contains}
use styrene_rs.Rbac.Capability.{
  chat_send, chat_receive, page_browse, rpc_ping, rpc_status, datalink_ping, datalink_meta,
  datalink_info, datalink_status, relay_request, relay_list, relay_teardown, relay_accept,
  rpc_inbox_read, web_read, datalink_establish, datalink_speedtest, rpc_config_update,
  terminal_restricted, web_write, relay_request_permanent, relay_accept_permanent, relay_prioritize,
  relay_bridge, rpc_exec, rpc_reboot, rpc_self_update, terminal_full, adapter_provision,
  relay_admin, tunnel_status, tunnel_establish, tunnel_teardown, vpn_handshake, relay_reject,
  i2p_proxy, aether_delegate, aether_query, aether_report,
}

abbrev pub all_capabilities : List (List ℕ)
all_capabilities =
    chat_send ∷ chat_receive ∷ page_browse ∷ rpc_ping ∷ rpc_status ∷ datalink_ping ∷ datalink_meta
    ∷ datalink_info ∷ datalink_status ∷ relay_request ∷ relay_list ∷ relay_teardown ∷ relay_accept
    ∷ rpc_inbox_read ∷ web_read ∷ datalink_establish ∷ datalink_speedtest ∷ rpc_config_update
    ∷ terminal_restricted ∷ web_write ∷ relay_request_permanent ∷ relay_accept_permanent
    ∷ relay_prioritize ∷ relay_bridge ∷ rpc_exec ∷ rpc_reboot ∷ rpc_self_update ∷ terminal_full
    ∷ adapter_provision ∷ relay_admin ∷ tunnel_status ∷ tunnel_establish ∷ tunnel_teardown
    ∷ vpn_handshake ∷ relay_reject ∷ i2p_proxy ∷ aether_delegate ∷ aether_query ∷ aether_report ∷ []

abbrev pub peer_caps : List (List ℕ)
peer_caps =
    chat_send ∷ chat_receive ∷ page_browse ∷ rpc_ping ∷ rpc_status ∷ datalink_ping ∷ datalink_meta
    ∷ datalink_info ∷ datalink_status ∷ relay_request ∷ relay_list ∷ relay_teardown ∷ relay_accept
    ∷ tunnel_status ∷ aether_query ∷ aether_report ∷ []

abbrev pub monitor_caps : List (List ℕ)
monitor_caps =
    chat_send ∷ chat_receive ∷ page_browse ∷ rpc_ping ∷ rpc_status ∷ datalink_ping ∷ datalink_meta
    ∷ datalink_info ∷ datalink_status ∷ relay_request ∷ relay_list ∷ relay_teardown ∷ relay_accept
    ∷ tunnel_status ∷ aether_query ∷ aether_report ∷ rpc_inbox_read ∷ web_read ∷ datalink_establish
    ∷ datalink_speedtest ∷ []

abbrev pub operator_caps : List (List ℕ)
operator_caps =
    chat_send ∷ chat_receive ∷ page_browse ∷ rpc_ping ∷ rpc_status ∷ datalink_ping ∷ datalink_meta
    ∷ datalink_info ∷ datalink_status ∷ relay_request ∷ relay_list ∷ relay_teardown ∷ relay_accept
    ∷ tunnel_status ∷ aether_query ∷ aether_report ∷ rpc_inbox_read ∷ web_read ∷ datalink_establish
    ∷ datalink_speedtest ∷ rpc_config_update ∷ terminal_restricted ∷ web_write
    ∷ relay_request_permanent ∷ relay_accept_permanent ∷ relay_prioritize ∷ relay_bridge
    ∷ tunnel_establish ∷ tunnel_teardown ∷ aether_delegate ∷ []

abbrev pub admin_caps : List (List ℕ)
admin_caps =
    chat_send ∷ chat_receive ∷ page_browse ∷ rpc_ping ∷ rpc_status ∷ datalink_ping ∷ datalink_meta
    ∷ datalink_info ∷ datalink_status ∷ relay_request ∷ relay_list ∷ relay_teardown ∷ relay_accept
    ∷ tunnel_status ∷ aether_query ∷ aether_report ∷ rpc_inbox_read ∷ web_read ∷ datalink_establish
    ∷ datalink_speedtest ∷ rpc_config_update ∷ terminal_restricted ∷ web_write
    ∷ relay_request_permanent ∷ relay_accept_permanent ∷ relay_prioritize ∷ relay_bridge
    ∷ tunnel_establish ∷ tunnel_teardown ∷ aether_delegate ∷ rpc_exec ∷ rpc_reboot ∷ rpc_self_update
    ∷ terminal_full ∷ adapter_provision ∷ relay_admin ∷ []

abbrev pub capabilities_for_role : Role → List (List ℕ)
capabilities_for_role blocked = []
capabilities_for_role none = []
capabilities_for_role peer = peer_caps
capabilities_for_role monitor = monitor_caps
capabilities_for_role operator = operator_caps
capabilities_for_role admin = admin_caps

unfoldable pub is_valid_capability : List ℕ → Bool
is_valid_capability cap = contains all_capabilities cap
