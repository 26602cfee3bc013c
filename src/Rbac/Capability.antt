-- ===== src/Rbac/Capability.antt =====
-- crates/libs/styrene-rbac/src/capability.rs, the names of the capabilities as their bytes.
pub mod Tiers
use styrene_rs.Base.{ℕ, List, [], ◌∷◌}

-- `chat.send`
abbrev pub chat_send : List ℕ
chat_send = 99 ∷ 104 ∷ 97 ∷ 116 ∷ 46 ∷ 115 ∷ 101 ∷ 110 ∷ 100 ∷ []

-- `chat.receive`
abbrev pub chat_receive : List ℕ
chat_receive = 99 ∷ 104 ∷ 97 ∷ 116 ∷ 46 ∷ 114 ∷ 101 ∷ 99 ∷ 101 ∷ 105 ∷ 118 ∷ 101 ∷ []

-- `page.browse`
abbrev pub page_browse : List ℕ
page_browse = 112 ∷ 97 ∷ 103 ∷ 101 ∷ 46 ∷ 98 ∷ 114 ∷ 111 ∷ 119 ∷ 115 ∷ 101 ∷ []

-- `rpc.ping`
abbrev pub rpc_ping : List ℕ
rpc_ping = 114 ∷ 112 ∷ 99 ∷ 46 ∷ 112 ∷ 105 ∷ 110 ∷ 103 ∷ []

-- `rpc.status`
abbrev pub rpc_status : List ℕ
rpc_status = 114 ∷ 112 ∷ 99 ∷ 46 ∷ 115 ∷ 116 ∷ 97 ∷ 116 ∷ 117 ∷ 115 ∷ []

-- `datalink.ping`
abbrev pub datalink_ping : List ℕ
datalink_ping = 100 ∷ 97 ∷ 116 ∷ 97 ∷ 108 ∷ 105 ∷ 110 ∷ 107 ∷ 46 ∷ 112 ∷ 105 ∷ 110 ∷ 103 ∷ []

-- `datalink.meta`
abbrev pub datalink_meta : List ℕ
datalink_meta = 100 ∷ 97 ∷ 116 ∷ 97 ∷ 108 ∷ 105 ∷ 110 ∷ 107 ∷ 46 ∷ 109 ∷ 101 ∷ 116 ∷ 97 ∷ []

-- `datalink.info`
abbrev pub datalink_info : List ℕ
datalink_info = 100 ∷ 97 ∷ 116 ∷ 97 ∷ 108 ∷ 105 ∷ 110 ∷ 107 ∷ 46 ∷ 105 ∷ 110 ∷ 102 ∷ 111 ∷ []

-- `datalink.status`
abbrev pub datalink_status : List ℕ
datalink_status =
    100 ∷ 97 ∷ 116 ∷ 97 ∷ 108 ∷ 105 ∷ 110 ∷ 107 ∷ 46 ∷ 115 ∷ 116 ∷ 97 ∷ 116 ∷ 117 ∷ 115 ∷ []

-- `relay.request`
abbrev pub relay_request : List ℕ
relay_request = 114 ∷ 101 ∷ 108 ∷ 97 ∷ 121 ∷ 46 ∷ 114 ∷ 101 ∷ 113 ∷ 117 ∷ 101 ∷ 115 ∷ 116 ∷ []

-- `relay.list`
abbrev pub relay_list : List ℕ
relay_list = 114 ∷ 101 ∷ 108 ∷ 97 ∷ 121 ∷ 46 ∷ 108 ∷ 105 ∷ 115 ∷ 116 ∷ []

-- `relay.teardown`
abbrev pub relay_teardown : List ℕ
relay_teardown = 114 ∷ 101 ∷ 108 ∷ 97 ∷ 121 ∷ 46 ∷ 116 ∷ 101 ∷ 97 ∷ 114 ∷ 100 ∷ 111 ∷ 119 ∷ 110 ∷ []

-- `relay.accept`
abbrev pub relay_accept : List ℕ
relay_accept = 114 ∷ 101 ∷ 108 ∷ 97 ∷ 121 ∷ 46 ∷ 97 ∷ 99 ∷ 99 ∷ 101 ∷ 112 ∷ 116 ∷ []

-- `rpc.inbox_read`
abbrev pub rpc_inbox_read : List ℕ
rpc_inbox_read = 114 ∷ 112 ∷ 99 ∷ 46 ∷ 105 ∷ 110 ∷ 98 ∷ 111 ∷ 120 ∷ 95 ∷ 114 ∷ 101 ∷ 97 ∷ 100 ∷ []

-- `web.read`
abbrev pub web_read : List ℕ
web_read = 119 ∷ 101 ∷ 98 ∷ 46 ∷ 114 ∷ 101 ∷ 97 ∷ 100 ∷ []

-- `datalink.establish`
abbrev pub datalink_establish : List ℕ
datalink_establish =
    100 ∷ 97 ∷ 116 ∷ 97 ∷ 108 ∷ 105 ∷ 110 ∷ 107 ∷ 46 ∷ 101 ∷ 115 ∷ 116 ∷ 97 ∷ 98 ∷ 108 ∷ 105 ∷ 115
    ∷ 104 ∷ []

-- `datalink.speedtest`
abbrev pub datalink_speedtest : List ℕ
datalink_speedtest =
    100 ∷ 97 ∷ 116 ∷ 97 ∷ 108 ∷ 105 ∷ 110 ∷ 107 ∷ 46 ∷ 115 ∷ 112 ∷ 101 ∷ 101 ∷ 100 ∷ 116 ∷ 101 ∷ 115
    ∷ 116 ∷ []

-- `rpc.config_update`
abbrev pub rpc_config_update : List ℕ
rpc_config_update =
    114 ∷ 112 ∷ 99 ∷ 46 ∷ 99 ∷ 111 ∷ 110 ∷ 102 ∷ 105 ∷ 103 ∷ 95 ∷ 117 ∷ 112 ∷ 100 ∷ 97 ∷ 116 ∷ 101
    ∷ []

-- `terminal.restricted`
abbrev pub terminal_restricted : List ℕ
terminal_restricted =
    116 ∷ 101 ∷ 114 ∷ 109 ∷ 105 ∷ 110 ∷ 97 ∷ 108 ∷ 46 ∷ 114 ∷ 101 ∷ 115 ∷ 116 ∷ 114 ∷ 105 ∷ 99 ∷ 116
    ∷ 101 ∷ 100 ∷ []

-- `web.write`
abbrev pub web_write : List ℕ
web_write = 119 ∷ 101 ∷ 98 ∷ 46 ∷ 119 ∷ 114 ∷ 105 ∷ 116 ∷ 101 ∷ []

-- `relay.request_permanent`
abbrev pub relay_request_permanent : List ℕ
relay_request_permanent =
    114 ∷ 101 ∷ 108 ∷ 97 ∷ 121 ∷ 46 ∷ 114 ∷ 101 ∷ 113 ∷ 117 ∷ 101 ∷ 115 ∷ 116 ∷ 95 ∷ 112 ∷ 101 ∷ 114
    ∷ 109 ∷ 97 ∷ 110 ∷ 101 ∷ 110 ∷ 116 ∷ []

-- `relay.accept_permanent`
abbrev pub relay_accept_permanent : List ℕ
relay_accept_permanent =
    114 ∷ 101 ∷ 108 ∷ 97 ∷ 121 ∷ 46 ∷ 97 ∷ 99 ∷ 99 ∷ 101 ∷ 112 ∷ 116 ∷ 95 ∷ 112 ∷ 101 ∷ 114 ∷ 109
    ∷ 97 ∷ 110 ∷ 101 ∷ 110 ∷ 116 ∷ []

-- `relay.prioritize`
abbrev pub relay_prioritize : List ℕ
relay_prioritize =
    114 ∷ 101 ∷ 108 ∷ 97 ∷ 121 ∷ 46 ∷ 112 ∷ 114 ∷ 105 ∷ 111 ∷ 114 ∷ 105 ∷ 116 ∷ 105 ∷ 122 ∷ 101 ∷ []

-- `relay.bridge`
abbrev pub relay_bridge : List ℕ
relay_bridge = 114 ∷ 101 ∷ 108 ∷ 97 ∷ 121 ∷ 46 ∷ 98 ∷ 114 ∷ 105 ∷ 100 ∷ 103 ∷ 101 ∷ []

-- `rpc.exec`
abbrev pub rpc_exec : List ℕ
rpc_exec = 114 ∷ 112 ∷ 99 ∷ 46 ∷ 101 ∷ 120 ∷ 101 ∷ 99 ∷ []

-- `rpc.reboot`
abbrev pub rpc_reboot : List ℕ
rpc_reboot = 114 ∷ 112 ∷ 99 ∷ 46 ∷ 114 ∷ 101 ∷ 98 ∷ 111 ∷ 111 ∷ 116 ∷ []

-- `rpc.self_update`
abbrev pub rpc_self_update : List ℕ
rpc_self_update =
    114 ∷ 112 ∷ 99 ∷ 46 ∷ 115 ∷ 101 ∷ 108 ∷ 102 ∷ 95 ∷ 117 ∷ 112 ∷ 100 ∷ 97 ∷ 116 ∷ 101 ∷ []

-- `terminal.full`
abbrev pub terminal_full : List ℕ
terminal_full = 116 ∷ 101 ∷ 114 ∷ 109 ∷ 105 ∷ 110 ∷ 97 ∷ 108 ∷ 46 ∷ 102 ∷ 117 ∷ 108 ∷ 108 ∷ []

-- `adapter.provision`
abbrev pub adapter_provision : List ℕ
adapter_provision =
    97 ∷ 100 ∷ 97 ∷ 112 ∷ 116 ∷ 101 ∷ 114 ∷ 46 ∷ 112 ∷ 114 ∷ 111 ∷ 118 ∷ 105 ∷ 115 ∷ 105 ∷ 111 ∷ 110
    ∷ []

-- `relay.admin`
abbrev pub relay_admin : List ℕ
relay_admin = 114 ∷ 101 ∷ 108 ∷ 97 ∷ 121 ∷ 46 ∷ 97 ∷ 100 ∷ 109 ∷ 105 ∷ 110 ∷ []

-- `tunnel.status`
abbrev pub tunnel_status : List ℕ
tunnel_status = 116 ∷ 117 ∷ 110 ∷ 110 ∷ 101 ∷ 108 ∷ 46 ∷ 115 ∷ 116 ∷ 97 ∷ 116 ∷ 117 ∷ 115 ∷ []

-- `tunnel.establish`
abbrev pub tunnel_establish : List ℕ
tunnel_establish =
    116 ∷ 117 ∷ 110 ∷ 110 ∷ 101 ∷ 108 ∷ 46 ∷ 101 ∷ 115 ∷ 116 ∷ 97 ∷ 98 ∷ 108 ∷ 105 ∷ 115 ∷ 104 ∷ []

-- `tunnel.teardown`
abbrev pub tunnel_teardown : List ℕ
tunnel_teardown =
    116 ∷ 117 ∷ 110 ∷ 110 ∷ 101 ∷ 108 ∷ 46 ∷ 116 ∷ 101 ∷ 97 ∷ 114 ∷ 100 ∷ 111 ∷ 119 ∷ 110 ∷ []

-- `vpn.handshake`
abbrev pub vpn_handshake : List ℕ
vpn_handshake = 118 ∷ 112 ∷ 110 ∷ 46 ∷ 104 ∷ 97 ∷ 110 ∷ 100 ∷ 115 ∷ 104 ∷ 97 ∷ 107 ∷ 101 ∷ []

-- `relay.reject`
abbrev pub relay_reject : List ℕ
relay_reject = 114 ∷ 101 ∷ 108 ∷ 97 ∷ 121 ∷ 46 ∷ 114 ∷ 101 ∷ 106 ∷ 101 ∷ 99 ∷ 116 ∷ []

-- `i2p.proxy`
abbrev pub i2p_proxy : List ℕ
i2p_proxy = 105 ∷ 50 ∷ 112 ∷ 46 ∷ 112 ∷ 114 ∷ 111 ∷ 120 ∷ 121 ∷ []

-- `aether.delegate`
abbrev pub aether_delegate : List ℕ
aether_delegate =
    97 ∷ 101 ∷ 116 ∷ 104 ∷ 101 ∷ 114 ∷ 46 ∷ 100 ∷ 101 ∷ 108 ∷ 101 ∷ 103 ∷ 97 ∷ 116 ∷ 101 ∷ []

-- `aether.query`
abbrev pub aether_query : List ℕ
aether_query = 97 ∷ 101 ∷ 116 ∷ 104 ∷ 101 ∷ 114 ∷ 46 ∷ 113 ∷ 117 ∷ 101 ∷ 114 ∷ 121 ∷ []

-- `aether.report`
abbrev pub aether_report : List ℕ
aether_report = 97 ∷ 101 ∷ 116 ∷ 104 ∷ 101 ∷ 114 ∷ 46 ∷ 114 ∷ 101 ∷ 112 ∷ 111 ∷ 114 ∷ 116 ∷ []
