-- ===== src/Server/Replies.antt =====
-- src/services/dhcp_server.rs: `ServerConfig` and the replies DHCPOFFER, DHCPACK and DHCPNAK.
use rustyrouter.Prelude.{ℕ, ◌^◌, ◌-◌, Bool, Option, none, some, List, [], ◌∷◌, if◌then◌else◌}
use rustyrouter.Dhcp.{Dhcproto, MessageType, Opcode, DhcpOption}
use rustyrouter.Packet.{Pnet, RawPacket, build_raw_packet}
use rustyrouter.Server.LeaseTable.{Ipv4Net}

abbrev pub lan_lease_secs : ℕ
lan_lease_secs = 3600

-- `Ipv4Addr::BROADCAST`
abbrev pub ip_broadcast : ℕ
ip_broadcast = 2 ^ 32 - 1

pub record ServerConfig : Type 0 where
  pub server_ip : ℕ
  pub subnet_mask : ℕ
  pub server_mac : ℕ
  pub net : Ipv4Net

module _ (p : Pnet) where
  unfoldable pub get_dest_mac_ip : Bool → ℕ → ℕ → ℕ × ℕ
  get_dest_mac_ip broadcast client_mac leased_ip =
      if broadcast then (p.mac_broadcast, ip_broadcast) else (client_mac, leased_ip)

module _ (d : Dhcproto) where
  -- The reply before it is encoded.
  unfoldable pub reply_message : MessageType → d.Message → ℕ → ServerConfig → d.Message
  reply_message msg_type dhcp leased_ip config =
      let f = d.fields dhcp in
      let header =
        d.set_chaddr
          (d.set_siaddr
            (d.set_yiaddr
              (d.set_flags (d.set_xid (d.set_opcode d.default Opcode.boot_reply) f.xid) f.flags)
              leased_ip)
            config.server_ip)
          f.chaddr in
      let typed = d.insert_opt header (DhcpOption.message_type msg_type) in
      let named = d.insert_opt typed (DhcpOption.server_identifier config.server_ip) in
      let masked = d.insert_opt named (DhcpOption.subnet_mask config.subnet_mask) in
      let routed = d.insert_opt masked (DhcpOption.router (config.server_ip ∷ [])) in
      let resolved = d.insert_opt routed (DhcpOption.domain_name_server (config.server_ip ∷ [])) in
      d.insert_opt resolved (DhcpOption.address_lease_time lan_lease_secs)

  unfoldable pub build_dhcp_reply_payload :
      MessageType → d.Message → ℕ → ServerConfig → Option (List ℕ)
  unfolding reply_message
  build_dhcp_reply_payload msg_type dhcp leased_ip config =
      d.encode (reply_message msg_type dhcp leased_ip config)

  unfoldable pub nak_message : d.Message → ServerConfig → d.Message
  nak_message dhcp config =
      let f = d.fields dhcp in
      let header =
        d.set_chaddr (d.set_xid (d.set_opcode d.default Opcode.boot_reply) f.xid) f.chaddr in
      let typed = d.insert_opt header (DhcpOption.message_type MessageType.nak) in
      d.insert_opt typed (DhcpOption.server_identifier config.server_ip)

module _ (p : Pnet) (d : Dhcproto) where
  -- The frame in which a payload goes to the client, or nothing if the payload was not encoded.
  unfoldable pub frame_for : d.Message → ℕ → ℕ → ServerConfig → Option (List ℕ) → List RawPacket
  unfolding get_dest_mac_ip
  frame_for dhcp client_mac leased_ip config none = []
  frame_for dhcp client_mac leased_ip config (some payload) =
      let (dest_mac, dest_ip) =
        get_dest_mac_ip p (d.flags_broadcast (d.fields dhcp).flags) client_mac leased_ip in
      build_raw_packet p config.server_mac dest_mac config.server_ip dest_ip d.server_port
        d.client_port payload
      ∷ []

  -- An offer or an acknowledgement, as its handler sends it.
  unfoldable pub send_reply : MessageType → d.Message → ℕ → ℕ → ServerConfig → List RawPacket
  unfolding frame_for build_dhcp_reply_payload
  send_reply msg_type dhcp client_mac leased_ip config =
      frame_for dhcp client_mac leased_ip config
        (build_dhcp_reply_payload d msg_type dhcp leased_ip config)

  unfoldable pub send_dhcp_nak : d.Message → ℕ → ServerConfig → List RawPacket
  unfolding frame_for nak_message
  send_dhcp_nak dhcp client_mac config =
      frame_for dhcp client_mac ip_broadcast config (d.encode (nak_message d dhcp config))
