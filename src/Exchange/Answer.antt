-- ===== src/Exchange/Answer.antt =====
-- src/services/dhcp_client.rs against src/services/dhcp_server.rs: the acknowledgement that goes out for
-- a request, as the client that sent it reads it.
use rustyrouter.Client.Messages.{request_message}
use rustyrouter.Client.Parse.{parse_ack_nak, ParseAckResult}
use rustyrouter.Dhcp.{Dhcproto, DhcprotoLaws, MessageType}
use rustyrouter.Exchange.{parse_ack_nak-ack}
use rustyrouter.Packet.{Pnet, RawPacket, build_raw_packet, write_headers}
use rustyrouter.Prelude.{
  ℕ, [], ◌∷◌, List, Option, none, some, ◌≡◌, refl, length, ◌==◌, arith, Bool, true, false, ◌∙◌, ◌≤◌,
  if◌then◌else◌, ◌^◌, ◌-◌,
}
use rustyrouter.Server.Replies.{
  ServerConfig, send_reply, build_dhcp_reply_payload, frame_for, get_dest_mac_ip,
}

-- The frame goes to the client, and it reads its lease in it.
abbrev pub Acknowledges : (p : Pnet) (d : Dhcproto) → ServerConfig → ℕ → ℕ → ℕ → RawPacket → Type 0
Acknowledges p d config client ip xid reply =
    (reply.udp_destination ≡ d.client_port)
    × (reply.ip_source ≡ config.server_ip)
    × (reply.eth_destination
        ≡ (if d.flags_broadcast d.broadcast_flags then p.mac_broadcast else client))
    × (reply.ip_destination ≡ (if d.flags_broadcast d.broadcast_flags then 2 ^ 32 - 1 else ip))
    × (parse_ack_nak d reply.udp_payload xid
        ≡ ParseAckResult.ack (record {
          ip = ip;
          mask = config.subnet_mask;
          gateway = some config.server_ip;
          server_ip = some config.server_ip;
          lease_secs = 3600;
          dns_servers = config.server_ip ∷ [];
        }))

module _ (p : Pnet) (d : Dhcproto) (laws : DhcprotoLaws d) where
  pub chaddr-request_message :
      (mac : List ℕ) (xid ip : ℕ) (server_ip : Option ℕ)
      → length mac ≤ 16
      → ((d.fields (request_message d mac xid ip server_ip 0)).chaddr ≡ mac)
        × ((d.fields (request_message d mac xid ip server_ip 0)).hlen ≡ length mac)
  unfolding request_message
  chaddr-request_message mac xid ip none h =
      let addressed = λ (m : d.Message). laws.set_chaddr_lem m mac h in
      (
        simp (laws.insert_opt_lem, laws.set_flags_lem, addressed),
        simp (laws.insert_opt_lem, laws.set_flags_lem, addressed),
      )
  chaddr-request_message mac xid ip (some srv) h =
      let addressed = λ (m : d.Message). laws.set_chaddr_lem m mac h in
      (
        simp (laws.insert_opt_lem, laws.set_flags_lem, addressed),
        simp (laws.insert_opt_lem, laws.set_flags_lem, addressed),
      )

  answered-request_message :
      (mac : List ℕ) (xid ip : ℕ) (server_ip : Option ℕ)
      → length mac ≤ 16
      → ((d.fields (request_message d mac xid ip server_ip 0)).xid ≡ xid)
        × ((d.fields (request_message d mac xid ip server_ip 0)).flags ≡ d.broadcast_flags)
  unfolding request_message
  answered-request_message mac xid ip none h =
      let addressed = λ (m : d.Message). laws.set_chaddr_lem m mac h in
      (
        simp (
          laws.insert_opt_lem, laws.set_flags_lem, addressed, laws.set_ciaddr_lem, laws.set_xid_lem,
        ),
        simp (laws.insert_opt_lem, laws.set_flags_lem),
      )
  answered-request_message mac xid ip (some srv) h =
      let addressed = λ (m : d.Message). laws.set_chaddr_lem m mac h in
      (
        simp (
          laws.insert_opt_lem, laws.set_flags_lem, addressed, laws.set_ciaddr_lem, laws.set_xid_lem,
        ),
        simp (laws.insert_opt_lem, laws.set_flags_lem),
      )

  get_dest_mac_ip_lem :
      (broadcast : Bool) (client ip : ℕ)
      → ((get_dest_mac_ip p broadcast client ip).0
          ≡ (if broadcast then p.mac_broadcast else client))
        × ((get_dest_mac_ip p broadcast client ip).1 ≡ (if broadcast then 2 ^ 32 - 1 else ip))
  unfolding get_dest_mac_ip
  get_dest_mac_ip_lem true client ip = (refl, refl)
  get_dest_mac_ip_lem false client ip = (refl, refl)

  -- The frame that carries the acknowledgement of the client's request.
  pub send_reply-request_message :
      (config : ServerConfig) (ip xid client : ℕ) (mac bytes : List ℕ) (server_ip : Option ℕ)
      → length mac ≡ 6
      → let request = request_message d mac xid ip server_ip 0 in
        build_dhcp_reply_payload d MessageType.ack request ip config ≡ some bytes
        → (reply : RawPacket) × (send_reply p d MessageType.ack request client ip config
            ≡ reply ∷ [])
          × Acknowledges p d config client ip xid reply
  unfolding send_reply frame_for build_raw_packet write_headers
  send_reply-request_message config ip xid client mac bytes server_ip six encoded =
      let request = request_message d mac xid ip server_ip 0 in
      let short : length mac ≤ 16 = omega arith in
      let (chaddr, _) = chaddr-request_message mac xid ip server_ip short in
      let (own, flags) = answered-request_message mac xid ip server_ip short in
      let few : length (d.fields request).chaddr ≤ 16 = rw chaddr short in
      let read = parse_ack_nak-ack d laws request ip xid config bytes few encoded in
      let same : ((d.fields request).xid == xid) ≡ true = ground (arith, own) in
      let broadcast = d.flags_broadcast d.broadcast_flags in
      let (dest_mac, dest_ip) = get_dest_mac_ip p broadcast client ip in
      let (mac_lem, ip_lem) = get_dest_mac_ip_lem broadcast client ip in
      (
        build_raw_packet p config.server_mac dest_mac config.server_ip dest_ip d.server_port
            d.client_port bytes,
        rw (encoded, frame_for, flags) refl,
        (refl, refl, mac_lem, ip_lem, read ∙ rw same refl),
      )
