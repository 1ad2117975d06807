-- ===== src/Exchange.antt =====
-- src/services/dhcp_server.rs against src/services/dhcp_client.rs: what the router's own client reads
-- in the replies of the router's own server.
pub mod Handshake
pub mod Answer
pub mod Wire
use rustyrouter.Client.Parse.{parse_offer, parse_ack_nak, ParseAckResult, ack_of}
use rustyrouter.Server.Replies.{
  ServerConfig, reply_message, build_dhcp_reply_payload, nak_message, lan_lease_secs,
}
use rustyrouter.Prelude.{ℕ, [], ◌∷◌, length, ◌≤◌, ◌≡◌, List, some, arith, if◌then◌else◌, ◌==◌}
use rustyrouter.Dhcp.{Dhcproto, DhcprotoLaws, MessageType, DhcpOption, Fields, Opcode, with_opt}

module _ (d : Dhcproto) (laws : DhcprotoLaws d) where
  -- What the getters return of a reply.
  reply_fields : MessageType → d.Message → ℕ → ServerConfig → Fields
  reply_fields msg_type dhcp leased_ip config = record (d.fields d.default) {
    opcode = Opcode.boot_reply;
    xid = (d.fields dhcp).xid;
    flags = (d.fields dhcp).flags;
    yiaddr = leased_ip;
    siaddr = config.server_ip;
    hlen = length (d.fields dhcp).chaddr;
    chaddr = (d.fields dhcp).chaddr;
    opt = with_opt (DhcpOption.address_lease_time 3600) (
        with_opt (DhcpOption.domain_name_server (config.server_ip ∷ [])) (
          with_opt (DhcpOption.router (config.server_ip ∷ [])) (
            with_opt (DhcpOption.subnet_mask config.subnet_mask) (
              with_opt (DhcpOption.server_identifier config.server_ip)
                (with_opt (DhcpOption.message_type msg_type) (d.fields d.default).opt)))));
  }

  fields-reply_message :
      (msg_type : MessageType) (dhcp : d.Message) (leased_ip : ℕ) (config : ServerConfig)
      → length (d.fields dhcp).chaddr ≤ 16
      → d.fields (reply_message d msg_type dhcp leased_ip config)
        ≡ reply_fields msg_type dhcp leased_ip config
  unfolding reply_message reply_fields
  fields-reply_message msg_type dhcp leased_ip config h = simp (
    laws.insert_opt_lem,
    laws.set_chaddr_lem _ (d.fields dhcp).chaddr h,
    laws.set_siaddr_lem,
    laws.set_yiaddr_lem,
    laws.set_flags_lem,
    laws.set_xid_lem,
    laws.set_opcode_lem,
  )

  -- An encoded acknowledgement of the server, to a client whose hardware address has 16 bytes at
  -- most, read under the transaction id of the request that it answers, gives the client the
  -- leased address, the network's mask, the server as gateway, server and only DNS server, and
  -- the server's lease time; under another id the client takes no notice.
  pub parse_ack_nak-ack :
      (dhcp : d.Message) (leased_ip xid : ℕ) (config : ServerConfig) (bytes : List ℕ)
      → length (d.fields dhcp).chaddr ≤ 16
      → build_dhcp_reply_payload d MessageType.ack dhcp leased_ip config ≡ some bytes
      → parse_ack_nak d bytes xid ≡ (
          if (d.fields dhcp).xid == xid
          then ParseAckResult.ack (record {
            ip = leased_ip;
            mask = config.subnet_mask;
            gateway = some config.server_ip;
            server_ip = some config.server_ip;
            lease_secs = lan_lease_secs;
            dns_servers = config.server_ip ∷ [];
          })
          else ParseAckResult.nothing)
  unfolding build_dhcp_reply_payload parse_ack_nak reply_fields with_opt
  parse_ack_nak-ack dhcp leased_ip xid config bytes h e =
      let m = reply_message d MessageType.ack dhcp leased_ip config in
      let read = laws.decode-encode m bytes e in
      let seen = fields-reply_message MessageType.ack dhcp leased_ip config h in
      rw (read, parse_ack_nak) (rw (seen, ack_of) (ground arith))

  -- An encoded offer of the server, to a client whose hardware address has 16 bytes at most, read
  -- under the transaction id of the discovery that it answers, gives the client the offered
  -- address and the server's.
  pub parse_offer-offer :
      (dhcp : d.Message) (leased_ip : ℕ) (config : ServerConfig) (bytes : List ℕ)
      → length (d.fields dhcp).chaddr ≤ 16
      → build_dhcp_reply_payload d MessageType.offer dhcp leased_ip config ≡ some bytes
      → parse_offer d bytes (d.fields dhcp).xid
        ≡ some (record { offered_ip = leased_ip; server_ip = some config.server_ip })
  unfolding build_dhcp_reply_payload parse_offer reply_fields with_opt
  parse_offer-offer dhcp leased_ip config bytes h e =
      let m = reply_message d MessageType.offer dhcp leased_ip config in
      let read = laws.decode-encode m bytes e in
      let seen = fields-reply_message MessageType.offer dhcp leased_ip config h in
      rw (read, parse_offer) (rw seen (ground arith))

  -- An encoded refusal of the server, to a client whose hardware address has 16 bytes at most,
  -- read under the transaction id of the request, is a NAK to the client.
  pub parse_ack_nak-nak :
      (dhcp : d.Message) (config : ServerConfig) (bytes : List ℕ)
      → length (d.fields dhcp).chaddr ≤ 16
      → d.encode (nak_message d dhcp config) ≡ some bytes
      → parse_ack_nak d bytes (d.fields dhcp).xid ≡ ParseAckResult.nak
  unfolding nak_message parse_ack_nak with_opt
  parse_ack_nak-nak dhcp config bytes h e =
      let read = laws.decode-encode (nak_message d dhcp config) bytes e in
      rw (read, parse_ack_nak)
        (simp
          (
            laws.insert_opt_lem,
            laws.set_chaddr_lem _ (d.fields dhcp).chaddr h,
            laws.set_xid_lem,
            laws.set_opcode_lem,
          )
          (ground arith))
