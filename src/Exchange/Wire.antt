-- ===== src/Exchange/Wire.antt =====
-- src/services/dhcp_client.rs against src/services/dhcp_server.rs: the client's request from its socket
-- to the server's answer, in a frame that carries it as it was sent.
use rustyrouter.Client.Messages.{request_message}
use rustyrouter.Exchange.Answer.{Acknowledges, chaddr-request_message, send_reply-request_message}
use rustyrouter.Client.Send.{Datagram, send_request, decode-send_request}
use rustyrouter.Dhcp.{
  Dhcproto, DhcprotoLaws, MessageType, Opcode, OptionCode, DhcpOption, with_opt,
  OptionCode-discrete,
}
use rustyrouter.Exchange.Handshake.{handle_dhcp_request-request_message}
use rustyrouter.Packet.{RawPacket, Pnet, EthernetView, Ipv4View, UdpView, parse_dhcp_payload}
use rustyrouter.Prelude.{
  ℕ, [], ◌∷◌, List, Option, none, some, ◌≡◌, refl, length, ◌==◌, arith, true, ap, ◌∙◌, ◌≤◌, subst,
  ◌+◌, Bool,
}
use rustyrouter.Server.Handlers.{
  allocate, lease_from, slice_to, check_packet, check_source, process_incoming_packet, dispatch,
  Checked,
}
use rustyrouter.Server.LeaseTable.{LeaseTable, get, insert}
use rustyrouter.Server.Replies.{ServerConfig, build_dhcp_reply_payload}
use rustyrouter.Prelude.Set.{from_secs}
use rustyrouter.Server.Exclusive.{get-insert_self}
use rustyrouter.Server.Safety.{HostsInNet}

-- The frame has the datagram in it, from a hardware address.
pub record Carries (p : Pnet) (frame : List ℕ) (sent : Datagram) (source : ℕ) : Type 0 where
  pub eth : EthernetView
  pub ip : Ipv4View
  pub udp : UdpView
  pub is_ethernet : p.ethernet frame ≡ some eth
  pub is_ipv4 : p.ipv4 eth.payload ≡ some ip
  pub is_udp : p.udp ip.payload ≡ some udp
  pub ethertype : eth.ethertype ≡ p.ether_type_ipv4
  pub from : eth.source ≡ source
  pub protocol : ip.protocol ≡ p.ip_proto_udp
  pub port : udp.destination ≡ sent.dest_port
  pub payload : udp.payload ≡ sent.payload

slice_to-length : (bytes : List ℕ) → slice_to (length bytes) bytes ≡ some bytes
unfolding slice_to
slice_to-length [] = refl
slice_to-length (b ∷ bytes) = ground (arith, slice_to-length bytes)

module _ (p : Pnet) (d : Dhcproto) where
  parse-Carries :
      (frame : List ℕ) (sent : Datagram) (source : ℕ)
      → Carries p frame sent source
      → parse_dhcp_payload p d frame sent.dest_port ≡ d.decode sent.payload
  unfolding parse_dhcp_payload
  parse-Carries frame sent source c =
      let ethertype : (c.eth.ethertype == p.ether_type_ipv4) ≡ true = ground (arith, c.ethertype) in
      let protocol : (c.ip.protocol == p.ip_proto_udp) ≡ true = ground (arith, c.protocol) in
      let port : (c.udp.destination == sent.dest_port) ≡ true = ground (arith, c.port) in
      rw (c.is_ethernet, ethertype, c.is_ipv4, protocol, c.is_udp, port, parse_dhcp_payload)
        (ap d.decode c.payload)

module _ (p : Pnet) (d : Dhcproto) (laws : DhcprotoLaws d) where
  opcode-request_message :
      (mac : List ℕ) (xid ip : ℕ) (server_ip : Option ℕ)
      → length mac ≤ 16
      → (d.fields (request_message d mac xid ip server_ip 0)).opcode ≡ Opcode.boot_request
  unfolding request_message
  opcode-request_message mac xid ip none h =
      let addressed = λ (m : d.Message). laws.set_chaddr_lem m mac h in
      simp (
        laws.insert_opt_lem, laws.set_flags_lem, addressed, laws.set_ciaddr_lem, laws.set_xid_lem,
        laws.set_opcode_lem,
      )
  opcode-request_message mac xid ip (some srv) h =
      let addressed = λ (m : d.Message). laws.set_chaddr_lem m mac h in
      simp (
        laws.insert_opt_lem, laws.set_flags_lem, addressed, laws.set_ciaddr_lem, laws.set_xid_lem,
        laws.set_opcode_lem,
      )

  type-request_message :
      (mac : List ℕ) (xid ip : ℕ) (server_ip : Option ℕ)
      → (d.fields (request_message d mac xid ip server_ip 0)).opt OptionCode.message_type
        ≡ some (DhcpOption.message_type MessageType.request)
  unfolding request_message with_opt OptionCode-discrete
  type-request_message mac xid ip none = simp laws.insert_opt_lem
  type-request_message mac xid ip (some srv) = simp laws.insert_opt_lem

  check_packet-request_message :
      (frame mac : List ℕ) (xid ip : ℕ) (server_ip : Option ℕ) (sent : Datagram)
      → length mac ≡ 6
      → sent.dest_port ≡ d.server_port
      → d.decode sent.payload ≡ some (request_message d mac xid ip server_ip 0)
      → Carries p frame sent (p.mac_from mac)
      → check_packet p d frame
        ≡ Checked.accepted MessageType.request
            (request_message d mac xid ip server_ip 0)
            (p.mac_from mac)
  unfolding check_packet check_source
  check_packet-request_message frame mac xid ip server_ip sent six port read c =
      let short : length mac ≤ 16 = omega arith in
      let request = request_message d mac xid ip server_ip 0 in
      let parsed : parse_dhcp_payload p d frame d.server_port ≡ some request =
        subst (λ n. parse_dhcp_payload p d frame n ≡ some request) port
          (parse-Carries p d frame sent (p.mac_from mac) c ∙ read) in
      let opcode = opcode-request_message mac xid ip server_ip short in
      let (chaddr, hlen) = chaddr-request_message p d laws mac xid ip server_ip short in
      let typed = type-request_message mac xid ip server_ip in
      let slice = slice_to-length mac in
      let same : (c.eth.source == p.mac_from mac) ≡ true = ground (arith, c.from) in
      let full : (length mac == 6) ≡ true = ground (arith, six) in
      rw (parsed, opcode, hlen, chaddr, slice, full, check_packet)
        (rw (c.is_ethernet, same, typed, check_source) (ground arith))

  -- With a codec that keeps its laws, and where the hosts of the network are in it: a new client
  -- with a hardware address of six bytes is offered an address, its request for it, with a server
  -- or none, is sent, the next packet of the server is a frame that has the request in it and comes
  -- from the client, and the codec encodes the acknowledgement. The server then enters the lease, for
  -- an hour, and sends one frame, to the client's port and, where the codec reads the broadcast flag of
  -- the request, to everyone, else to the client. In it the client reads, under its transaction id, that
  -- it has the address for an hour, with the network's mask and the server as gateway and DNS server.
  pub process_incoming_packet-send_request :
      (config : ServerConfig) (t : LeaseTable) (now later asked granted ip xid dest_ip : ℕ)
      (mac frame bytes : List ℕ) (server_ip : Option ℕ) (sends : Bool) (sent : Datagram)
      → HostsInNet config.net
      → length mac ≡ 6
      → get t (p.mac_from mac) ≡ none
      → (allocate config t (p.mac_from mac) now later).1 ≡ some ip
      → send_request d sends mac xid ip server_ip 0 dest_ip ≡ some sent
      → Carries p frame sent (p.mac_from mac)
      → build_dhcp_reply_payload d MessageType.ack
          (request_message d mac xid ip server_ip 0)
          ip
          config
        ≡ some bytes
      → let client = p.mac_from mac in
        let t' = (allocate config t client now later).0 in
        (after : LeaseTable) × (reply : RawPacket) × (process_incoming_packet p d frame config t'
            asked granted
          ≡ some (after, reply ∷ []))
        × (get after client ≡ some (record { ip = ip; expiry = granted + from_secs 3600 }))
        × Acknowledges p d config client ip xid reply
  unfolding process_incoming_packet dispatch
  process_incoming_packet-send_request config t now later asked granted ip xid dest_ip mac frame
        bytes server_ip sends sent hosts six new offered done c encoded =
      let (read, _, port) =
        decode-send_request d laws sends mac xid ip server_ip 0 dest_ip sent done in
      let accepted = check_packet-request_message frame mac xid ip server_ip sent six port read c in
      let client = p.mac_from mac in
      let t' = (allocate config t client now later).0 in
      let (reply, answer, reads) =
        send_reply-request_message p d laws config ip xid client mac bytes server_ip six encoded in
      let handled =
        handle_dhcp_request-request_message p d laws config t client now later asked granted ip xid
          mac server_ip hosts new offered in
      (
        insert t' client (lease_from ip granted),
        reply,
        rw accepted (ap some (handled ∙ rw answer refl)),
        get-insert_self t' client (lease_from ip granted),
        reads,
      )
