-- ===== src/Exchange/Handshake.antt =====
-- src/services/dhcp_server.rs against src/services/dhcp_client.rs: what becomes of the client's request
-- for the address that the server has offered it.
use rustyrouter.Client.Messages.{request_message, opt-request_message}
use rustyrouter.Dhcp.{Dhcproto, DhcprotoLaws, MessageType}
use rustyrouter.Packet.{Pnet}
use rustyrouter.Prelude.{ℕ, List, Option, none, some, ◌≡◌, refl}
use rustyrouter.Server.Handlers.{allocate, handle_dhcp_request, requested_ip, lease_from}
use rustyrouter.Server.LeaseTable.{LeaseTable, get, insert}
use rustyrouter.Server.Leasing.{allocate-valid}
use rustyrouter.Server.Replies.{ServerConfig, send_reply}
use rustyrouter.Server.Safety.{HostsInNet}

module _ (p : Pnet) (d : Dhcproto) (laws : DhcprotoLaws d) where
  -- Where the hosts of the network are in it: a new client that is offered an address and whose
  -- request for it is the next packet gets it. The table has its lease from then on, and the
  -- answer is a DHCPACK for that address.
  pub handle_dhcp_request-request_message :
      (config : ServerConfig) (t : LeaseTable) (client now later asked granted ip xid : ℕ)
      (mac : List ℕ) (server_ip : Option ℕ)
      → HostsInNet config.net
      → get t client ≡ none
      → (allocate config t client now later).1 ≡ some ip
      → let t' = (allocate config t client now later).0 in
        let request = request_message d mac xid ip server_ip 0 in
        handle_dhcp_request p d config request client t' asked granted ≡ (
          insert t' client (lease_from ip granted),
          send_reply p d MessageType.ack request client ip config,
        )
  unfolding handle_dhcp_request requested_ip
  handle_dhcp_request-request_message config t client now later asked granted ip xid mac server_ip
        hosts new offered =
      let asks = opt-request_message d laws mac xid ip server_ip in
      let valid = allocate-valid config t client now later asked ip hosts new offered in
      rw (asks, valid, handle_dhcp_request) refl
