-- ===== src/Client/Messages.antt =====
-- src/services/dhcp_client.rs, `send_discover` and `send_request`: the messages before they are encoded.
use rustyrouter.Dhcp.{
  Dhcproto, DhcprotoLaws, DhcpOption, MessageType, Opcode, OptionCode, with_opt,
  OptionCode-discrete,
}
use rustyrouter.Prelude.{ℕ, List, [], ◌∷◌, Option, none, some, if◌then◌else◌, ◌==◌, ◌≡◌}

module _ (d : Dhcproto) where
  unfoldable pub discover_message : List ℕ → ℕ → d.Message
  discover_message mac xid =
      let addressed =
        d.set_chaddr
          (d.set_flags (d.set_xid (d.set_opcode d.default Opcode.boot_request) xid)
            d.broadcast_flags)
          mac in
      let typed = d.insert_opt addressed (DhcpOption.message_type MessageType.discover) in
      d.insert_opt typed (
        DhcpOption.parameter_request_list
          (OptionCode.subnet_mask ∷ OptionCode.router ∷ OptionCode.domain_name_server ∷ []))

  -- The address asked for and the server chosen, in a request without a `ciaddr`.
  unfoldable pub selecting : d.Message → ℕ → Option ℕ → d.Message
  selecting m requested_ip none =
      d.insert_opt (d.set_flags m d.broadcast_flags) (DhcpOption.requested_ip_address requested_ip)
  selecting m requested_ip (some srv) =
      d.insert_opt
        (d.insert_opt (d.set_flags m d.broadcast_flags)
          (DhcpOption.requested_ip_address requested_ip))
        (DhcpOption.server_identifier srv)

  unfoldable pub request_message : List ℕ → ℕ → ℕ → Option ℕ → ℕ → d.Message
  unfolding selecting
  request_message mac xid requested_ip server_ip ciaddr =
      let addressed =
        d.set_chaddr
          (d.set_ciaddr (d.set_xid (d.set_opcode d.default Opcode.boot_request) xid) ciaddr) mac in
      let chosen = if ciaddr == 0 then selecting addressed requested_ip server_ip else addressed in
      d.insert_opt chosen (DhcpOption.message_type MessageType.request)

module _ (d : Dhcproto) (laws : DhcprotoLaws d) where
  pub opt-request_message :
      (mac : List ℕ) (xid ip : ℕ) (server_ip : Option ℕ)
      → (d.fields (request_message d mac xid ip server_ip 0)).opt OptionCode.requested_ip_address
        ≡ some (DhcpOption.requested_ip_address ip)
  unfolding request_message with_opt OptionCode-discrete
  opt-request_message mac xid ip none = simp laws.insert_opt_lem
  opt-request_message mac xid ip (some srv) = simp laws.insert_opt_lem
