-- ===== src/Client/Parse.antt =====
-- src/services/dhcp_client.rs: what the client reads in the server's replies.
use rustyrouter.Prelude.{ℕ, none, some, [], ◌∷◌, List, Option, if◌then◌else◌, ◌==◌}
use rustyrouter.Dhcp.{Dhcproto, MessageType, DhcpOption, OptionCode}

pub record DhcpOffer : Type 0 where
  pub offered_ip : ℕ
  pub server_ip : Option ℕ

pub record DhcpAck : Type 0 where
  pub ip : ℕ
  pub mask : ℕ
  pub gateway : Option ℕ
  pub server_ip : Option ℕ
  pub lease_secs : ℕ
  pub dns_servers : List ℕ

pub record LeaseOptions : Type 0 where
  pub mask : ℕ
  pub gateway : Option ℕ
  pub dns_servers : List ℕ
  pub lease_secs : ℕ

pub data ParseAckResult : Type 0 where
  ack : DhcpAck → ParseAckResult
  nak : ParseAckResult
  nothing : ParseAckResult

abbrev pub default_lease_secs : ℕ
default_lease_secs = 3600

-- 255.255.255.0
abbrev pub default_subnet_mask : ℕ
default_subnet_mask = 0xffffff00

abbrev pub server_id_in : Option DhcpOption → Option ℕ
server_id_in (some (DhcpOption.server_identifier ip)) = some ip
server_id_in _ = none

abbrev pub mask_in : Option DhcpOption → ℕ
mask_in (some (DhcpOption.subnet_mask m)) = m
mask_in _ = default_subnet_mask

-- The first router, if the option names any.
abbrev pub gateway_in : Option DhcpOption → Option ℕ
gateway_in (some (DhcpOption.router (r ∷ rest))) = some r
gateway_in _ = none

abbrev pub dns_in : Option DhcpOption → List ℕ
dns_in (some (DhcpOption.domain_name_server l)) = l
dns_in _ = []

abbrev pub lease_secs_in : Option DhcpOption → ℕ
lease_secs_in (some (DhcpOption.address_lease_time t)) = t
lease_secs_in _ = default_lease_secs

module _ (d : Dhcproto) where
  unfoldable pub get_server_identifier : d.Message → Option ℕ
  get_server_identifier dhcp = server_id_in ((d.fields dhcp).opt OptionCode.server_identifier)

  unfoldable pub parse_lease_options : d.Message → LeaseOptions
  parse_lease_options dhcp =
      let opt = (d.fields dhcp).opt in
      record {
        mask = mask_in (opt OptionCode.subnet_mask);
        gateway = gateway_in (opt OptionCode.router);
        dns_servers = dns_in (opt OptionCode.domain_name_server);
        lease_secs = lease_secs_in (opt OptionCode.address_lease_time);
      }

  -- The offer in a message of the type that is given.
  unfoldable pub offer_in : Option DhcpOption → d.Message → Option DhcpOffer
  unfolding get_server_identifier
  offer_in (some (DhcpOption.message_type MessageType.offer)) dhcp =
      some (record { offered_ip = (d.fields dhcp).yiaddr; server_ip = get_server_identifier dhcp })
  offer_in _ dhcp = none

  unfoldable pub parse_offer : List ℕ → ℕ → Option DhcpOffer
  unfolding offer_in
  parse_offer buf xid = elim (d.decode buf) [
    | none ↦ none
    | some dhcp ↦
        if (d.fields dhcp).xid == xid
        then offer_in ((d.fields dhcp).opt OptionCode.message_type) dhcp
        else none
  ]

  unfoldable pub ack_of : d.Message → DhcpAck
  unfolding get_server_identifier parse_lease_options
  ack_of dhcp =
      let opts = parse_lease_options dhcp in
      record {
        ip = (d.fields dhcp).yiaddr;
        mask = opts.mask;
        gateway = opts.gateway;
        server_ip = get_server_identifier dhcp;
        lease_secs = opts.lease_secs;
        dns_servers = opts.dns_servers;
      }

  unfoldable pub ack_nak_in : Option DhcpOption → d.Message → ParseAckResult
  unfolding ack_of
  ack_nak_in (some (DhcpOption.message_type MessageType.ack)) dhcp =
      ParseAckResult.ack (ack_of dhcp)
  ack_nak_in (some (DhcpOption.message_type MessageType.nak)) dhcp = ParseAckResult.nak
  ack_nak_in _ dhcp = ParseAckResult.nothing

  unfoldable pub parse_ack_nak : List ℕ → ℕ → ParseAckResult
  unfolding ack_nak_in
  parse_ack_nak buf xid = elim (d.decode buf) [
    | none ↦ ParseAckResult.nothing
    | some dhcp ↦
        if (d.fields dhcp).xid == xid
        then ack_nak_in ((d.fields dhcp).opt OptionCode.message_type) dhcp
        else ParseAckResult.nothing
  ]
