-- ===== src/Dhcp.antt =====
-- The DHCP messages that src/services/dhcp_server.rs and src/services/dhcp_client.rs exchange. The
-- crate `dhcproto` is a parameter: an opaque type of messages, what its getters return, its setters
-- and its codec, with the documented effect of each setter as a law.
use rustyrouter.Prelude.{ℕ, ◌≡◌, ◌≤◌, Bool, Option, some, List, length, ite}

-- `dhcproto::v4::MessageType`, with the variants that the router names.
pub data MessageType : Type 0 where
  discover offer request decline ack nak release other : MessageType

-- `dhcproto::v4::Opcode`
pub data Opcode : Type 0 where
  boot_request boot_reply unknown : Opcode

-- `dhcproto::v4::OptionCode`
pub data OptionCode : Type 0 where
  message_type requested_ip_address server_identifier subnet_mask router : OptionCode
  domain_name_server address_lease_time parameter_request_list : OptionCode

-- `dhcproto::v4::DhcpOption`
pub data DhcpOption : Type 0 where
  message_type : MessageType → DhcpOption
  requested_ip_address server_identifier subnet_mask : ℕ → DhcpOption
  router domain_name_server : List ℕ → DhcpOption
  address_lease_time : ℕ → DhcpOption
  parameter_request_list : List OptionCode → DhcpOption

abbrev pub code_of : DhcpOption → OptionCode
code_of (DhcpOption.message_type _) = OptionCode.message_type
code_of (DhcpOption.requested_ip_address _) = OptionCode.requested_ip_address
code_of (DhcpOption.server_identifier _) = OptionCode.server_identifier
code_of (DhcpOption.subnet_mask _) = OptionCode.subnet_mask
code_of (DhcpOption.router _) = OptionCode.router
code_of (DhcpOption.domain_name_server _) = OptionCode.domain_name_server
code_of (DhcpOption.address_lease_time _) = OptionCode.address_lease_time
code_of (DhcpOption.parameter_request_list _) = OptionCode.parameter_request_list

-- What the getters of a message return; `opt` is `opts().get`.
pub record Fields : Type 0 where
  pub opcode : Opcode
  pub xid : ℕ
  pub flags : ℕ
  pub ciaddr : ℕ
  pub yiaddr : ℕ
  pub siaddr : ℕ
  pub giaddr : ℕ
  pub hlen : ℕ
  pub chaddr : List ℕ
  pub opt : OptionCode → Option DhcpOption

unfoldable pub OptionCode-discrete : Discrete OptionCode
OptionCode-discrete = hlevel

-- The options after `opts_mut().insert`.
unfoldable pub with_opt :
    DhcpOption → (OptionCode → Option DhcpOption) → OptionCode → Option DhcpOption
with_opt o opt c = ite (OptionCode-discrete c (code_of o)) (some o) (opt c)

pub record Dhcproto : Type 1 where
  pub Message : Type 0
  pub fields : Message → Fields
  pub default : Message
  pub set_opcode : Message → Opcode → Message
  pub set_xid : Message → ℕ → Message
  pub set_flags : Message → ℕ → Message
  pub set_ciaddr : Message → ℕ → Message
  pub set_yiaddr : Message → ℕ → Message
  pub set_siaddr : Message → ℕ → Message
  pub set_chaddr : Message → List ℕ → Message
  pub insert_opt : Message → DhcpOption → Message
  pub encode : Message → Option (List ℕ)
  pub decode : List ℕ → Option Message
  pub flags_broadcast : ℕ → Bool
  pub broadcast_flags : ℕ
  pub server_port : ℕ
  pub client_port : ℕ

-- The documented effects of the setters and of the codec.
pub record DhcprotoLaws (d : Dhcproto) : Type 0 where
  pub set_opcode_lem :
      (m : d.Message) (o : Opcode)
      → d.fields (d.set_opcode m o) ≡ record (d.fields m) { opcode = o }
  pub set_xid_lem :
      (m : d.Message) (x : ℕ) → d.fields (d.set_xid m x) ≡ record (d.fields m) { xid = x }
  pub set_flags_lem :
      (m : d.Message) (f : ℕ) → d.fields (d.set_flags m f) ≡ record (d.fields m) { flags = f }
  pub set_ciaddr_lem :
      (m : d.Message) (a : ℕ) → d.fields (d.set_ciaddr m a) ≡ record (d.fields m) { ciaddr = a }
  pub set_yiaddr_lem :
      (m : d.Message) (a : ℕ) → d.fields (d.set_yiaddr m a) ≡ record (d.fields m) { yiaddr = a }
  pub set_siaddr_lem :
      (m : d.Message) (a : ℕ) → d.fields (d.set_siaddr m a) ≡ record (d.fields m) { siaddr = a }
  pub set_chaddr_lem :
      (m : d.Message) (c : List ℕ)
      → length c ≤ 16
      → d.fields (d.set_chaddr m c) ≡ record (d.fields m) { hlen = length c; chaddr = c }
  pub insert_opt_lem :
      (m : d.Message) (o : DhcpOption)
      → d.fields (d.insert_opt m o) ≡ record (d.fields m) { opt = with_opt o (d.fields m).opt }
  pub decode-encode :
      (m : d.Message) (bytes : List ℕ) → d.encode m ≡ some bytes → d.decode bytes ≡ some m
