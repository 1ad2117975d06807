-- ===== src/Tests/Instances.antt =====
-- Small stand-ins for `dhcproto`, `pnet`, `ipnet` and the kernel: a codec for two messages and their
-- replies, and frames that hold a number for each header field.
use rustyrouter.Server.LeaseTable.{Ipv4Net}
use rustyrouter.Server.Safety.{HostsInNet}
use rustyrouter.Server.Replies.{ServerConfig}
use rustyrouter.Packet.{Ipv4View, Pnet, UdpView, EthernetView}
use mathlib.Core.Logic.Or
use mathlib.Core.Bool.{Bool-set}
use mathlib.Core.List.{mem-cons, not-mem-nil}
use rustyrouter.Prelude.{
  ℕ, none, some, [], ◌∷◌, List, ℕ_discrete, Option, get_elem?, ite, ◌+◌, ◌≡◌, ◌^◌, refl, arith, ltb,
  length, ap, ◌-◌, ◌==◌, suc,
}
use rustyrouter.Dhcp.{
  Fields, Opcode, OptionCode, DhcpOption, with_opt, Dhcproto, MessageType, DhcprotoLaws,
}

-- A message with its options, newest first.
pub record Message : Type 0 where
  pub opcode : Opcode
  pub xid : ℕ
  pub flags : ℕ
  pub ciaddr : ℕ
  pub yiaddr : ℕ
  pub siaddr : ℕ
  pub giaddr : ℕ
  pub hlen : ℕ
  pub chaddr : List ℕ
  pub opts : List DhcpOption

unfoldable pub opt_of : List DhcpOption → OptionCode → Option DhcpOption
opt_of [] c = none
opt_of (o ∷ os) c = with_opt o (opt_of os) c

unfoldable pub Message-discrete : Discrete Message
Message-discrete = hlevel ℕ_discrete

abbrev pub fields_of : Message → Fields
unfolding opt_of
fields_of m = record {
  opcode = m.opcode;
  xid = m.xid;
  flags = m.flags;
  ciaddr = m.ciaddr;
  yiaddr = m.yiaddr;
  siaddr = m.siaddr;
  giaddr = m.giaddr;
  hlen = m.hlen;
  chaddr = m.chaddr;
  opt = opt_of m.opts;
}

-- The bytes of a message: its place in a list of the messages that the codec knows.
unfoldable pub encode_in : List Message → ℕ → Message → Option (List ℕ)
encode_in [] i m = none
encode_in (k ∷ known) i m = ite (Message-discrete k m) (some (i ∷ [])) (encode_in known (i + 1) m)

unfoldable pub decode_in : List Message → List ℕ → Option Message
decode_in known [] = none
decode_in known (i ∷ rest) = get_elem? known i

encode_in-place :
    (known : List Message) (i : ℕ) (m : Message) (bytes : List ℕ)
    → encode_in known i m ≡ some bytes
    → (j : ℕ) × (bytes ≡ (i + j) ∷ []) × (get_elem? known j ≡ some m)
unfolding encode_in
encode_in-place [] i m bytes h = absurd (ground arith)
encode_in-place (k ∷ known) i m bytes h = elim (Message-discrete k m) [
  | yes e ↦ (0, ground arith, ap some e)
  | no n ↦
      let (j, place, found) = encode_in-place known (i + 1) m bytes (ground arith) in
      (suc j, ground arith, found)
]

decode-encode_in :
    (known : List Message) (m : Message) (bytes : List ℕ)
    → encode_in known 0 m ≡ some bytes
    → decode_in known bytes ≡ some m
unfolding decode_in
decode-encode_in known m bytes h =
    let (j, place, found) = encode_in-place known 0 m bytes h in
    let e : 0 + j ≡ j = omega arith in rw place (rw e found)

abbrev pub codec : List Message → Dhcproto
codec known = record {
  Message = Message;
  fields = fields_of;
  default = record {
    opcode = Opcode.boot_request;
    xid = 0;
    flags = 0;
    ciaddr = 0;
    yiaddr = 0;
    siaddr = 0;
    giaddr = 0;
    hlen = 0;
    chaddr = [];
    opts = [];
  };
  set_opcode = λ m o. record m { opcode = o };
  set_xid = λ m x. record m { xid = x };
  set_flags = λ m f. record m { flags = f };
  set_ciaddr = λ m a. record m { ciaddr = a };
  set_yiaddr = λ m a. record m { yiaddr = a };
  set_siaddr = λ m a. record m { siaddr = a };
  set_chaddr = λ m c. record m { hlen = length c; chaddr = c };
  insert_opt = λ m o. record m { opts = o ∷ m.opts };
  encode = encode_in known 0;
  decode = decode_in known;
  flags_broadcast = λ f. f == 32768;
  broadcast_flags = 32768;
  server_port = 67;
  client_port = 68;
}

pub codec-laws : (known : List Message) → DhcprotoLaws (codec known)
unfolding opt_of
codec-laws known = record {
  set_opcode_lem = λ m o. refl;
  set_xid_lem = λ m x. refl;
  set_flags_lem = λ m f. refl;
  set_ciaddr_lem = λ m a. refl;
  set_yiaddr_lem = λ m a. refl;
  set_siaddr_lem = λ m a. refl;
  set_chaddr_lem = λ m c h. refl;
  insert_opt_lem = λ m o. refl;
  decode-encode = decode-encode_in known;
}

abbrev ethernet_of : List ℕ → Option EthernetView
ethernet_of (t ∷ s ∷ rest) = some (record { ethertype = t; source = s; payload = rest })
ethernet_of _ = none

abbrev ipv4_of : List ℕ → Option Ipv4View
ipv4_of (p ∷ rest) = some (record { protocol = p; payload = rest })
ipv4_of _ = none

abbrev udp_of : List ℕ → Option UdpView
udp_of (p ∷ rest) = some (record { destination = p; payload = rest })
udp_of _ = none

abbrev last_of : List ℕ → ℕ
last_of [] = 0
last_of (b ∷ []) = b
last_of (b ∷ c ∷ rest) = last_of (c ∷ rest)

-- A frame is its type, its source, its protocol and its port, then the payload.
abbrev pub frames : Pnet
frames = record {
  ethernet = ethernet_of;
  ipv4 = ipv4_of;
  udp = udp_of;
  ether_type_ipv4 = 2048;
  ip_proto_udp = 17;
  eth_header_len = 14;
  ip_header_len = 20;
  udp_header_len = 8;
  checksum = λ p. p.ip_total_length;
  mac_broadcast = 2 ^ 48 - 1;
  mac_from = last_of;
}

-- Hosts 1 to 3 of a network of 8 addresses; the server is 1.
abbrev pub lan_net : Ipv4Net
lan_net = record {
  addr = 1;
  netmask = 0xfffffff8;
  hosts = 1 ∷ 2 ∷ 3 ∷ [];
  contains = λ ip. ltb ip 8;
}

abbrev pub config : ServerConfig
config = record { server_ip = 1; subnet_mask = 0xfffffff8; server_mac = 99; net = lan_net }

pub lan_net-hosts : HostsInNet lan_net
lan_net-hosts ip m =
    Or.elim (Bool-set _ _) (mem-cons.0 m) (λ e. ground arith)
      (λ m'.
        Or.elim (Bool-set _ _) (mem-cons.0 m') (λ e. ground arith)
          (λ m''.
            Or.elim (Bool-set _ _) (mem-cons.0 m'') (λ e. ground arith)
              (λ none_left. absurd (not-mem-nil none_left))))

-- A message of a client whose address is six bytes that end in the given one.
abbrev pub message_of : ℕ → MessageType → List DhcpOption → Message
message_of client mtype more = record {
  opcode = Opcode.boot_request;
  xid = 7;
  flags = 0;
  ciaddr = 0;
  yiaddr = 0;
  siaddr = 0;
  giaddr = 0;
  hlen = 6;
  chaddr = 2 ∷ 0 ∷ 0 ∷ 0 ∷ 0 ∷ client ∷ [];
  opts = DhcpOption.message_type mtype ∷ more;
}

abbrev pub discover_5 : Message
discover_5 = message_of 5 MessageType.discover []

abbrev pub request_6 : Message
request_6 = message_of 6 MessageType.request (DhcpOption.requested_ip_address 3 ∷ [])

abbrev pub lan_codec : Dhcproto
lan_codec = codec (discover_5 ∷ request_6 ∷ [])

-- The frame that carries the i-th message of the codec.
abbrev pub frame_of : ℕ → ℕ → List ℕ
frame_of client i = 2048 ∷ client ∷ 17 ∷ 67 ∷ i ∷ []
