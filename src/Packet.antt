-- ===== src/Packet.antt =====
-- src/packet.rs and `parse_dhcp_payload` of src/services/utils.rs: the raw frames. The crate `pnet`
-- is a parameter: what its packet views read, its sizes and constants, and its checksum.
use rustyrouter.Prelude.{
  ℕ, ◌+◌, ◌/◌, ◌%◌, ◌^◌, Bool, true, false, Option, none, some, List, length, ◌==◌,
}
use rustyrouter.Dhcp.{Dhcproto}

pub record EthernetView : Type 0 where
  pub ethertype : ℕ
  pub source : ℕ
  pub payload : List ℕ

pub record Ipv4View : Type 0 where
  pub protocol : ℕ
  pub payload : List ℕ

pub record UdpView : Type 0 where
  pub destination : ℕ
  pub payload : List ℕ

-- The header fields that `build_raw_packet` writes, and the IPv4 checksum over them.
pub record RawPacket : Type 0 where
  pub buf_len : ℕ
  pub eth_destination : ℕ
  pub eth_source : ℕ
  pub eth_type : ℕ
  pub ip_version : ℕ
  pub ip_header_length : ℕ
  pub ip_total_length : ℕ
  pub ip_ttl : ℕ
  pub ip_protocol : ℕ
  pub ip_source : ℕ
  pub ip_destination : ℕ
  pub ip_checksum : ℕ
  pub udp_source : ℕ
  pub udp_destination : ℕ
  pub udp_length : ℕ
  pub udp_payload : List ℕ

pub record Pnet : Type 0 where
  pub ethernet : List ℕ → Option EthernetView
  pub ipv4 : List ℕ → Option Ipv4View
  pub udp : List ℕ → Option UdpView
  pub ether_type_ipv4 : ℕ
  pub ip_proto_udp : ℕ
  pub eth_header_len : ℕ
  pub ip_header_len : ℕ
  pub udp_header_len : ℕ
  pub checksum : RawPacket → ℕ
  pub mac_broadcast : ℕ
  pub mac_from : List ℕ → ℕ

infixl 5 ◌>>=◌
abbrev ◌>>=◌ : {A B : Type 0} → Option A → (A → Option B) → Option B
none >>= f = none
some a >>= f = f a

module _ (p : Pnet) where
  -- The packet before its checksum: the first block of `build_raw_packet`.
  unfoldable pub write_headers : ℕ → ℕ → ℕ → ℕ → ℕ → ℕ → List ℕ → RawPacket
  write_headers src_mac dest_mac src_ip dest_ip src_port dest_port payload = record {
    buf_len = p.eth_header_len + p.ip_header_len + p.udp_header_len + length payload;
    eth_destination = dest_mac;
    eth_source = src_mac;
    eth_type = p.ether_type_ipv4;
    ip_version = 4;
    ip_header_length = (p.ip_header_len / 4) % 2 ^ 8;
    ip_total_length = (p.ip_header_len + p.udp_header_len + length payload) % 2 ^ 16;
    ip_ttl = 64;
    ip_protocol = p.ip_proto_udp;
    ip_source = src_ip;
    ip_destination = dest_ip;
    ip_checksum = 0;
    udp_source = src_port;
    udp_destination = dest_port;
    udp_length = (p.udp_header_len + length payload) % 2 ^ 16;
    udp_payload = payload;
  }

  unfoldable pub build_raw_packet : ℕ → ℕ → ℕ → ℕ → ℕ → ℕ → List ℕ → RawPacket
  unfolding write_headers
  build_raw_packet src_mac dest_mac src_ip dest_ip src_port dest_port payload =
      let written = write_headers src_mac dest_mac src_ip dest_ip src_port dest_port payload in
      record written { ip_checksum = p.checksum written }

  guard : Bool → Option (Unit {0})
  guard true = some tt
  guard false = none

  unfoldable pub parse_dhcp_payload : (d : Dhcproto) → List ℕ → ℕ → Option d.Message
  unfolding guard
  parse_dhcp_payload d buf expected_port = do
    eth_pkt ← p.ethernet buf
    _ ← guard (eth_pkt.ethertype == p.ether_type_ipv4)
    ip_pkt ← p.ipv4 eth_pkt.payload
    _ ← guard (ip_pkt.protocol == p.ip_proto_udp)
    udp_pkt ← p.udp ip_pkt.payload
    _ ← guard (udp_pkt.destination == expected_port)
    d.decode udp_pkt.payload
