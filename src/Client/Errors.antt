-- ===== src/Client/Errors.antt =====
-- src/services/dhcp_client.rs: `DhcpError`, without the texts, and the results that carry it.
pub data DhcpError : Type 0 where
  io protocol nak interface_not_found rt_netlink : DhcpError

pub data Result (A : Type 0) : Type 0 where
  ok : A → Result A
  err : DhcpError → Result A
