-- ===== src/Client/Send.antt =====
-- src/services/dhcp_client.rs: the sending of messages, the socket, and `start_dhcp_client`. What the
-- socket's calls give is an argument.
use Prim.Native.String.{String}
use rustyrouter.Client.Errors.{DhcpError, Result, ok, err}
use rustyrouter.Client.Lease.{ClientState}
use rustyrouter.Client.Messages.{discover_message, request_message}
use rustyrouter.Client.Netlink.{Netlink}
use rustyrouter.Client.Session.{Attempt, run}
use rustyrouter.Dhcp.{Dhcproto, DhcprotoLaws}
use rustyrouter.Prelude.{
  ℕ, List, [], ◌∷◌, Bool, true, false, Option, some, none, ◌≡◌, ◌^◌, ◌-◌, ◌&&◌, arith,
  if◌then◌else◌, Option-cases, Bool-cases, inl, inr,
}

-- A datagram that was sent, with its address and port.
pub record Datagram : Type 0 where
  pub payload : List ℕ
  pub dest_ip : ℕ
  pub dest_port : ℕ

-- 255.255.255.255
abbrev broadcast : ℕ
broadcast = 2 ^ 32 - 1

module _ (d : Dhcproto) where
  -- What is sent, with the result; `sends` is whether `send_to` succeeds.
  unfoldable pub send_dhcp_message : Bool → d.Message → ℕ → Option Datagram × Result Unit
  send_dhcp_message sends message dest_ip = elim (d.encode message) [
    | none ↦ (none, err DhcpError.protocol)
    | some payload ↦
        if sends
        then (
          some (record { payload = payload; dest_ip = dest_ip; dest_port = d.server_port }),
          ok tt,
        )
        else (none, err DhcpError.io)
  ]

  -- A failure is only printed.
  unfoldable pub send_discover : Bool → List ℕ → ℕ → Option Datagram
  unfolding send_dhcp_message
  send_discover sends mac xid = (send_dhcp_message sends (discover_message d mac xid) broadcast).0

  unfoldable pub send_request : Bool → List ℕ → ℕ → ℕ → Option ℕ → ℕ → ℕ → Option Datagram
  unfolding send_dhcp_message
  send_request sends mac xid requested_ip server_ip ciaddr dest_ip =
      (send_dhcp_message sends (request_message d mac xid requested_ip server_ip ciaddr) dest_ip).0

-- The calls that make the socket, in their order.
pub record SocketSetup : Type 0 where
  pub bind : Bool
  pub broadcast_allowed : Bool
  pub bind_to_device : Bool
  pub dont_route : Bool
  pub set_nonblocking : Bool
  pub from_std : Bool

unfoldable pub make_client_socket : SocketSetup → Bool
make_client_socket s =
    s.bind && s.broadcast_allowed && s.bind_to_device && s.dont_route && s.set_nonblocking
    && s.from_std

module _ (n : Netlink) (d : Dhcproto) (wan : String) where
  -- The rounds until a socket is made; `run` goes on with it and does not return.
  unfoldable pub client_loop : List SocketSetup → List Attempt → ClientState n → ClientState n
  unfolding make_client_socket
  client_loop [] attempts st = st
  client_loop (s ∷ rest) attempts st = elim (make_client_socket s) [
    | false ↦ client_loop rest attempts st
    | true ↦ run n d wan attempts st
  ]

  -- Without a hardware address nothing is started.
  unfoldable pub start_dhcp_client :
      Option (List ℕ) → List SocketSetup → List Attempt → ClientState n → ClientState n
  unfolding client_loop
  start_dhcp_client none setups attempts st = st
  start_dhcp_client (some mac) setups attempts st = client_loop setups attempts st

module _ (d : Dhcproto) (laws : DhcprotoLaws d) where
  -- What a request is sent as: one datagram to the DHCP server's port of the destination, which the
  -- codec reads as the request's message.
  pub decode-send_request :
      (sends : Bool) (mac : List ℕ) (xid requested_ip : ℕ) (server_ip : Option ℕ)
      (ciaddr dest_ip : ℕ) (sent : Datagram)
      → send_request d sends mac xid requested_ip server_ip ciaddr dest_ip ≡ some sent
      → (d.decode sent.payload ≡ some (request_message d mac xid requested_ip server_ip ciaddr))
        × (sent.dest_ip ≡ dest_ip)
        × (sent.dest_port ≡ d.server_port)
  unfolding send_request
  decode-send_request sends mac xid requested_ip server_ip ciaddr dest_ip sent h =
      elim (Option-cases (d.encode (request_message d mac xid requested_ip server_ip ciaddr))) [
        | inl e ↦ absurd (let h' = rw (e, send_request) at h in ground arith)
        | inr (bytes, e) ↦ elim (Bool-cases sends) [
          | inr f ↦ absurd (let h' = rw (e, f, send_request) at h in ground arith)
          | inl f ↦
              let h' = rw (e, f, send_request) at h in
              let back = laws.decode-encode _ bytes e in (ground arith, ground arith, ground arith)
        ]
      ]
