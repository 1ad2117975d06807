-- ===== src/Server/Start.antt =====
-- src/services/dhcp_server.rs, `setup_server_socket` and `start_dhcp_server`: the server over the
-- sockets that it opens one after another. The lease table lives on from one socket to the next.

use rustyrouter.Dhcp.{Dhcproto}
use rustyrouter.Packet.{Pnet}
use rustyrouter.Prelude.{
  ℕ, ◌≤◌, Option, none, some, List, [], ◌∷◌, ◌++◌, Bool, if◌then◌else◌, ◌==◌, arith, ◌≡◌,
  Option-cases, inl, ◌⊎◌, inr, Bool-cases, refl,
}
use rustyrouter.Prelude.Text.{Text}
use rustyrouter.Server.LeaseTable.{LeaseTable, Ipv4Net, new}
use rustyrouter.Server.Replies.{ServerConfig}
use rustyrouter.Server.Serve.{Arrival, InOrder, run_server_loop}

pub data ServerError : Type 0 where
  mac_address raw_socket async_socket : ServerError

-- What the calls of one `setup_server_socket` give.
pub record SocketOps : Type 0 where
  pub interface_mac : Option ℕ
  pub raw_fd : Option ℕ
  pub async_fd : Bool

pub data FdEvent : Type 0 where
  opened closed : ℕ → FdEvent

pub data Setup : Type 0 where
  ready : ℕ → ℕ → Setup
  failed : ServerError → Setup

unfoldable pub setup_server_socket : SocketOps → List FdEvent × Setup
setup_server_socket s = elim s.interface_mac [
  | none ↦ ([], failed mac_address)
  | some mac ↦ elim s.raw_fd [
    | none ↦ ([], failed raw_socket)
    | some raw_fd ↦
        if s.async_fd
        then (opened raw_fd ∷ [], ready mac raw_fd)
        else (opened raw_fd ∷ closed raw_fd ∷ [], failed async_socket)
  ]
]

-- A round of the loop of `start_dhcp_server`: the setup, and the packets until the socket fails.
pub record Session : Type 0 where
  pub ops : SocketOps
  pub arrivals : List Arrival

abbrev pub config_of : Ipv4Net → ℕ → ServerConfig
config_of net mac = record {
  server_ip = net.addr;
  subnet_mask = net.netmask;
  server_mac = mac;
  net = net;
}

-- What happens to the descriptors before and after the other rounds.
abbrev pub with_events :
    List FdEvent → Option (LeaseTable × List FdEvent) → Option (LeaseTable × List FdEvent)
with_events events none = none
with_events events (some (t, rest)) = some (t, events ++ rest)

module _ (p : Pnet) (d : Dhcproto) where
  -- The table and the descriptors' events after the rounds; `none` after a panic.
  unfoldable pub restart_loop :
      Ipv4Net → List Session → LeaseTable → Option (LeaseTable × List FdEvent)
  unfolding setup_server_socket
  restart_loop net [] leases = some (leases, [])
  restart_loop net (s ∷ rest) leases =
      let (events, setup) = setup_server_socket s.ops in
      elim setup [
        | failed e ↦ with_events events (restart_loop net rest leases)
        | ready mac raw_fd ↦ elim (run_server_loop p d (config_of net mac) leases s.arrivals) [
          | none ↦ none
          | some leases' ↦
              with_events (events ++ closed raw_fd ∷ []) (restart_loop net rest leases')
        ]
      ]

  -- `parse` is that of `ipnet`. With an address that it does not read, the server does not start.
  unfoldable pub start_dhcp_server :
      (Text → Option Ipv4Net) → Text → List Session → Option (LeaseTable × List FdEvent)
  unfolding restart_loop
  start_dhcp_server parse lan_ip sessions = elim (parse lan_ip) [
    | none ↦ some (new, [])
    | some net ↦ restart_loop net sessions new
  ]

-- The descriptors that are open after the events, the last opened first.
unfoldable pub open_fds : List FdEvent → List ℕ → List ℕ
open_fds [] fds = fds
open_fds (opened fd ∷ rest) fds = open_fds rest (fd ∷ fds)
open_fds (closed fd ∷ rest) [] = open_fds rest []
open_fds (closed fd ∷ rest) (f ∷ fds) = open_fds rest (if fd == f then fds else f ∷ fds)

-- The clock does not go back from one round to the next.
abbrev pub SessionsInOrder : ℕ → List Session → ℕ → Type 0
SessionsInOrder start [] until = start ≤ until
SessionsInOrder start (s ∷ rest) until =
    (middle : ℕ) × InOrder start s.arrivals middle × SessionsInOrder middle rest until

pub setup_cases :
    (s : SocketOps)
    → ((e : ServerError) × ((setup_server_socket s).1 ≡ failed e)
        × ((rest : List FdEvent) (fds : List ℕ)
            → open_fds ((setup_server_socket s).0 ++ rest) fds ≡ open_fds rest fds))
      ⊎ ((mac : ℕ) × (fd : ℕ) × ((setup_server_socket s).1 ≡ ready mac fd)
          × ((setup_server_socket s).0 ≡ opened fd ∷ []))
unfolding setup_server_socket open_fds
setup_cases s = elim (Option-cases s.interface_mac) [
  | inl m ↦ inl (
    mac_address,
    rw (m, setup_server_socket) refl,
    rw (m, setup_server_socket) (λ rest fds. refl),
  )
  | inr (mac, m) ↦ elim (Option-cases s.raw_fd) [
    | inl f ↦ inl (
      raw_socket,
      rw (m, f, setup_server_socket) refl,
      rw (m, f, setup_server_socket) (λ rest fds. refl),
    )
    | inr (fd, f) ↦ elim (Bool-cases s.async_fd) [
      | inl a ↦
          inr (
            mac,
            fd,
            rw (m, f, a, setup_server_socket) refl,
            rw (m, f, a, setup_server_socket) refl,
          )
      | inr a ↦ inl (
        async_socket,
        rw (m, f, a, setup_server_socket) refl,
        rw (m, f, a, setup_server_socket) (λ rest fds. ground arith),
      )
    ]
  ]
]

pub with_events_of :
    (events : List FdEvent) (o : Option (LeaseTable × List FdEvent))
    (after : LeaseTable × List FdEvent)
    → with_events events o ≡ some after
    → (rest : List FdEvent) × (o ≡ some (after.0, rest)) × (after.1 ≡ events ++ rest)
with_events_of events none after h = absurd (ground arith)
with_events_of events (some (t, rest)) after h = (rest, ground arith, ground arith)
