-- ===== src/Server/Restart.antt =====
-- src/services/dhcp_server.rs, `start_dhcp_server`: the table and the descriptors over all sockets.
use rustyrouter.Server.Exclusive.{Exclusive, Within}
use rustyrouter.Dhcp.{Dhcproto}
use rustyrouter.Packet.{Pnet}
use rustyrouter.Prelude.{
  ℕ, ◌≤◌, Option, some, List, [], ◌∷◌, ◌++◌, arith, ◌≡◌, subst, Option-cases, inl, inr,
}
use rustyrouter.Prelude.Text.{Text}
use rustyrouter.Server.LeaseTable.{LeaseTable, Ipv4Net, new}
use rustyrouter.Server.Safety.{IsSafe, HostsInNet, IsSafe-mono, IsUsable, new-IsSafe}
use rustyrouter.Server.Serve.{Arrival, InOrder, run_server_loop, run_server_loop-IsSafe}
use rustyrouter.Server.Start.{
  FdEvent, setup_server_socket, Session, config_of, open_fds, SessionsInOrder, setup_cases,
  with_events_of, restart_loop, start_dhcp_server, closed,
}

-- The server's MAC address plays no part in what is safe.
IsSafe-config_of :
    (net : Ipv4Net) (mac mac' now : ℕ) (t : LeaseTable)
    → IsSafe (config_of net mac) now t
    → IsSafe (config_of net mac') now t
IsSafe-config_of net mac mac' now t s = record {
  distinct = s.distinct;
  exclusive = s.exclusive;
  usable = s.usable;
}

InOrder-le :
    (arrivals : List Arrival) (start until : ℕ) → InOrder start arrivals until → start ≤ until
InOrder-le [] start until o = o
InOrder-le (a ∷ rest) start until (x, y, o) =
    let le = InOrder-le rest a.later until o in omega arith

module _ (p : Pnet) (d : Dhcproto) (net : Ipv4Net) where
  restart_loop-open_fds :
      (sessions : List Session) (t : LeaseTable) (after : LeaseTable × List FdEvent) (fds : List ℕ)
      → restart_loop p d net sessions t ≡ some after
      → open_fds after.1 fds ≡ fds
  unfolding restart_loop open_fds
  restart_loop-open_fds [] t after fds h = ground arith
  restart_loop-open_fds (s ∷ rest) t after fds h = elim (setup_cases s.ops) [
    | inl (e, f, balanced) ↦
        let (more, o, a) =
          with_events_of (setup_server_socket s.ops).0 _ after (rw (f, restart_loop) at h) in
        let ih = restart_loop-open_fds rest t (after.0, more) fds o in rw (a, balanced more fds) ih
    | inr (mac, fd, f, ev) ↦
        elim (Option-cases (run_server_loop p d (config_of net mac) t s.arrivals)) [
          | inl w ↦ absurd (let h' = rw (f, w, restart_loop) at h in ground arith)
          | inr (t', w) ↦
              let (more, o, a) =
                with_events_of ((setup_server_socket s.ops).0 ++ closed fd ∷ []) _ after
                  (rw (f, w, restart_loop) at h) in
              let ih = restart_loop-open_fds rest t' (after.0, more) fds o in rw a (ground arith)
        ]
  ]

  restart_loop-IsSafe :
      HostsInNet net
      → (sessions : List Session) (start until mac : ℕ) (t : LeaseTable)
        (after : LeaseTable × List FdEvent)
      → SessionsInOrder start sessions until
      → IsSafe (config_of net mac) start t
      → restart_loop p d net sessions t ≡ some after
      → IsSafe (config_of net mac) until after.0
  unfolding restart_loop
  restart_loop-IsSafe hosts [] start until mac t after o s h =
      let e : t ≡ after.0 = ground arith in
      subst (IsSafe (config_of net mac) until) e (IsSafe-mono (config_of net mac) start until t o s)
  restart_loop-IsSafe hosts (x ∷ rest) start until mac t after (middle, first, then_on) s h =
      elim (setup_cases x.ops) [
        | inl (e, f, balanced) ↦
            let (more, o, a) =
              with_events_of (setup_server_socket x.ops).0 _ after (rw (f, restart_loop) at h) in
            restart_loop-IsSafe hosts rest middle until mac t (after.0, more) then_on
              (IsSafe-mono (config_of net mac) start middle t
                (InOrder-le x.arrivals start middle first) s)
              o
        | inr (mac', fd, f, ev) ↦
            elim (Option-cases (run_server_loop p d (config_of net mac') t x.arrivals)) [
              | inl w ↦ absurd (let h' = rw (f, w, restart_loop) at h in ground arith)
              | inr (t', w) ↦
                  let (more, o, a) =
                    with_events_of ((setup_server_socket x.ops).0 ++ closed fd ∷ []) _ after
                      (rw (f, w, restart_loop) at h) in
                  let own = IsSafe-config_of net mac mac' start t s in
                  let served =
                    run_server_loop-IsSafe p d (config_of net mac') hosts x.arrivals start middle t
                      t' first own w in
                  restart_loop-IsSafe hosts rest middle until mac t' (after.0, more) then_on
                    (IsSafe-config_of net mac' mac middle t' served) o
            ]
      ]

-- Over any number of sockets, each with its MAC address, and with whatever packets arrive, as long
-- as the LAN address is read as a network, its hosts are in it, the clock does not go back and no
-- packet makes the server panic: at no later instant do two clients hold live leases on one
-- address, and no lease is on the server's address or on one outside the network.
pub start_dhcp_server-Exclusive :
    (p : Pnet) (d : Dhcproto) (parse : Text → Option Ipv4Net) (lan_ip : Text) (net : Ipv4Net)
    (sessions : List Session) (until mac : ℕ) (after : LeaseTable × List FdEvent)
    → parse lan_ip ≡ some net
    → HostsInNet net
    → SessionsInOrder 0 sessions until
    → start_dhcp_server p d parse lan_ip sessions ≡ some after
    → Exclusive until after.0 × Within (IsUsable (config_of net mac)) after.0
unfolding start_dhcp_server
start_dhcp_server-Exclusive p d parse lan_ip net sessions until mac after read hosts o h =
    let s =
      restart_loop-IsSafe p d net hosts sessions 0 until mac new after o
        (new-IsSafe (config_of net mac) 0) (rw (read, start_dhcp_server) at h) in
    (s.exclusive, s.usable)

-- However the setups of the sockets end, and unless a packet makes the server panic: after the
-- rounds the descriptors that are open are those that were open before.
pub start_dhcp_server-open_fds :
    (p : Pnet) (d : Dhcproto) (parse : Text → Option Ipv4Net) (lan_ip : Text)
    (sessions : List Session) (after : LeaseTable × List FdEvent) (fds : List ℕ)
    → start_dhcp_server p d parse lan_ip sessions ≡ some after
    → open_fds after.1 fds ≡ fds
unfolding start_dhcp_server open_fds
start_dhcp_server-open_fds p d parse lan_ip sessions after fds h =
    elim (Option-cases (parse lan_ip)) [
      | inl e ↦ let h' = rw (e, start_dhcp_server) at h in ground arith
      | inr (net, e) ↦
          restart_loop-open_fds p d net sessions new after fds (rw (e, start_dhcp_server) at h)
    ]
