-- ===== src/Server/Serve.antt =====
-- src/services/dhcp_server.rs, `run_server_loop`: the packets of one socket, as a list of arrivals.
use rustyrouter.Prelude.{
  ℕ, ◌≡◌, ◌≤◌, Option, none, some, List, [], ◌∷◌, arith, Option-cases, inl, inr, subst,
}
use rustyrouter.Dhcp.{Dhcproto}
use rustyrouter.Packet.{Pnet}
use rustyrouter.Server.LeaseTable.{LeaseTable, new}
use rustyrouter.Server.Exclusive.{Exclusive, Within}
use rustyrouter.Server.Replies.{ServerConfig}
use rustyrouter.Server.Handlers.{process_incoming_packet}
use rustyrouter.Server.Safety.{
  IsSafe, IsSafe-mono, IsUsable, HostsInNet, new-IsSafe, process_incoming_packet-IsSafe,
}

-- A packet with the two readings of the clock that its handler makes.
pub record Arrival : Type 0 where
  pub frame : List ℕ
  pub now : ℕ
  pub later : ℕ

-- The table after the packets; `none` after a panic.
unfoldable pub run_server_loop :
    Pnet → Dhcproto → ServerConfig → LeaseTable → List Arrival → Option LeaseTable
run_server_loop p d config leases [] = some leases
run_server_loop p d config leases (a ∷ rest) =
    elim (process_incoming_packet p d a.frame config leases a.now a.later) [
      | none ↦ none
      | some (leases', _) ↦ run_server_loop p d config leases' rest
    ]

-- The clock does not go back: `Instant` is monotonic.
abbrev pub InOrder : ℕ → List Arrival → ℕ → Type 0
InOrder start [] until = start ≤ until
InOrder start (a ∷ rest) until = (start ≤ a.now) × (a.now ≤ a.later) × InOrder a.later rest until

pub run_server_loop-IsSafe :
    (p : Pnet) (d : Dhcproto) (config : ServerConfig)
    → HostsInNet config.net
    → (arrivals : List Arrival) (start until : ℕ) (t after : LeaseTable)
    → InOrder start arrivals until
    → IsSafe config start t
    → run_server_loop p d config t arrivals ≡ some after
    → IsSafe config until after
unfolding run_server_loop
run_server_loop-IsSafe p d config hosts [] start until t after o s h =
    let e : t ≡ after = ground arith in
    subst (IsSafe config until) e (IsSafe-mono config start until t o s)
run_server_loop-IsSafe p d config hosts (a ∷ rest) start until t after o s h =
    elim (Option-cases (process_incoming_packet p d a.frame config t a.now a.later)) [
      | inl e ↦ absurd (ground arith)
      | inr (r, e) ↦
          let kept =
            process_incoming_packet-IsSafe config hosts p d a.frame t a.now a.later r
              (IsSafe-mono config start a.now t o.0 s) e in
          run_server_loop-IsSafe p d config hosts rest a.later until r.0 after o.2
            (IsSafe-mono config a.now a.later r.0 o.1 kept) (rw (e, run_server_loop) at h)
    ]

-- Whatever packets arrive, in whatever order, as long as the clock does not go back, the hosts of
-- the network are in it and no packet makes the server panic: at no later instant do two clients
-- hold live leases on one address, and no lease is on the server's address or on one outside the
-- network.
pub run_server_loop-Exclusive :
    (p : Pnet) (d : Dhcproto) (config : ServerConfig)
    → HostsInNet config.net
    → (arrivals : List Arrival) (until : ℕ) (after : LeaseTable) → InOrder 0 arrivals until
    → run_server_loop p d config new arrivals ≡ some after
    → Exclusive until after × Within (IsUsable config) after
run_server_loop-Exclusive p d config hosts arrivals until after o h =
    let s =
      run_server_loop-IsSafe p d config hosts arrivals 0 until new after o (new-IsSafe config 0)
        h in
    (s.exclusive, s.usable)
