-- ===== src/Server/Panic.antt =====
-- src/services/dhcp_server.rs: when the server panics. `process_incoming_packet` slices the hardware
-- address by the length that the packet names.
use rustyrouter.Dhcp.{Dhcproto, OptionCode}
use rustyrouter.Packet.{Pnet, parse_dhcp_payload}
use rustyrouter.Prelude.{
  ℕ, zero, suc, List, [], ◌∷◌, Bool, true, false, Option, some, none, ◌≡◌, ◌&&◌, ltb, length, refl,
  arith, Bool-cases, Option-cases, inl, inr, ◌∙◌, ◌==◌, any, sym, ◌++◌,
}
use rustyrouter.Server.Handlers.{
  is_boot_request, as_message_type, slice_to, check_packet, after_checks, check_source,
  process_incoming_packet, Checked,
}
use rustyrouter.Server.LeaseTable.{LeaseTable, Ipv4Net, new}
use rustyrouter.Server.Replies.{ServerConfig}
use rustyrouter.Server.Serve.{Arrival, run_server_loop}
use rustyrouter.Server.Start.{
  with_events, FdEvent, setup_cases, Setup, Session, setup_server_socket, config_of, restart_loop,
  start_dhcp_server,
}
use rustyrouter.Prelude.Text.{Text}

-- A panic stands as `none`.
abbrev pub panics : {A : Type 0} → Option A → Bool
panics none = true
panics (some x) = false

panics-slice_to : (n : ℕ) (bytes : List ℕ) → panics (slice_to n bytes) ≡ ltb (length bytes) n
unfolding slice_to
panics-slice_to zero bytes = ground arith
panics-slice_to (suc n) [] = ground arith
panics-slice_to (suc n) (b ∷ bytes) = elim (Option-cases (slice_to n bytes)) [
  | inl e ↦ rw (e, slice_to) (ground (arith, panics-slice_to n bytes))
  | inr (x, e) ↦ rw (e, slice_to) (ground (arith, panics-slice_to n bytes))
]

module _ (p : Pnet) (d : Dhcproto) where
  -- The frame carries a request that names a longer hardware address than it has.
  unfoldable pub overruns : List ℕ → Bool
  overruns frame = elim (parse_dhcp_payload p d frame d.server_port) [
    | none ↦ false
    | some dhcp ↦
        is_boot_request p d (d.fields dhcp).opcode
        && ltb (length (d.fields dhcp).chaddr) (d.fields dhcp).hlen
  ]

  is_panicked : Checked p d → Bool
  is_panicked Checked.panicked = true
  is_panicked _ = false

  panics-after_checks :
      (c : Checked p d) (config : ServerConfig) (leases : LeaseTable) (now later : ℕ)
      → panics (after_checks p d c config leases now later) ≡ is_panicked c
  unfolding after_checks is_panicked
  panics-after_checks Checked.dropped config leases now later = refl
  panics-after_checks Checked.panicked config leases now later = refl
  panics-after_checks (Checked.accepted mtype dhcp mac) config leases now later = refl

  is_panicked-check_source :
      (frame : List ℕ) (dhcp : d.Message) (mac : ℕ)
      → is_panicked (check_source p d frame dhcp mac) ≡ false
  unfolding check_source is_panicked
  is_panicked-check_source frame dhcp mac = elim (Option-cases (p.ethernet frame)) [
    | inl e ↦ rw (e, check_source) refl
    | inr (eth, e) ↦
        elim (Option-cases (as_message_type ((d.fields dhcp).opt OptionCode.message_type))) [
          | inl m ↦ rw (e, m, check_source) (ground arith)
          | inr (mtype, m) ↦ rw (e, m, check_source) (ground arith)
        ]
  ]

  is_panicked-check_packet :
      (frame : List ℕ) → is_panicked (check_packet p d frame) ≡ overruns frame
  unfolding check_packet overruns is_panicked
  is_panicked-check_packet frame =
      elim (Option-cases (parse_dhcp_payload p d frame d.server_port)) [
        | inl e ↦ rw (e, check_packet, overruns) refl
        | inr (dhcp, e) ↦ elim (Bool-cases (is_boot_request p d (d.fields dhcp).opcode)) [
          | inr n ↦ rw (e, n, check_packet, overruns) refl
          | inl y ↦
              let slice = panics-slice_to (d.fields dhcp).hlen (d.fields dhcp).chaddr in
              elim (Option-cases (slice_to (d.fields dhcp).hlen (d.fields dhcp).chaddr)) [
                | inl f ↦ rw (e, y, f, check_packet, overruns) (rw f at slice)
                | inr (bytes, f) ↦ elim (Bool-cases (length bytes == 6)) [
                  | inl six ↦
                      rw (e, y, f, six, check_packet, overruns)
                        (is_panicked-check_source frame dhcp (p.mac_from bytes) ∙ rw f at slice)
                  | inr other ↦ rw (e, y, f, other, check_packet, overruns) (rw f at slice)
                ]
              ]
        ]
      ]

  panics-process_incoming_packet :
      (frame : List ℕ) (config : ServerConfig) (leases : LeaseTable) (now later : ℕ)
      → panics (process_incoming_packet p d frame config leases now later) ≡ overruns frame
  unfolding process_incoming_packet
  panics-process_incoming_packet frame config leases now later =
      panics-after_checks (check_packet p d frame) config leases now later
      ∙ is_panicked-check_packet frame

  panics-run_server_loop :
      (config : ServerConfig) (arrivals : List Arrival) (leases : LeaseTable)
      → panics (run_server_loop p d config leases arrivals) ≡ any (λ a. overruns a.frame) arrivals
  unfolding run_server_loop any
  panics-run_server_loop config [] leases = refl
  panics-run_server_loop config (a ∷ rest) leases =
      let one = panics-process_incoming_packet a.frame config leases a.now a.later in
      elim (Option-cases (process_incoming_packet p d a.frame config leases a.now a.later)) [
        | inl e ↦ let bad = sym (rw e at one) in rw (e, run_server_loop) (rw (bad, any) refl)
        | inr (after, e) ↦
            let good = sym (rw e at one) in
            rw (e, run_server_loop) (rw (good, any) (panics-run_server_loop config rest after.0))
      ]

  -- The socket of the round is set up, and one of its packets overruns.
  unfoldable pub session_overruns : Session → Bool
  session_overruns s = elim (setup_server_socket s.ops).1 [
    | Setup.failed e ↦ false
    | Setup.ready mac raw_fd ↦ any (λ a. overruns a.frame) s.arrivals
  ]

  panics-with_events :
      (events : List FdEvent) (o : Option (LeaseTable × List FdEvent))
      → panics (with_events events o) ≡ panics o
  panics-with_events events none = refl
  panics-with_events events (some x) = refl

  panics-restart_loop :
      (net : Ipv4Net) (sessions : List Session) (leases : LeaseTable)
      → panics (restart_loop p d net sessions leases) ≡ any session_overruns sessions
  unfolding restart_loop session_overruns any
  panics-restart_loop net [] leases = refl
  panics-restart_loop net (s ∷ rest) leases = elim (setup_cases s.ops) [
    | inl (e, f, _) ↦
        rw (f, restart_loop, session_overruns, any)
          (panics-with_events (setup_server_socket s.ops).0 _ ∙ panics-restart_loop net rest leases)
    | inr (mac, fd, f, _) ↦
        let served = panics-run_server_loop (config_of net mac) s.arrivals leases in
        elim (Option-cases (run_server_loop p d (config_of net mac) leases s.arrivals)) [
          | inl e ↦
              let bad = sym (rw e at served) in
              rw (f, e, restart_loop, session_overruns, any) (rw bad refl)
          | inr (leases', e) ↦
              let good = sym (rw e at served) in
              rw (f, e, restart_loop, session_overruns, any)
                (rw good (
                  panics-with_events ((setup_server_socket s.ops).0 ++ FdEvent.closed fd ∷ []) _
                  ∙ panics-restart_loop net rest leases'))
        ]
  ]

  -- With a LAN address that is read, the server panics exactly if some socket that was set up receives a
  -- packet that is read as a request whose hardware address is shorter than the length that it names.
  pub panics-start_dhcp_server :
      (parse : Text → Option Ipv4Net) (lan_ip : Text) (net : Ipv4Net) (sessions : List Session)
      → parse lan_ip ≡ some net
      → panics (start_dhcp_server p d parse lan_ip sessions) ≡ any session_overruns sessions
  unfolding start_dhcp_server
  panics-start_dhcp_server parse lan_ip net sessions read =
      rw (read, start_dhcp_server) (panics-restart_loop net sessions new)
