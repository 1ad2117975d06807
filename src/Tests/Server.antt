-- ===== src/Tests/Server.antt =====
-- The theorems on the DHCP server at concrete inputs.

use rustyrouter.Server.Restart.{start_dhcp_server-Exclusive}
use rustyrouter.Server.Restart.{start_dhcp_server-open_fds}
use rustyrouter.Server.Unordered.{dispatch-Same}
use rustyrouter.Server.Unordered.{Agree}
use rustyrouter.Dhcp.{MessageType}
use rustyrouter.Tests.Instances.{codec}
use rustyrouter.Server.Leasing.{handle_dhcp_request-grants, allocate-stale, allocate-exhausted}
use rustyrouter.Server.Index.{remove-out_of_sync}
use rustyrouter.Prelude.Set.{from_secs}
use rustyrouter.Server.LeaseTable.{ClientLease, Ipv4Net}
use rustyrouter.Prelude.{
  [], ◌∷◌, refl, any, find, dec_lt, ℕ_discrete, List, arith, All, ◌≡◌, true, ◌⊎◌, some,
  if◌then◌else◌, ◌==◌, false, ℕ, Option, none, ◌<◌, ◌+◌,
}
use rustyrouter.Prelude.Map
use rustyrouter.Prelude.Set
use rustyrouter.Dhcp.{with_opt, OptionCode-discrete}
use rustyrouter.Packet.{parse_dhcp_payload}
use rustyrouter.Server.LeaseTable.{
  LeaseTable, get, insert, remove, new, is_ip_available, held_by_other, is_ip_taken_by_other,
  evict_expired, next_available_ip,
}
use rustyrouter.Server.Handlers.{
  allocate, validate_requested_ip, requested_ip, handle_dhcp_discover, handle_dhcp_request,
  dispatch, check_packet, process_incoming_packet,
}
use rustyrouter.Server.Start.{
  Session, FdEvent, config_of, start_dhcp_server, restart_loop, setup_server_socket, open_fds,
}
use rustyrouter.Server.Panic.{panics, overruns, session_overruns, panics-start_dhcp_server}
use rustyrouter.Server.Observed.{Same}
use rustyrouter.Prelude.Text.{Text, codes}
use rustyrouter.Server.Serve.{Arrival, run_server_loop}
use rustyrouter.Server.Safety.{IsUsable}
use rustyrouter.Server.Exclusive.{Exclusive, Within}
use rustyrouter.Tests.Instances.{
  frames, Message, discover_5, lan_codec, config, lan_net, lan_net-hosts, frame_of, opt_of,
  decode_in, request_6,
}

-- Everything that a run of the server computes with.
server_code : Unit {0}
unfolding start_dhcp_server restart_loop setup_server_socket open_fds run_server_loop
    process_incoming_packet check_packet parse_dhcp_payload handle_dhcp_discover handle_dhcp_request
    dispatch allocate get insert remove next_available_ip evict_expired is_ip_available new
    validate_requested_ip is_ip_taken_by_other held_by_other requested_ip any find Map.get
    Map.insert Map.remove Map.retain Set.contains Set.insert Set.remove ℕ_discrete dec_lt opt_of
    with_opt OptionCode-discrete decode_in
server_code = tt

abbrev two_arrivals : List Arrival
two_arrivals =
    record { frame = frame_of 5 0; now = 10; later = 11 }
    ∷ record { frame = frame_of 6 1; now = 20; later = 21 }
    ∷ []

abbrev both_leased : LeaseTable
both_leased = record {
  by_mac =
      (6, record { ip = 3; expiry = 3600000000021 })
      ∷ (5, record { ip = 2; expiry = 3600000000011 })
      ∷ [];
  allocated_ips = 3 ∷ 2 ∷ [];
}

-- An empty table after client 5's discovery.
abbrev one_leased : LeaseTable
one_leased = record {
  by_mac = (5, record { ip = 2; expiry = 3600000000011 }) ∷ [];
  allocated_ips = 2 ∷ [];
}

handle_dhcp_request-grants_example :
    get (handle_dhcp_request frames lan_codec config request_6 6 one_leased 20 21).0 6
    ≡ (if 6 == 6 then some (record { ip = 3; expiry = 21 + from_secs 3600 }) else get one_leased 6)
unfolding server_code
handle_dhcp_request-grants_example =
    handle_dhcp_request-grants frames lan_codec config request_6 one_leased 6 20 21 3 6 refl refl

-- Client 5's lease on address 2 has expired at 50, and client 7 was given the address since.
abbrev stale : LeaseTable
stale = record {
  by_mac = (7, record { ip = 2; expiry = 100 }) ∷ (5, record { ip = 2; expiry = 40 }) ∷ [];
  allocated_ips = 2 ∷ [];
}

allocate-stale_example :
    (allocate config stale 5 50 51 ≡ (stale, some 2))
    × (validate_requested_ip 2 5 config stale 50 ≡ false)
unfolding server_code
allocate-stale_example =
    allocate-stale config stale 5 7 50 51 (record { ip = 2; expiry = 40 })
      (record { ip = 2; expiry = 100 }) refl refl refl (omega arith) (omega arith)

-- Both host addresses but the server's are leased.
abbrev full : LeaseTable
full = record {
  by_mac = (5, record { ip = 2; expiry = 90 }) ∷ (6, record { ip = 3; expiry = 90 }) ∷ [];
  allocated_ips = 2 ∷ 3 ∷ [];
}

allocate-exhausted_example :
    All
      (λ ip.
        (ip ≡ 1)
        ⊎ ((holder : ℕ) × (l : ClientLease) × (get full holder ≡ some l)
            × (50 < l.expiry)
            × (l.ip ≡ ip)))
      (1 ∷ 2 ∷ 3 ∷ [])
unfolding server_code
allocate-exhausted_example = allocate-exhausted config full 7 50 51 (refl, (refl, tt)) refl

remove-out_of_sync_example :
    (get (remove (insert one_leased 7 (record { ip = 2; expiry = 100 })) 5).0 7
      ≡ some (record { ip = 2; expiry = 100 }))
    × (is_ip_available (remove (insert one_leased 7 (record { ip = 2; expiry = 100 })) 5).0 2
        ≡ true)
unfolding server_code
remove-out_of_sync_example =
    remove-out_of_sync one_leased 5 7 (record { ip = 2; expiry = 3600000000011 })
      (record { ip = 2; expiry = 100 }) refl (omega arith) refl

-- The first socket cannot be registered, the second serves two packets, the third none.
abbrev three_sessions : List Session
three_sessions =
    record {
      ops = record { interface_mac = some 99; raw_fd = some 8; async_fd = false };
      arrivals = [];
    }
    ∷ record {
      ops = record { interface_mac = some 99; raw_fd = some 8; async_fd = true };
      arrivals = two_arrivals;
    }
    ∷ record {
      ops = record { interface_mac = some 98; raw_fd = some 9; async_fd = true };
      arrivals = [];
    }
    ∷ []

abbrev lan_net_of : Text → Option Ipv4Net
lan_net_of [] = none
lan_net_of _ = some lan_net

abbrev three_served : LeaseTable × List FdEvent
three_served = (
  both_leased,
  FdEvent.opened 8
      ∷ FdEvent.closed 8
      ∷ FdEvent.opened 8
      ∷ FdEvent.closed 8
      ∷ FdEvent.opened 9
      ∷ FdEvent.closed 9
      ∷ [],
)

start_dhcp_server-Exclusive_example :
    Exclusive 50 both_leased × Within (IsUsable (config_of lan_net 99)) both_leased
unfolding server_code
start_dhcp_server-Exclusive_example =
    start_dhcp_server-Exclusive frames lan_codec lan_net_of (codes "1/29") lan_net three_sessions 50
      99 three_served refl lan_net-hosts
      (0, omega arith, (30, omega arith, (40, omega arith, omega arith))) refl

start_dhcp_server-open_fds_example : open_fds three_served.1 (3 ∷ []) ≡ 3 ∷ []
unfolding server_code
start_dhcp_server-open_fds_example =
    start_dhcp_server-open_fds frames lan_codec lan_net_of (codes "1/29") three_sessions
      three_served (3 ∷ []) refl

-- The same leases with the entries in the other order.
abbrev both_leased' : LeaseTable
both_leased' = record {
  by_mac =
      (5, record { ip = 2; expiry = 3600000000011 })
      ∷ (6, record { ip = 3; expiry = 3600000000021 })
      ∷ [];
  allocated_ips = 2 ∷ 3 ∷ [];
}

both_leased-Same : Same both_leased both_leased'
unfolding server_code
both_leased-Same = record {
  leases = λ mac. ground arith;
  index = λ ip. ground arith;
  distinct = (refl, (refl, tt));
  distinct' = (refl, (refl, tt));
}

dispatch-Same_example :
    Agree
      (dispatch frames lan_codec MessageType.request config request_6 6 both_leased 20 21)
      (dispatch frames lan_codec MessageType.request config request_6 6 both_leased' 20 21)
dispatch-Same_example =
    dispatch-Same frames lan_codec config request_6 6 20 21 MessageType.request both_leased
      both_leased' both_leased-Same

-- A discovery that names 20 bytes of hardware address and has 6.
abbrev long_hlen : Message
long_hlen = record discover_5 { hlen = 20 }

abbrev overrun_session : Session
overrun_session = record {
  ops = record { interface_mac = some 99; raw_fd = some 8; async_fd = true };
  arrivals = record { frame = frame_of 5 0; now = 10; later = 11 } ∷ [];
}

panics-start_dhcp_server_example :
    panics (
      start_dhcp_server frames
        (codec (long_hlen ∷ []))
        lan_net_of
        (codes "1/29")
        (overrun_session ∷ []))
    ≡ any (session_overruns frames (codec (long_hlen ∷ []))) (overrun_session ∷ [])
panics-start_dhcp_server_example =
    panics-start_dhcp_server frames (codec (long_hlen ∷ [])) lan_net_of (codes "1/29") lan_net
      (overrun_session ∷ []) refl

overrun_session-panics :
    any (session_overruns frames (codec (long_hlen ∷ []))) (overrun_session ∷ []) ≡ true
unfolding server_code session_overruns overruns
overrun_session-panics = refl
