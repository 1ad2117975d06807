-- ===== src/Suite/Server.antt =====
-- src/services/dhcp_server.rs, module `tests`: what its tests share, and those of
-- `validate_requested_ip`. The clock stands still at an instant of its own.
use rustyrouter.Prelude.Map
use rustyrouter.Server.LeaseTable.{is_ip_taken_by_other, held_by_other}
use rustyrouter.Prelude.{any}
use rustyrouter.Suite.Base.{ipv4, mac, unwrap, parse_net}
use rustyrouter.Prelude.{ℕ, Bool, true, Option, none, some, refl, not, ◌&&◌, ◌+◌, ◌≡◌, length}
use rustyrouter.Prelude.Text.{Text, codes}
use rustyrouter.Prelude.Set.{from_secs}
use rustyrouter.Server.LeaseTable.{LeaseTable, Ipv4Net, new, insert}
use rustyrouter.Server.Handlers.{validate_requested_ip}
use rustyrouter.Server.Replies.{ServerConfig, lan_lease_secs}

-- `LeaseTable::len`
unfoldable pub len : LeaseTable → ℕ
len leases = length leases.by_mac

-- `Instant::now` during a test.
abbrev pub now : ℕ
now = from_secs 1000

module _ (parse_net : Text → Option Ipv4Net) where
  unfoldable pub make_config : Text → Option ServerConfig
  make_config cidr = elim (parse_net cidr) [
    | none ↦ none
    | some net ↦ some (record {
      server_ip = net.addr;
      subnet_mask = net.netmask;
      server_mac = mac 0 0 0 0 0 1;
      net = net;
    })
  ]

  unfoldable pub test_validate_requested_ip_rejects_server_ip : Bool
  unfolding make_config
  test_validate_requested_ip_rejects_server_ip =
      unwrap (make_config (codes "192.168.1.1/24"))
        (λ config. not (validate_requested_ip config.server_ip (mac 1 2 3 4 5 6) config new now))

  unfoldable pub test_validate_requested_ip_rejects_out_of_subnet : Bool
  unfolding make_config
  test_validate_requested_ip_rejects_out_of_subnet =
      unwrap (make_config (codes "192.168.1.1/24"))
        (λ config. not (validate_requested_ip (ipv4 10 0 0 5) (mac 1 2 3 4 5 6) config new now))

  unfoldable pub test_validate_requested_ip_rejects_conflicting_lease : Bool
  unfolding make_config
  test_validate_requested_ip_rejects_conflicting_lease =
      unwrap (make_config (codes "192.168.1.1/24")) (λ config.
        let client1 = mac 1 2 3 4 5 6 in
        let client2 = mac 1 2 3 4 5 7 in
        let contested_ip = ipv4 192 168 1 2 in
        let leases =
          insert new client1
            (record { ip = contested_ip; expiry = now + from_secs lan_lease_secs }) in
        not (validate_requested_ip contested_ip client2 config leases now)
        && validate_requested_ip contested_ip client1 config leases now)

  unfoldable pub test_validate_requested_ip_accepts_valid : Bool
  unfolding make_config
  test_validate_requested_ip_accepts_valid =
      unwrap (make_config (codes "192.168.1.1/24"))
        (λ config. validate_requested_ip (ipv4 192 168 1 100) (mac 1 2 3 4 5 6) config new now)

passes :
    (test_validate_requested_ip_rejects_server_ip parse_net ≡ true)
    × (test_validate_requested_ip_rejects_out_of_subnet parse_net ≡ true)
    × (test_validate_requested_ip_rejects_conflicting_lease parse_net ≡ true)
    × (test_validate_requested_ip_accepts_valid parse_net ≡ true)
unfolding test_validate_requested_ip_rejects_server_ip
    test_validate_requested_ip_rejects_out_of_subnet
    test_validate_requested_ip_rejects_conflicting_lease test_validate_requested_ip_accepts_valid
    parse_net new insert validate_requested_ip is_ip_taken_by_other any Map.insert held_by_other
passes = (refl, refl, refl, refl)
