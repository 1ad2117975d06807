-- ===== src/Suite/Allocation.antt =====
-- src/services/dhcp_server.rs, module `tests`: the tests of the lease table and of the allocation.
use rustyrouter.Prelude.Map
use rustyrouter.Prelude.Set
use rustyrouter.Prelude.{find, ℕ_discrete}
use rustyrouter.Server.LeaseTable.{evict_expired, remove}
use rustyrouter.Packet.{Pnet}
use rustyrouter.Dhcp.{Dhcproto}
use rustyrouter.Tests.Instances.{frames, lan_codec}
use rustyrouter.Suite.Base.{ipv4, mac, unwrap, parse_net, is_some_of, is_none}
use rustyrouter.Suite.Server.{len, now}
use rustyrouter.Prelude.{
  ℕ, Bool, true, Option, none, some, refl, not, ◌&&◌, ◌+◌, ◌-◌, ◌==◌, ◌≡◌, any,
}
use rustyrouter.Prelude.Text.{Text, codes}
use rustyrouter.Prelude.Set.{from_secs}
use rustyrouter.Server.LeaseTable.{
  LeaseTable, Ipv4Net, new, get, insert, next_available_ip, is_ip_available,
}
use rustyrouter.Server.Handlers.{handle_dhcp_decline, handle_dhcp_release}
use rustyrouter.Server.Replies.{lan_lease_secs}

unfoldable pub discover_ip : LeaseTable → ℕ → Ipv4Net → ℕ → LeaseTable × Option ℕ
discover_ip leases mac net server_ip = elim (get leases mac) [
  | some existing ↦ (leases, some existing.ip)
  | none ↦
      let (evicted, found) = next_available_ip leases now net server_ip in
      elim found [
        | none ↦ (evicted, none)
        | some ip ↦ (
          insert evicted mac (record { ip = ip; expiry = now + from_secs lan_lease_secs }),
          some ip,
        )
      ]
]

module _ (parse_net : Text → Option Ipv4Net) where
  unfoldable pub test_lease_table_basic_allocation : Bool
  unfolding discover_ip
  test_lease_table_basic_allocation = unwrap (parse_net (codes "192.168.1.1/24")) (λ net.
      let client1 = mac 1 2 3 4 5 6 in
      let client2 = mac 1 2 3 4 5 7 in
      let (first, found1) = discover_ip new client1 net net.addr in
      let (second, found2) = discover_ip first client1 net net.addr in
      let (third, found3) = discover_ip second client2 net net.addr in
      unwrap found1 (λ ip1.
        not (ip1 == net.addr)
        && any (λ h. h == ip1) net.hosts
        && not (is_ip_available first ip1)
        && is_some_of ip1 found2
        && len second == 1
        && unwrap found3
            (λ ip3. not (ip3 == ip1) && not (ip3 == net.addr) && not (is_ip_available third ip3))))

  unfoldable pub test_lease_table_pool_exhaustion : Bool
  unfolding discover_ip
  test_lease_table_pool_exhaustion = unwrap (parse_net (codes "192.168.1.1/30")) (λ net.
      let (first, found1) = discover_ip new (mac 1 2 3 4 5 6) net net.addr in
      let (second, found2) = discover_ip first (mac 1 2 3 4 5 7) net net.addr in
      is_some_of (ipv4 192 168 1 2) found1 && is_none found2)

  unfoldable pub test_lease_table_remove_frees_ip : Pnet → Dhcproto → Bool
  unfolding discover_ip
  test_lease_table_remove_frees_ip p d = unwrap (parse_net (codes "192.168.1.1/24")) (λ net.
      let client = mac 1 2 3 4 5 6 in
      let (first, found1) = discover_ip new client net net.addr in
      let declined = handle_dhcp_decline p d client first in
      let (second, found2) = discover_ip declined client net net.addr in
      let released = handle_dhcp_release p d client second in
      unwrap found1 (λ ip.
        not (is_ip_available first ip)
        && len declined == 0
        && is_ip_available declined ip
        && is_some_of ip found2
        && len second == 1
        && len released == 0
        && is_ip_available released ip))

  unfoldable pub test_evict_expired_returns_ip_to_pool : Bool
  unfolding discover_ip
  test_evict_expired_returns_ip_to_pool = unwrap (parse_net (codes "192.168.1.1/30")) (λ net.
      let client = mac 1 2 3 4 5 6 in
      let leases =
        insert new client (record { ip = ipv4 192 168 1 2; expiry = now - from_secs 1 }) in
      let (after, found) = discover_ip leases (mac 1 2 3 4 5 7) net net.addr in
      len leases == 1
      && not (is_ip_available leases (ipv4 192 168 1 2))
      && is_some_of (ipv4 192 168 1 2) found
      && len after == 1
      && is_none (get after client))

  unfoldable pub test_discover_reoffers_existing_lease_ip : Bool
  unfolding discover_ip
  test_discover_reoffers_existing_lease_ip = unwrap (parse_net (codes "192.168.1.1/24")) (λ net.
      let client = mac 0xAA 0xBB 0xCC 0xDD 0xEE 0xFF in
      let (first, found1) = discover_ip new client net net.addr in
      let (second, found2) = discover_ip first client net net.addr in
      unwrap found1 (λ ip_first.
        not (ip_first == net.addr)
        && len first == 1
        && is_some_of ip_first found2
        && len second == 1
        && not (is_ip_available second ip_first)))

  unfoldable pub test_discover_exhausted_pool_reoffers_existing_client : Bool
  unfolding discover_ip
  test_discover_exhausted_pool_reoffers_existing_client =
      unwrap (parse_net (codes "192.168.1.1/30")) (λ net.
        let existing_client = mac 1 2 3 4 5 6 in
        let (first, found1) = discover_ip new existing_client net net.addr in
        let (second, found2) = discover_ip first (mac 1 2 3 4 5 7) net net.addr in
        let (third, found3) = discover_ip second existing_client net net.addr in
        is_some_of (ipv4 192 168 1 2) found1
        && is_none found2
        && is_some_of (ipv4 192 168 1 2) found3)

passes :
    (test_lease_table_basic_allocation parse_net ≡ true)
    × (test_lease_table_pool_exhaustion parse_net ≡ true)
    × (test_lease_table_remove_frees_ip parse_net frames lan_codec ≡ true)
    × (test_evict_expired_returns_ip_to_pool parse_net ≡ true)
    × (test_discover_reoffers_existing_lease_ip parse_net ≡ true)
    × (test_discover_exhausted_pool_reoffers_existing_client parse_net ≡ true)
unfolding test_lease_table_basic_allocation test_lease_table_pool_exhaustion
    test_lease_table_remove_frees_ip test_evict_expired_returns_ip_to_pool
    test_discover_reoffers_existing_lease_ip test_discover_exhausted_pool_reoffers_existing_client
    parse_net get Map.get new next_available_ip find Set.contains evict_expired Map.retain any
    insert Set.insert is_some_of Map.insert ℕ_discrete len handle_dhcp_decline handle_dhcp_release
    remove Map.remove Set.remove
passes = (refl, refl, refl, refl, refl, refl)
