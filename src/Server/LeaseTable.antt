-- ===== src/Server/LeaseTable.antt =====
-- src/services/dhcp_server.rs, module `lease_table`: the leases of the LAN clients and the index of
-- the allocated addresses. MAC and IPv4 addresses are numbers, instants are in nanoseconds. A
-- reading of the clock is an argument; the readings within one scan of the map count as one.
use rustyrouter.Prelude.{
  ℕ, Bool, not, ◌&&◌, Option, none, some, List, [], map, ltb, ◌==◌, ℕ_discrete, any, find,
}
use rustyrouter.Prelude.Map
use rustyrouter.Prelude.Map.{Map}
use rustyrouter.Prelude.Set

pub record ClientLease : Type 0 where
  pub ip : ℕ
  pub expiry : ℕ

pub record LeaseTable : Type 0 where
  pub by_mac : Map ℕ ClientLease
  pub allocated_ips : List ℕ

-- `ipnet::Ipv4Net`: what its accessors return for the LAN network.
pub record Ipv4Net : Type 0 where
  pub addr : ℕ
  pub netmask : ℕ
  pub hosts : List ℕ
  pub contains : ℕ → Bool

unfoldable pub new : LeaseTable
new = record { by_mac = []; allocated_ips = [] }

unfoldable pub get : LeaseTable → ℕ → Option ClientLease
get t mac = Map.get ℕ_discrete mac t.by_mac

-- The index without the address that `mac` held.
unfoldable pub release_old : LeaseTable → ℕ → List ℕ
release_old t mac = elim (Map.get ℕ_discrete mac t.by_mac) [
  | some old ↦ Set.remove old.ip t.allocated_ips
  | none ↦ t.allocated_ips
]

unfoldable pub insert : LeaseTable → ℕ → ClientLease → LeaseTable
unfolding release_old
insert t mac lease = record {
  by_mac = Map.insert ℕ_discrete mac lease t.by_mac;
  allocated_ips = Set.insert lease.ip (release_old t mac);
}

unfoldable pub remove : LeaseTable → ℕ → LeaseTable × Option ClientLease
remove t mac = elim (Map.get ℕ_discrete mac t.by_mac) [
  | none ↦ (t, none)
  | some lease ↦ (
    record {
      by_mac = Map.remove ℕ_discrete mac t.by_mac;
      allocated_ips = Set.remove lease.ip t.allocated_ips;
    },
    some lease,
  )
]

unfoldable pub is_ip_available : LeaseTable → ℕ → Bool
is_ip_available t ip = not (Set.contains ip t.allocated_ips)

-- The test of one entry in `is_ip_taken_by_other`.
unfoldable pub held_by_other : ℕ → ℕ → ℕ → ℕ × ClientLease → Bool
held_by_other now ip client_mac (mac, l) = l.ip == ip && ltb now l.expiry && not (mac == client_mac)

unfoldable pub is_ip_taken_by_other : LeaseTable → ℕ → ℕ → ℕ → Bool
is_ip_taken_by_other t now ip client_mac = any (held_by_other now ip client_mac) t.by_mac

-- `l.expiry > Instant::now()`
abbrev pub is_live : ℕ → ClientLease → Bool
is_live now l = ltb now l.expiry

unfoldable pub evict_expired : LeaseTable → ℕ → LeaseTable
evict_expired t now =
    let live = Map.retain (is_live now) t.by_mac in
    record { by_mac = live; allocated_ips = map (λ e. e.1.ip) live }

-- The table with the expired leases gone, and the first free host address.
unfoldable pub next_available_ip : LeaseTable → ℕ → Ipv4Net → ℕ → LeaseTable × Option ℕ
unfolding is_ip_available
next_available_ip t now net server_ip =
    let t' = evict_expired t now in
    (t', find (λ ip. not (ip == server_ip) && is_ip_available t' ip) net.hosts)
