-- ===== src/Server/Leasing.antt =====
-- src/services/dhcp_server.rs: what a client gets from the handlers.
use rustyrouter.Server.Index.{evict_expired-InSync}
use rustyrouter.Prelude.Set.{from_secs}
use rustyrouter.Server.Exclusive.{
  next_available_ip-free, get-insert_self, get-insert_ne, get-evict_expired,
}
use rustyrouter.Server.Safety.{HostsInNet}
use rustyrouter.Prelude.Map.{Distinct, Map}
use rustyrouter.Dhcp.{Dhcproto, OptionCode}
use rustyrouter.Server.Replies.{ServerConfig, send_dhcp_nak}
use rustyrouter.Packet.{Pnet}
use rustyrouter.Server.LeaseTable.{
  is_ip_taken_by_other, next_available_ip, held_by_other, get, ClientLease, LeaseTable, insert,
  evict_expired, is_ip_available,
}
use rustyrouter.Server.Handlers.{
  handle_dhcp_request, validate_requested_ip, allocate, requested_ip, lease_from,
}
use rustyrouter.Prelude.{
  find-none, ◌∷◌, [], refl, some, none, true, false, inl, inr, List, any, ℕ, Bool, ◌≡◌, ℕ_discrete,
  arith, ◌<◌, ◌≢◌, ◌⊎◌, ◌+◌, find, Option-cases, not, ap, ◌==◌, ◌&&◌, All, if◌then◌else◌,
}
use rustyrouter.Prelude.Map

any-remove :
    (p : ℕ × ClientLease → Bool) (mac : ℕ) (m : Map ℕ ClientLease)
    → any p m ≡ false
    → any p (Map.remove ℕ_discrete mac m) ≡ false
unfolding any Map.remove
any-remove p mac [] h = refl
any-remove p mac ((j, l) ∷ m) h = ground (arith, any-remove p mac m)

-- A client's own entry is not in its way.
is_ip_taken_by_other-insert :
    (t : LeaseTable) (now ip mac : ℕ) (lease : ClientLease)
    → is_ip_taken_by_other t now ip mac ≡ false
    → is_ip_taken_by_other (insert t mac lease) now ip mac ≡ false
unfolding is_ip_taken_by_other held_by_other insert any Map.insert
is_ip_taken_by_other-insert t now ip mac lease h =
    ground (arith, any-remove (held_by_other now ip mac) mac t.by_mac)

allocate-new :
    (config : ServerConfig) (t : LeaseTable) (mac now later ip : ℕ)
    → get t mac ≡ none
    → (allocate config t mac now later).1 ≡ some ip
    → ((next_available_ip t now config.net config.server_ip).1 ≡ some ip)
      × ((allocate config t mac now later).0
          ≡ insert (evict_expired t now) mac (lease_from ip later))
unfolding allocate next_available_ip
allocate-new config t mac now later ip fresh h =
    elim (Option-cases (next_available_ip t now config.net config.server_ip).1) [
      | inl e ↦ absurd (ground arith)
      | inr (a, e) ↦
          let same : a ≡ ip = ground arith in
          (rw e (ap some same), rw (fresh, allocate) (rw (e, allocate) (rw same refl)))
    ]

-- Where the hosts of the network are in it: a new client that is offered an address and asks for
-- it, before any other packet comes, passes the server's checks at any instant.
pub allocate-valid :
    (config : ServerConfig) (t : LeaseTable) (mac now later asked ip : ℕ)
    → HostsInNet config.net
    → get t mac ≡ none
    → (allocate config t mac now later).1 ≡ some ip
    → validate_requested_ip ip mac config (allocate config t mac now later).0 asked ≡ true
unfolding validate_requested_ip
allocate-valid config t mac now later asked ip hosts fresh h =
    let (found, table) = allocate-new config t mac now later ip fresh h in
    let (free, ne, host) =
      next_available_ip-free t now mac asked config.server_ip ip config.net found in
    let open_ip =
      is_ip_taken_by_other-insert (evict_expired t now) asked ip mac (lease_from ip later) free in
    let inside = hosts ip host in rw table (ground arith)

-- A request for an address that passes the checks leaves the client with that address for an hour
-- from the acknowledgement; other clients keep their entries.
pub handle_dhcp_request-grants :
    (p : Pnet) (d : Dhcproto) (config : ServerConfig) (dhcp : d.Message) (t : LeaseTable)
    (mac now later ip client : ℕ)
    → requested_ip ((d.fields dhcp).opt OptionCode.requested_ip_address) (get t mac) ≡ some ip
    → validate_requested_ip ip mac config t now ≡ true
    → get (handle_dhcp_request p d config dhcp mac t now later).0 client ≡ (
        if client == mac
        then some (record { ip = ip; expiry = later + from_secs 3600 })
        else get t client)
unfolding handle_dhcp_request
handle_dhcp_request-grants p d config dhcp t mac now later ip client asked ok =
    rw (asked, handle_dhcp_request)
      (rw ok (
        ground (
          arith,
          get-insert_self t mac (lease_from ip later),
          get-insert_ne t mac client (lease_from ip later),
        )))

-- A request that fails the checks is answered by a DHCPNAK alone, and the table stays as it was.
pub handle_dhcp_request-refuses :
    (p : Pnet) (d : Dhcproto) (config : ServerConfig) (dhcp : d.Message) (t : LeaseTable)
    (mac now later ip : ℕ)
    → requested_ip ((d.fields dhcp).opt OptionCode.requested_ip_address) (get t mac) ≡ some ip
    → validate_requested_ip ip mac config t now ≡ false
    → handle_dhcp_request p d config dhcp mac t now later ≡ (t, send_dhcp_nak p d dhcp mac config)
unfolding handle_dhcp_request
handle_dhcp_request-refuses p d config dhcp t mac now later ip asked bad =
    rw (asked, handle_dhcp_request) (rw bad refl)

holder_blocks :
    (now ip mac other : ℕ) (l : ClientLease) (m : Map ℕ ClientLease)
    → Map.get ℕ_discrete other m ≡ some l
    → l.ip ≡ ip
    → now < l.expiry
    → other ≢ mac
    → any (held_by_other now ip mac) m ≡ true
unfolding any held_by_other Map.get
holder_blocks now ip mac other l [] g e x n = absurd (ground arith)
holder_blocks now ip mac other l ((j, k) ∷ m) g e x n =
    ground (arith, holder_blocks now ip mac other l m)

-- A client with an entry is offered that entry's address again, expired or not, and nothing changes;
-- if another client holds a live lease on it by now, the server refuses the address it has offered.
pub allocate-stale :
    (config : ServerConfig) (t : LeaseTable) (mac other now later : ℕ) (mine theirs : ClientLease)
    → get t mac ≡ some mine
    → get t other ≡ some theirs
    → theirs.ip ≡ mine.ip
    → now < theirs.expiry
    → other ≢ mac
    → (allocate config t mac now later ≡ (t, some mine.ip))
      × (validate_requested_ip mine.ip mac config t now ≡ false)
unfolding allocate validate_requested_ip is_ip_taken_by_other get
allocate-stale config t mac other now later mine theirs g g' e x n =
    (rw (g, allocate) refl, ground (arith, holder_blocks now mine.ip mac other theirs t.by_mac))

All-any :
    (p : ℕ → Bool) (Q : ℕ → Type 0) (hosts : List ℕ)
    → any p hosts ≡ false
    → ((ip : ℕ) → p ip ≡ false → Q ip)
    → All Q hosts
unfolding any
All-any p Q [] h q = tt
All-any p Q (x ∷ xs) h q = (q x (ground arith), All-any p Q xs (ground arith) q)

-- In a table with one entry for a client at most, a new client gets no address only if every host
-- address is the server's or is on a lease that had not expired when the table was searched.
pub allocate-exhausted :
    (config : ServerConfig) (t : LeaseTable) (mac now later : ℕ)
    → Distinct ℕ_discrete t.by_mac
    → (allocate config t mac now later).1 ≡ none
    → All
        (λ ip.
          (ip ≡ config.server_ip)
          ⊎ ((holder : ℕ) × (l : ClientLease) × (get t holder ≡ some l)
              × (now < l.expiry)
              × (l.ip ≡ ip)))
        config.net.hosts
unfolding allocate next_available_ip
allocate-exhausted config t mac now later d h = elim (Option-cases (get t mac)) [
  | inr (l, e) ↦ absurd (ground arith)
  | inl fresh ↦
      let t' = evict_expired t now in
      let free = λ (ip : ℕ). not (ip == config.server_ip) && is_ip_available t' ip in
      All-any free _ config.net.hosts (find-none free config.net.hosts (no_host fresh)) λ ip taken.
        elim (ℕ_discrete ip config.server_ip) [
          | yes own ↦ inl own
          | no n ↦
              let (holder, l, g, e) = (evict_expired-InSync t now d ip).0 (ground arith) in
              let (g', x) = live_before holder l g in inr (holder, l, g', x, e)
        ]
]
  where
    no_host :
        get t mac ≡ none
        → find
            (λ ip. not (ip == config.server_ip) && is_ip_available (evict_expired t now) ip)
            config.net.hosts
          ≡ none
    no_host fresh = ground arith

    live_before :
        (holder : ℕ) (l : ClientLease)
        → get (evict_expired t now) holder ≡ some l
        → (get t holder ≡ some l) × (now < l.expiry)
    live_before holder l g = ground (arith, get-evict_expired t now holder d)
