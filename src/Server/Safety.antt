-- ===== src/Server/Safety.antt =====
-- src/services/dhcp_server.rs: what every sequence of packets leaves true of the lease table.
use rustyrouter.Dhcp.{Dhcproto, MessageType, OptionCode}
use rustyrouter.Packet.{Pnet, RawPacket}
use rustyrouter.Prelude.{
  subst, ℕ, ◌≡◌, ◌≢◌, ◌≤◌, true, false, some, List, ℕ_discrete, arith, Option-cases, Bool-cases,
  inl, inr,
}
use mathlib.Core.List.{Mem}
use rustyrouter.Prelude.Map
use rustyrouter.Prelude.Map.{Distinct}
use rustyrouter.Server.LeaseTable.{
  ClientLease, LeaseTable, Ipv4Net, new, get, insert, remove, is_ip_taken_by_other, is_live,
  evict_expired, next_available_ip,
}
use rustyrouter.Server.Exclusive.{
  Exclusive, Within, Exclusive-mono, insert-Exclusive, remove-Exclusive, evict_expired-Exclusive,
  next_available_ip-free, remove-Distinct, get_of_remove, get_of_evict, get_of_insert,
}
use rustyrouter.Server.Replies.{ServerConfig}
use rustyrouter.Server.Handlers.{
  lease_from, allocate, validate_requested_ip, requested_ip, handle_dhcp_discover,
  handle_dhcp_request, handle_dhcp_decline, handle_dhcp_release, dispatch, Checked, check_packet,
  after_checks, process_incoming_packet,
}

-- An address that a client may be given: in the network, and not the server's own.
abbrev pub IsUsable : ServerConfig → ℕ → Type 0
IsUsable config ip = (ip ≢ config.server_ip) × (config.net.contains ip ≡ true)

-- `ipnet`: the host addresses of a network are in it.
abbrev pub HostsInNet : Ipv4Net → Type 0
HostsInNet net = (ip : ℕ) → Mem ip net.hosts → net.contains ip ≡ true

pub record IsSafe (config : ServerConfig) (now : ℕ) (t : LeaseTable) : Type 0 where
  pub distinct : Distinct ℕ_discrete t.by_mac
  pub exclusive : Exclusive now t
  pub usable : Within (IsUsable config) t

pub IsSafe-mono :
    (config : ServerConfig) (now later : ℕ) (t : LeaseTable)
    → now ≤ later
    → IsSafe config now t
    → IsSafe config later t
IsSafe-mono config now later t h s = record {
  distinct = s.distinct;
  exclusive = Exclusive-mono now later t h s.exclusive;
  usable = s.usable;
}

pub new-IsSafe : (config : ServerConfig) (now : ℕ) → IsSafe config now new
unfolding new get Map.get
new-IsSafe config now = record {
  distinct = tt;
  exclusive = λ m m' l l' g. absurd (ground arith);
  usable = λ m l g. absurd (ground arith);
}

insert-IsSafe :
    (config : ServerConfig) (now mac : ℕ) (lease : ClientLease) (t : LeaseTable)
    → is_ip_taken_by_other t now lease.ip mac ≡ false
    → IsUsable config lease.ip
    → IsSafe config now t
    → IsSafe config now (insert t mac lease)
insert-IsSafe config now mac lease t free u s = record {
  distinct = unfold insert in Map.insert-Distinct ℕ_discrete mac lease t.by_mac s.distinct;
  exclusive = insert-Exclusive t now mac lease s.exclusive free;
  usable = get_of_insert (IsUsable config) t mac lease u s.usable;
}

remove-IsSafe :
    (config : ServerConfig) (now mac : ℕ) (t : LeaseTable)
    → IsSafe config now t
    → IsSafe config now (remove t mac).0
remove-IsSafe config now mac t s = record {
  distinct = remove-Distinct t mac s.distinct;
  exclusive = remove-Exclusive t now mac s.exclusive;
  usable = λ m l g. s.usable m l (get_of_remove t mac m l g);
}

evict_expired-IsSafe :
    (config : ServerConfig) (now : ℕ) (t : LeaseTable)
    → IsSafe config now t
    → IsSafe config now (evict_expired t now)
evict_expired-IsSafe config now t s = record {
  distinct =
      unfold evict_expired in Map.retain-Distinct ℕ_discrete (is_live now) t.by_mac s.distinct;
  exclusive = evict_expired-Exclusive t now s.distinct s.exclusive;
  usable = λ m l g. s.usable m l (get_of_evict t now m l s.distinct g);
}

validated :
    (config : ServerConfig) (t : LeaseTable) (ip mac now : ℕ)
    → validate_requested_ip ip mac config t now ≡ true
    → (is_ip_taken_by_other t now ip mac ≡ false) × IsUsable config ip
unfolding validate_requested_ip
validated config t ip mac now h = (ground arith, (ground arith, ground arith))

module _ (config : ServerConfig) (hosts_in_net : HostsInNet config.net) where
  allocate-IsSafe :
      (t : LeaseTable) (mac now later : ℕ)
      → IsSafe config now t
      → IsSafe config now (allocate config t mac now later).0
  unfolding allocate next_available_ip
  allocate-IsSafe t mac now later s = elim (Option-cases (get t mac)) [
    | inr (l, e) ↦ rw (e, allocate) s
    | inl e ↦
        let evicted = evict_expired-IsSafe config now t s in
        elim (Option-cases (next_available_ip t now config.net config.server_ip).1) [
          | inl f ↦ rw (e, allocate) (rw (f, allocate) evicted)
          | inr (ip, f) ↦
              let (free, ne, host) =
                next_available_ip-free t now mac now config.server_ip ip config.net f in
              rw (e, allocate)
                (rw (f, allocate)
                  (insert-IsSafe config now mac (lease_from ip later) (evict_expired t now) free
                    (ne, hosts_in_net ip host) evicted))
        ]
  ]

  request-IsSafe :
      (p : Pnet) (d : Dhcproto) (dhcp : d.Message) (t : LeaseTable) (mac now later : ℕ)
      → IsSafe config now t
      → IsSafe config now (handle_dhcp_request p d config dhcp mac t now later).0
  unfolding handle_dhcp_request
  request-IsSafe p d dhcp t mac now later s =
      elim (Option-cases
        (requested_ip ((d.fields dhcp).opt OptionCode.requested_ip_address) (get t mac))) [
          | inl e ↦ rw (e, handle_dhcp_request) s
          | inr (ip, e) ↦ elim (Bool-cases (validate_requested_ip ip mac config t now)) [
            | inl ok ↦
                let (free, usable) = validated config t ip mac now ok in
                rw (e, handle_dhcp_request)
                  (rw ok (insert-IsSafe config now mac (lease_from ip later) t free usable s))
            | inr bad ↦ rw (e, handle_dhcp_request) (rw bad s)
          ]
        ]

  discover-IsSafe :
      (p : Pnet) (d : Dhcproto) (dhcp : d.Message) (t : LeaseTable) (mac now later : ℕ)
      → IsSafe config now t
      → IsSafe config now (handle_dhcp_discover p d config dhcp mac t now later).0
  unfolding handle_dhcp_discover
  discover-IsSafe p d dhcp t mac now later s =
      let safe = allocate-IsSafe t mac now later s in
      elim (Option-cases (allocate config t mac now later).1) [
        | inl e ↦ rw (e, handle_dhcp_discover) safe
        | inr (ip, e) ↦ rw (e, handle_dhcp_discover) safe
      ]

  dispatch-IsSafe :
      (p : Pnet) (d : Dhcproto) (mtype : MessageType) (dhcp : d.Message) (t : LeaseTable)
      (mac now later : ℕ)
      → IsSafe config now t
      → IsSafe config now (dispatch p d mtype config dhcp mac t now later).0
  unfolding dispatch handle_dhcp_decline handle_dhcp_release
  dispatch-IsSafe p d MessageType.discover dhcp t mac now later s =
      discover-IsSafe p d dhcp t mac now later s
  dispatch-IsSafe p d MessageType.request dhcp t mac now later s =
      request-IsSafe p d dhcp t mac now later s
  dispatch-IsSafe p d MessageType.decline dhcp t mac now later s = remove-IsSafe config now mac t s
  dispatch-IsSafe p d MessageType.release dhcp t mac now later s = remove-IsSafe config now mac t s
  dispatch-IsSafe p d _ dhcp t mac now later s = s

  after_checks-IsSafe :
      (p : Pnet) (d : Dhcproto) (c : Checked p d) (t : LeaseTable) (now later : ℕ)
      (after : LeaseTable × List RawPacket)
      → IsSafe config now t
      → after_checks p d c config t now later ≡ some after
      → IsSafe config now after.0
  unfolding after_checks
  after_checks-IsSafe p d Checked.dropped t now later after s h =
      let e : t ≡ after.0 = ground arith in subst (IsSafe config now) e s
  after_checks-IsSafe p d Checked.panicked t now later after s h = absurd (ground arith)
  after_checks-IsSafe p d (Checked.accepted mtype dhcp mac) t now later after s h =
      let e : (dispatch p d mtype config dhcp mac t now later).0 ≡ after.0 = ground arith in
      subst (IsSafe config now) e (dispatch-IsSafe p d mtype dhcp t mac now later s)

  -- A packet, whatever it holds, keeps the table safe.
  pub process_incoming_packet-IsSafe :
      (p : Pnet) (d : Dhcproto) (frame : List ℕ) (t : LeaseTable) (now later : ℕ)
      (after : LeaseTable × List RawPacket)
      → IsSafe config now t
      → process_incoming_packet p d frame config t now later ≡ some after
      → IsSafe config now after.0
  unfolding process_incoming_packet
  process_incoming_packet-IsSafe p d frame t now later after s h =
      after_checks-IsSafe p d (check_packet p d frame) t now later after s h
