-- ===== src/Dns/Upstream.antt =====
-- src/services/dns_forwarder.rs, `get_upstream_dns`, over the lease that `run` of
-- src/services/dhcp_client.rs shares: the server that a query goes to.
use rustyrouter.Dns.Answers.{handle_dns_query-forwards}
use rustyrouter.Client.Parse.{DhcpAck}
use rustyrouter.Dns.Cache.{DnsParser}
use rustyrouter.Dns.Forward.{
  get_upstream_dns, fallback_dns_server, Shared, handle_dns_query, sent, first_or,
}
use rustyrouter.Dhcp.{Dhcproto}
use mathlib.Core.List.{Mem}
use rustyrouter.Client.Session.{Attempt, run}
use rustyrouter.Client.Lease.{ClientState, WanLease, lease_of, no_lease}
use rustyrouter.Client.Netlink.{Netlink}
use rustyrouter.Client.Received.{IsReceived, run-Holds}
use rustyrouter.Prelude.{[], ◌∷◌, ◌≡◌, ◌⊎◌, ℕ, List, inl, inr, subst, sym, refl}
use Prim.Native.String.{String}

-- An acknowledgement that the client received in one of the attempts names the server first.
abbrev pub IsLearnt : Dhcproto → List Attempt → ℕ → Type 0
IsLearnt d attempts server =
    (a : Attempt) × Mem a attempts
    × ((ack : DhcpAck) × IsReceived d a ack
        × ((others : List ℕ) × (ack.dns_servers ≡ server ∷ others)))

first_or_cases :
    (servers : List ℕ) (d : ℕ)
    → (first_or servers d ≡ d) ⊎ ((others : List ℕ) × (servers ≡ first_or servers d ∷ others))
first_or_cases [] d = inl refl
first_or_cases (s ∷ rest) d = inr (rest, refl)

get_upstream_dns-run :
    (n : Netlink) (d : Dhcproto) (wan : String) (attempts : List Attempt) (st : ClientState n)
    → st.lease_state ≡ no_lease
    → let server = get_upstream_dns (run n d wan attempts st).lease_state in
      (server ≡ fallback_dns_server) ⊎ IsLearnt d attempts server
unfolding get_upstream_dns no_lease lease_of
get_upstream_dns-run n d wan attempts st start =
    let Holds : WanLease → Type 0 = λ lease.
      (get_upstream_dns lease ≡ fallback_dns_server)
      ⊎ IsLearnt d attempts (get_upstream_dns lease) in
    run-Holds n d wan Holds (inl refl) attempts st
      (λ a m ack received. elim (first_or_cases ack.dns_servers fallback_dns_server) [
        | inl none_named ↦ inl none_named
        | inr named ↦ inr (a, m, (ack, received, named))
      ])
      (subst Holds (sym start) (inl refl))

-- When the client started without a lease, whatever it went through, a query that goes upstream under
-- the lease that it shares goes to 8.8.8.8, or to the server that is named first in an
-- acknowledgement that the client has received under the transaction id of its request.
pub handle_dns_query-run :
    (n : Netlink) (d : Dhcproto) (wan : String) (attempts : List Attempt) (client : ClientState n)
    (parse : DnsParser) (query : List ℕ) (tx fuel : ℕ) (draws : ℕ → ℕ) (now : ℕ) (st : Shared)
    (server xid : ℕ) (packet : List ℕ)
    → client.lease_state ≡ no_lease
    → let lease = (run n d wan attempts client).lease_state in
      (handle_dns_query parse lease query tx (fuel, draws) now st).1 ≡ sent server xid packet
      → (server ≡ fallback_dns_server) ⊎ IsLearnt d attempts server
handle_dns_query-run n d wan attempts client parse query tx fuel draws now st server xid packet
      start h =
    let lease = (run n d wan attempts client).lease_state in
    let (_, _, to, _, _) =
      handle_dns_query-forwards parse lease query tx fuel draws now st server xid packet h in
    subst (λ s. (s ≡ fallback_dns_server) ⊎ IsLearnt d attempts s) (sym to)
      (get_upstream_dns-run n d wan attempts client start)
