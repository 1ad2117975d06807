-- ===== src/Dns/Delivery.antt =====
-- src/services/dns_forwarder.rs: the way of a query to the upstream server and back to its task.
use rustyrouter.Client.Lease.{WanLease}
use rustyrouter.Dns.Answers.{handle_dns_query-sent}
use rustyrouter.Dns.Cache.{DnsParser}
use rustyrouter.Dns.Forward.{Shared, handle_dns_query, sent}
use rustyrouter.Dns.Pending.{receive_response, xid_of, get_pending}
use rustyrouter.Prelude.{ℕ, List, some, length, ◌≤◌, ◌<◌, ◌≡◌, arith, refl}

-- When a query has gone upstream, with at most 4096 queries waiting before and 16-bit numbers
-- drawn, a response of a header's length or more that comes from that server under the packet's
-- transaction id, before any other response, is delivered to the query's task.
pub receive_response-handle_dns_query :
    (parse : DnsParser) (lease : WanLease) (query : List ℕ) (tx fuel : ℕ) (draws : ℕ → ℕ) (now : ℕ)
    (st : Shared) (server xid : ℕ) (packet response : List ℕ)
    → length st.pending ≤ 4096
    → ((i : ℕ) → draws i < 65536)
    → (handle_dns_query parse lease query tx (fuel, draws) now st).1 ≡ sent server xid packet
    → xid_of response ≡ xid_of packet
    → 12 ≤ length response
    → (receive_response
        (handle_dns_query parse lease query tx (fuel, draws) now st).0.pending
        server
        response).1
      ≡ some (tx, response)
unfolding receive_response
receive_response-handle_dns_query parse lease query tx fuel draws now st server xid packet response
      few range h same long =
    let (_, _, waits, own, _) =
      handle_dns_query-sent parse lease query tx fuel draws now st server xid packet few range h in
    let pending = (handle_dns_query parse lease query tx (fuel, draws) now st).0.pending in
    let found : get_pending (xid_of response) pending ≡ get_pending xid pending =
      rw (same, own) refl in
    ground (arith, found, waits)
