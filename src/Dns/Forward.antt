-- ===== src/Dns/Forward.antt =====
-- src/services/dns_forwarder.rs: a client's query from its arrival to the answer, in the two parts that
-- the wait for the upstream response separates.
use rustyrouter.Dns.Pending.{PendingQueries, xid_of, register}
use rustyrouter.Dns.Cache.{
  DnsParser, Cache, insert_cache, dns_header_size, get_cache_key, lookup_cache,
}
use rustyrouter.Client.Lease.{WanLease}
use rustyrouter.Prelude.{
  ℕ, none, some, [], ◌∷◌, List, if◌then◌else◌, set, Option, leb, ltb, ◌/◌, get_or, ◌%◌, length,
}

-- 8.8.8.8
abbrev pub fallback_dns_server : ℕ
fallback_dns_server = 0x08080808

abbrev pub first_or : List ℕ → ℕ → ℕ
first_or [] d = d
first_or (s ∷ rest) d = s

unfoldable pub get_upstream_dns : WanLease → ℕ
get_upstream_dns lease = first_or lease.dns_servers fallback_dns_server

-- `u16::to_be_bytes` written over the first two bytes of a packet.
unfoldable pub with_xid : ℕ → List ℕ → List ℕ
with_xid xid packet = set (set packet 0 (xid / 256 % 256)) 1 (xid % 256)

-- What becomes of a query before any wait: nothing, an answer from the cache, or a packet to the
-- upstream server, with the id under which the query waits.
pub data Started : Type 0 where
  dropped : Started
  answered : List ℕ → Started
  sent : ℕ → ℕ → List ℕ → Started

pub record Shared : Type 0 where
  pub cache : Cache
  pub pending : PendingQueries

-- The answer from the cache carries the query's id.
unfoldable pub answer_from : List ℕ → List ℕ → List ℕ
answer_from query response = set (set response 0 (get_or query 0 0)) 1 (get_or query 1 0)

abbrev pub Draws : Type 0
Draws = ℕ × (ℕ → ℕ)

abbrev pub started : ℕ → List ℕ → Option ℕ → Started
started upstream_dns query none = dropped
started upstream_dns query (some xid) = sent upstream_dns xid (with_xid xid query)

-- `forward_query` up to the send.
unfoldable pub forward_start : List ℕ → ℕ → ℕ → Draws → PendingQueries → PendingQueries × Started
forward_start query upstream_dns tx (fuel, draws) pending =
    if ltb (length query) dns_header_size
    then (pending, dropped)
    else (let (pending', registered) =
          register fuel draws (record { tx = tx; upstream_ip = upstream_dns }) pending in
        (pending', started upstream_dns query registered))

-- `handle_dns_query` up to the send.
unfoldable pub handle_dns_query :
    DnsParser → WanLease → List ℕ → ℕ → Draws → ℕ → Shared → Shared × Started
handle_dns_query parse lease query tx draws now st =
    if ltb (length query) dns_header_size then (st, dropped) else elim (get_cache_key parse query) [
      | none ↦ (st, dropped)
      | some cache_key ↦
          let (cache', hit) = lookup_cache cache_key st.cache now in
          elim hit [
            | some response ↦ (record st { cache = cache' }, answered (answer_from query response))
            | none ↦
                let (pending', started) =
                  forward_start query (get_upstream_dns lease) tx draws st.pending in
                (record { cache = cache'; pending = pending' }, started)
          ]
    ]

-- The response under the client's id, unless it is too short.
unfoldable pub restore_xid : List ℕ → List ℕ → Option (List ℕ)
restore_xid query response =
    if leb dns_header_size (length response) then some (with_xid (xid_of query) response) else none

-- The rest of `handle_dns_query` once the upstream response has been delivered.
unfoldable pub finish_query :
    DnsParser → List ℕ → List ℕ → List ℕ → ℕ → Shared → Shared × Option (List ℕ)
unfolding restore_xid
finish_query parse cache_key query upstream_response now st =
    elim (restore_xid query upstream_response) [
      | none ↦ (st, none)
      | some response ↦
          (record st { cache = insert_cache parse cache_key response st.cache now }, some response)
    ]
