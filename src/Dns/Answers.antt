-- ===== src/Dns/Answers.antt =====
-- src/services/dns_forwarder.rs: what clients and the upstream server get.
use rustyrouter.Client.Lease.{WanLease}
use rustyrouter.Dns.Pending.{
  xid_of, get_pending, PendingQuery, PendingQueries, register_lem, register, register-lt,
}
use rustyrouter.Dns.Cache.{DnsParser, insert_cache, get_cache_key, lookup_cache}
use rustyrouter.Dns.Forward.{
  with_xid, handle_dns_query, finish_query, restore_xid, Shared, sent, get_upstream_dns,
  forward_start, first_or, fallback_dns_server,
}
use rustyrouter.Prelude.{
  ℕ, none, some, [], ◌∷◌, refl, zero, suc, inl, inr, List, set, get_or, length, ◌<◌, get_elem?, ◌≤◌,
  arith, ◌≡◌, ◌*◌, le→leb, ◌+◌, ◌/◌, ◌%◌, ap, Option-cases, subst, sym,
}

-- The packet is the other one but for its first two bytes.
abbrev pub SameBody : List ℕ → List ℕ → Type 0
SameBody a b = (length a ≡ length b) × ((i : ℕ) → 2 ≤ i → get_elem? a i ≡ get_elem? b i)

-- The packet carries the transaction id of the other one.
abbrev pub SameXid : List ℕ → List ℕ → Type 0
SameXid a b = (get_elem? a 0 ≡ get_elem? b 0) × (get_elem? a 1 ≡ get_elem? b 1)

-- Both bytes of the transaction id are bytes.
abbrev pub XidBytes : List ℕ → Type 0
XidBytes query = (get_or query 0 0 < 256) × (get_or query 1 0 < 256)

write_two-SameBody : (packet : List ℕ) (a b : ℕ) → SameBody (set (set packet 0 a) 1 b) packet
write_two-SameBody [] a b = (refl, λ i h. refl)
write_two-SameBody (x ∷ []) a b = (refl, λ i h. one i h)
  where
    one : (i : ℕ) → 2 ≤ i → get_elem? (a ∷ []) i ≡ get_elem? (x ∷ []) i
    one zero h = absurd (omega arith)
    one (suc i) h = refl
write_two-SameBody (x ∷ y ∷ packet) a b = (refl, λ i h. two i h)
  where
    two : (i : ℕ) → 2 ≤ i → get_elem? (a ∷ b ∷ packet) i ≡ get_elem? (x ∷ y ∷ packet) i
    two zero h = absurd (omega arith)
    two (suc zero) h = absurd (omega arith)
    two (suc (suc i)) h = refl

write_own-SameXid :
    (query packet : List ℕ)
    → 2 ≤ length query
    → 2 ≤ length packet
    → SameXid (set (set packet 0 (get_or query 0 0)) 1 (get_or query 1 0)) query
write_own-SameXid (p ∷ q ∷ query) (x ∷ y ∷ packet) h k = (refl, refl)
write_own-SameXid [] packet h k = absurd (omega arith)
write_own-SameXid (p ∷ []) packet h k = absurd (omega arith)
write_own-SameXid (p ∷ q ∷ query) [] h k = absurd (omega arith)
write_own-SameXid (p ∷ q ∷ query) (x ∷ []) h k = absurd (omega arith)

with_xid-own :
    (query packet : List ℕ)
    → XidBytes query
    → with_xid (xid_of query) packet ≡ set (set packet 0 (get_or query 0 0)) 1 (get_or query 1 0)
unfolding with_xid
with_xid-own query packet (h, k) =
    let a = get_or query 0 0 in
    let b = get_or query 1 0 in
    let hi : (a * 256 + b) / 256 % 256 ≡ a = omega arith in
    let lo : (a * 256 + b) % 256 ≡ b = omega arith in rw (hi, lo) refl

xid_of-with_xid :
    (xid : ℕ) (packet : List ℕ)
    → xid < 65536
    → 2 ≤ length packet
    → xid_of (with_xid xid packet) ≡ xid
unfolding with_xid
xid_of-with_xid xid (x ∷ y ∷ packet) h k = omega arith
xid_of-with_xid xid [] h k = absurd (omega arith)
xid_of-with_xid xid (x ∷ []) h k = absurd (omega arith)

restore_xid-long :
    (query response : List ℕ)
    → 12 ≤ length response
    → XidBytes query
    → restore_xid query response
      ≡ some (set (set response 0 (get_or query 0 0)) 1 (get_or query 1 0))
unfolding restore_xid
restore_xid-long query response h bytes =
    rw (le→leb 12 (length response) h) (ap some (with_xid-own query response bytes))

-- An upstream response of a header's length or more, to a query of that length or more made of
-- bytes, is sent to the client under the client's own transaction id and otherwise unchanged, and
-- what is stored is what is sent.
pub finish_query-answers :
    (parse : DnsParser) (key query response : List ℕ) (now : ℕ) (st : Shared)
    → 12 ≤ length query
    → XidBytes query
    → 12 ≤ length response
    → (answer : List ℕ) × (finish_query parse key query response now st
        ≡ (record st { cache = insert_cache parse key answer st.cache now }, some answer))
      × SameXid answer query
      × SameBody answer response
unfolding finish_query
finish_query-answers parse key query response now st long bytes h = (
  set (set response 0 (get_or query 0 0)) 1 (get_or query 1 0),
  rw (restore_xid-long query response h bytes, finish_query) refl,
  write_own-SameXid query response (omega arith) (omega arith),
  write_two-SameBody response (get_or query 0 0) (get_or query 1 0),
)

forward_start-sent :
    (query : List ℕ) (up tx fuel : ℕ) (draws : ℕ → ℕ) (pending : PendingQueries) (server xid : ℕ)
    (packet : List ℕ)
    → (forward_start query up tx (fuel, draws) pending).1 ≡ sent server xid packet
    → let new_query : PendingQuery = record { tx = tx; upstream_ip = up } in
      (12 ≤ length query)
      × ((register fuel draws new_query pending).1 ≡ some xid)
      × (server ≡ up)
      × (packet ≡ with_xid xid query)
      × ((forward_start query up tx (fuel, draws) pending).0
          ≡ (register fuel draws new_query pending).0)
unfolding forward_start
forward_start-sent query up tx fuel draws pending server xid packet h =
    let new_query : PendingQuery = record { tx = tx; upstream_ip = up } in
    elim (Option-cases (register fuel draws new_query pending).1) [
      | inl e ↦ absurd (ground arith)
      | inr (x, e) ↦ (ground arith, ground arith, ground arith, ground arith, ground arith)
    ]

pub handle_dns_query-forwards :
    (parse : DnsParser) (lease : WanLease) (query : List ℕ) (tx fuel : ℕ) (draws : ℕ → ℕ) (now : ℕ)
    (st : Shared) (server xid : ℕ) (packet : List ℕ)
    → (handle_dns_query parse lease query tx (fuel, draws) now st).1 ≡ sent server xid packet
    → let new_query : PendingQuery = record { tx = tx; upstream_ip = get_upstream_dns lease } in
      (12 ≤ length query)
      × ((register fuel draws new_query st.pending).1 ≡ some xid)
      × (server ≡ get_upstream_dns lease)
      × (packet ≡ with_xid xid query)
      × ((handle_dns_query parse lease query tx (fuel, draws) now st).0.pending
          ≡ (register fuel draws new_query st.pending).0)
unfolding handle_dns_query
handle_dns_query-forwards parse lease query tx fuel draws now st server xid packet h =
    elim (Option-cases (get_cache_key parse query)) [
      | inl e ↦ absurd (ground arith)
      | inr (key, e) ↦ elim (Option-cases (lookup_cache key st.cache now).1) [
        | inr (r, hit) ↦ absurd (ground arith)
        | inl miss ↦
            let up = get_upstream_dns lease in
            let (a, b, c, p, t) =
              forward_start-sent query up tx fuel draws st.pending server xid packet
                (ground arith) in
            (a, b, c, p, ground arith)
      ]
    ]

-- The server is the first of the list, or 8.8.8.8 if the list is empty.
abbrev pub IsFirst : ℕ → List ℕ → Type 0
IsFirst server [] = server ≡ 0x08080808
IsFirst server (first ∷ others) = server ≡ first

get_upstream_dns-IsFirst : (lease : WanLease) → IsFirst (get_upstream_dns lease) lease.dns_servers
unfolding get_upstream_dns
get_upstream_dns-IsFirst lease = go lease.dns_servers
  where
    go : (servers : List ℕ) → IsFirst (first_or servers fallback_dns_server) servers
    go [] = refl
    go (s ∷ rest) = refl

-- With at most 4096 queries waiting and 16-bit numbers drawn, a query that goes upstream goes to
-- the first DNS server of the lease, or to 8.8.8.8 if it names none, under an id that no waiting query had and that now leads
-- back to the task, and is otherwise unchanged.
pub handle_dns_query-sent :
    (parse : DnsParser) (lease : WanLease) (query : List ℕ) (tx fuel : ℕ) (draws : ℕ → ℕ) (now : ℕ)
    (st : Shared) (server xid : ℕ) (packet : List ℕ)
    → length st.pending ≤ 4096
    → ((i : ℕ) → draws i < 65536)
    → (handle_dns_query parse lease query tx (fuel, draws) now st).1 ≡ sent server xid packet
    → let st' = (handle_dns_query parse lease query tx (fuel, draws) now st).0 in
      IsFirst server lease.dns_servers
      × (get_pending xid st.pending ≡ none)
      × (get_pending xid st'.pending ≡ some (record { tx = tx; upstream_ip = server }))
      × (xid_of packet ≡ xid)
      × SameBody packet query
handle_dns_query-sent parse lease query tx fuel draws now st server xid packet few range h =
    let (long, found, to, same, table) =
      handle_dns_query-forwards parse lease query tx fuel draws now st server xid packet h in
    let new_query : PendingQuery = record { tx = tx; upstream_ip = get_upstream_dns lease } in
    let (_, _, entry) = register_lem fuel draws new_query st.pending few in
    let (free, waits, _) = entry xid found in
    let small = register-lt fuel draws new_query st.pending 65536 xid range found in
    (
      subst (λ s. IsFirst s lease.dns_servers) (sym to) (get_upstream_dns-IsFirst lease),
      free,
      rw (table, to) waits,
      rw same (xid_of-with_xid xid query small (omega arith)),
      rw same (unfold with_xid in write_two-SameBody query _ _),
    )
