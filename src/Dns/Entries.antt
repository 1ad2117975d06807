-- ===== src/Dns/Entries.antt =====
-- src/services/dns_forwarder.rs: what each operation keeps of the entries of the cache and of the table
-- of waiting queries, for any property of an entry.
use rustyrouter.Client.Lease.{WanLease}
use rustyrouter.Dns.Cache.{
  DnsParser, Cache, CacheEntry, bytes_eq, insert_cache, lookup_cache, cleanup, get_cache_key,
  ttl_of,
}
use rustyrouter.Dns.Forward.{
  Draws, Shared, finish_query, forward_start, get_upstream_dns, handle_dns_query, restore_xid,
}
use rustyrouter.Dns.Pending.{
  PendingQuery, PendingQueries, register, draw_xid, receive_response, give_up, xid_of,
}
use rustyrouter.Prelude.{
  ℕ, List, some, ◌≡◌, refl, inl, inr, Option-cases, Bool-cases, ℕ_discrete, ltb, leb, length, ◌==◌,
}
use rustyrouter.Prelude.Each.{Each, Each-retain, Each-remove, Each-insert}
use rustyrouter.Prelude.Map

module _ (P : List ℕ → CacheEntry → Type 0) where
  pub Each-lookup_cache :
      (key : List ℕ) (cache : Cache) (now : ℕ)
      → Each P cache
      → Each P (lookup_cache key cache now).0
  unfolding lookup_cache
  Each-lookup_cache key cache now h = elim (Option-cases (Map.get bytes_eq key cache)) [
    | inl e ↦ rw (e, lookup_cache) h
    | inr (entry, e) ↦ elim (Bool-cases (ltb now entry.expiry)) [
      | inl fresh ↦ rw (e, fresh, lookup_cache) h
      | inr old ↦ rw (e, old, lookup_cache) (Each-remove bytes_eq P key cache h)
    ]
  ]

  pub Each-insert_cache :
      (parse : DnsParser) (key response : List ℕ) (cache : Cache) (now : ℕ)
      → ((expiry : ℕ) → P key (record { response = response; expiry = expiry }))
      → Each P cache
      → Each P (insert_cache parse key response cache now)
  unfolding insert_cache
  Each-insert_cache parse key response cache now new h =
      elim (Bool-cases (ltb (length response) 12)) [
        | inl short ↦ rw (short, insert_cache) h
        | inr long ↦ elim (Option-cases (parse response)) [
          | inl e ↦ rw (long, e, insert_cache) h
          | inr (packet, e) ↦ elim (Bool-cases (ttl_of packet == 0)) [
            | inl zero ↦ rw (long, e, zero, insert_cache) h
            | inr pos ↦
                rw (long, e, pos, insert_cache) (Each-insert bytes_eq P key _ cache (new _) h)
          ]
        ]
      ]

  pub Each-cleanup : (cache : Cache) (now : ℕ) → Each P cache → Each P (cleanup cache now)
  unfolding cleanup
  Each-cleanup cache now h = Each-retain P _ cache h

  pub Each-finish_query :
      (parse : DnsParser) (key query bytes : List ℕ) (now : ℕ) (st : Shared)
      → ((response : List ℕ) (expiry : ℕ)
          → restore_xid query bytes ≡ some response
          → P key (record { response = response; expiry = expiry }))
      → Each P st.cache
      → Each P (finish_query parse key query bytes now st).0.cache
  unfolding finish_query
  Each-finish_query parse key query bytes now st new h =
      elim (Option-cases (restore_xid query bytes)) [
        | inl e ↦ rw (e, finish_query) h
        | inr (response, e) ↦
            rw (e, finish_query)
              (Each-insert_cache parse key response st.cache now (λ expiry. new response expiry e)
                h)
      ]

pub finish_query-pending :
    (parse : DnsParser) (key query bytes : List ℕ) (now : ℕ) (st : Shared)
    → (finish_query parse key query bytes now st).0.pending ≡ st.pending
unfolding finish_query
finish_query-pending parse key query bytes now st = elim (Option-cases (restore_xid query bytes)) [
  | inl e ↦ rw (e, finish_query) refl
  | inr (response, e) ↦ rw (e, finish_query) refl
]

module _ (Q : ℕ → PendingQuery → Type 0) where
  Each-register :
      (fuel : ℕ) (draws : ℕ → ℕ) (query : PendingQuery) (pending : PendingQueries)
      → ((xid : ℕ) → Q xid query)
      → Each Q pending
      → Each Q (register fuel draws query pending).0
  unfolding register
  Each-register fuel draws query pending new h = elim (Bool-cases (leb 4096 (length pending))) [
    | inl full ↦ rw (full, register) h
    | inr room ↦ elim (Option-cases (draw_xid fuel draws 0 pending)) [
      | inl e ↦ rw (room, e, register) h
      | inr (xid, e) ↦
          rw (room, e, register) (Each-insert ℕ_discrete Q xid query pending (new xid) h)
    ]
  ]

  Each-forward_start :
      (query : List ℕ) (upstream_dns tx : ℕ) (draws : Draws) (pending : PendingQueries)
      → ((xid : ℕ) → Q xid (record { tx = tx; upstream_ip = upstream_dns }))
      → Each Q pending
      → Each Q (forward_start query upstream_dns tx draws pending).0
  unfolding forward_start
  Each-forward_start query upstream_dns tx (fuel, draws) pending new h =
      elim (Bool-cases (ltb (length query) 12)) [
        | inl short ↦ rw (short, forward_start) h
        | inr long ↦ rw (long, forward_start) (Each-register fuel draws _ pending new h)
      ]

  pub Each-receive_response :
      (pending : PendingQueries) (from : ℕ) (bytes : List ℕ)
      → Each Q pending
      → Each Q (receive_response pending from bytes).0
  unfolding receive_response
  Each-receive_response pending from bytes h = elim (Bool-cases (ltb (length bytes) 12)) [
    | inl short ↦ rw (short, receive_response) h
    | inr long ↦ rw (long, receive_response) (Each-remove ℕ_discrete Q (xid_of bytes) pending h)
  ]

  pub Each-give_up :
      (xid : ℕ) (pending : PendingQueries) → Each Q pending → Each Q (give_up xid pending)
  unfolding give_up
  Each-give_up xid pending h = Each-remove ℕ_discrete Q xid pending h

module _ (P : List ℕ → CacheEntry → Type 0) (Q : ℕ → PendingQuery → Type 0) where
  pub Each-handle_dns_query :
      (parse : DnsParser) (lease : WanLease) (query : List ℕ) (tx : ℕ) (draws : Draws) (now : ℕ)
      (st : Shared)
      → ((xid : ℕ) → Q xid (record { tx = tx; upstream_ip = get_upstream_dns lease }))
      → Each P st.cache
      → Each Q st.pending
      → Each P (handle_dns_query parse lease query tx draws now st).0.cache
        × Each Q (handle_dns_query parse lease query tx draws now st).0.pending
  unfolding handle_dns_query
  Each-handle_dns_query parse lease query tx draws now st new h w =
      elim (Bool-cases (ltb (length query) 12)) [
        | inl short ↦ rw (short, handle_dns_query) (h, w)
        | inr long ↦ elim (Option-cases (get_cache_key parse query)) [
          | inl e ↦ rw (long, e, handle_dns_query) (h, w)
          | inr (key, e) ↦
              let kept = Each-lookup_cache P key st.cache now h in
              elim (Option-cases (lookup_cache key st.cache now).1) [
                | inr (response, hit) ↦ rw (long, e, hit, handle_dns_query) (kept, w)
                | inl miss ↦
                    rw (long, e, miss, handle_dns_query)
                      (
                        kept,
                        Each-forward_start Q query (get_upstream_dns lease) tx draws st.pending new
                            w,
                      )
              ]
        ]
      ]
