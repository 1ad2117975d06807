-- ===== src/Dns/Provenance.antt =====
-- src/services/dns_forwarder.rs: where the responses in the cache come from.
use rustyrouter.Client.Lease.{WanLease}
use mathlib.Core.Option.{some_inj}
use rustyrouter.Dns.Cache.{DnsParser, Cache, CacheEntry, bytes_eq, lookup_cache, get_cache_key}
use rustyrouter.Dns.Forward.{Draws, get_upstream_dns, restore_xid}
use rustyrouter.Dns.Pending.{PendingQuery, receive_response, receive_response-delivers}
use rustyrouter.Dns.Entries.{
  Each-finish_query, finish_query-pending, Each-receive_response, Each-give_up,
  Each-handle_dns_query, Each-cleanup,
}
use rustyrouter.Prelude.{
  ℕ, List, [], ◌∷◌, some, ◌≡◌, refl, arith, inl, inr, Option-cases, ℕ_discrete, ◌<◌, ◌≢◌, subst,
  sym, ◌∙◌, if_neg, if_pos,
}
use rustyrouter.Prelude.Each.{Each, Each-mono, Each-get}
use rustyrouter.Prelude.Map
use rustyrouter.Prelude.Map.{Map}
use rustyrouter.Dns.Running.{
  Asked, Running, asked_at, IsAmong, on_packet, on_expiry, on_cleanup, idle, on_client, on_answer,
  Reachable,
}

module _ (parse : DnsParser) where
  -- Some packet came from the server that a query of the key was for, and with the id of the query's
  -- client it is the response.
  pub record IsGenuine (all_asked : Map ℕ Asked) (received : List (ℕ × List ℕ))
      (key response : List ℕ) : Type 0 where
    pub tx : ℕ
    pub a : Asked
    pub bytes : List ℕ
    pub asked : asked_at tx all_asked ≡ some a
    pub asks_key : get_cache_key parse a.query ≡ some key
    pub came : IsAmong (a.upstream_ip, bytes) received
    pub restored : restore_xid a.query bytes ≡ some response

  -- Which query a channel belongs to, and that its response came from the query's server.
  abbrev IsWaiting : Map ℕ Asked → ℕ → PendingQuery → Type 0
  IsWaiting asked xid q =
      (a : Asked) × (asked_at q.tx asked ≡ some a) × (a.upstream_ip ≡ q.upstream_ip)

  abbrev IsMailed : Map ℕ Asked → List (ℕ × List ℕ) → ℕ → List ℕ → Type 0
  IsMailed asked received tx bytes =
      (a : Asked) × (asked_at tx asked ≡ some a) × IsAmong (a.upstream_ip, bytes) received

  abbrev IsCached : Map ℕ Asked → List (ℕ × List ℕ) → List ℕ → CacheEntry → Type 0
  IsCached asked received key e = IsGenuine asked received key e.response

  record IsTraced (st : Running) : Type 0 where
    young : Each (λ tx a. tx < st.next_tx) st.asked
    waiting : Each (IsWaiting st.asked) st.shared.pending
    mailed : Each (IsMailed st.asked st.received) st.inbox
    cached : Each (IsCached st.asked st.received) st.shared.cache

  idle-IsTraced : IsTraced idle
  idle-IsTraced = record { young = tt; waiting = tt; mailed = tt; cached = tt }

  on_expiry-IsTraced : (xid : ℕ) (st : Running) → IsTraced st → IsTraced (on_expiry xid st)
  unfolding on_expiry
  on_expiry-IsTraced xid st t = record {
    young = t.young;
    waiting = Each-give_up _ xid st.shared.pending t.waiting;
    mailed = t.mailed;
    cached = t.cached;
  }

  on_cleanup-IsTraced : (now : ℕ) (st : Running) → IsTraced st → IsTraced (on_cleanup now st)
  unfolding on_cleanup
  on_cleanup-IsTraced now st t = record {
    young = t.young;
    waiting = t.waiting;
    mailed = t.mailed;
    cached = Each-cleanup _ st.shared.cache now t.cached;
  }

  mail_of :
      (P : ℕ → List ℕ → Type 0) (tx : ℕ) (bytes : List ℕ) (inbox : Map ℕ (List ℕ))
      → Each P inbox
      → IsAmong (tx, bytes) inbox
      → P tx bytes
  mail_of P tx bytes [] h m = absurd m
  mail_of P tx bytes (x ∷ inbox) h (inl e) = subst (λ y. P y.0 y.1) (sym e) h.0
  mail_of P tx bytes (x ∷ inbox) h (inr m) = mail_of P tx bytes inbox h.1 m

  on_answer-IsTraced :
      (tx : ℕ) (a : Asked) (key bytes : List ℕ) (now : ℕ) (st : Running)
      → asked_at tx st.asked ≡ some a
      → get_cache_key parse a.query ≡ some key
      → IsAmong (tx, bytes) st.inbox
      → IsTraced st
      → IsTraced (on_answer parse key a.query bytes now st)
  unfolding on_answer
  on_answer-IsTraced tx a key bytes now st asked asks_key m t =
      let (a', asked', came) = mail_of _ tx bytes st.inbox t.mailed m in
      let same : a' ≡ a = some_inj.0 (sym asked' ∙ asked) in
      record {
        young = t.young;
        waiting =
            subst (Each (IsWaiting st.asked))
              (sym (finish_query-pending parse key a.query bytes now st.shared)) t.waiting;
        mailed = t.mailed;
        cached =
            Each-finish_query _ parse key a.query bytes now st.shared
              (λ response expiry e. record {
                tx = tx;
                a = a;
                bytes = bytes;
                asked = asked;
                asks_key = asks_key;
                came = subst (λ b. IsAmong (b.upstream_ip, bytes) st.received) same came;
                restored = e;
              })
              t.cached;
      }

  -- With more received, what holds of the channels and of the cache still does.
  received-IsMailed :
      (asked : Map ℕ Asked) (received : List (ℕ × List ℕ)) (x : ℕ × List ℕ) (inbox : Map ℕ (List ℕ))
      → Each (IsMailed asked received) inbox
      → Each (IsMailed asked (x ∷ received)) inbox
  received-IsMailed asked received x inbox = Each-mono _ _ inbox (λ tx bytes i. (i.0, i.1, inr i.2))

  received-IsCached :
      (asked : Map ℕ Asked) (received : List (ℕ × List ℕ)) (x : ℕ × List ℕ) (cache : Cache)
      → Each (IsCached asked received) cache
      → Each (IsCached asked (x ∷ received)) cache
  received-IsCached asked received x cache = Each-mono _ _ cache (λ key e i. record {
    tx = i.tx;
    a = i.a;
    bytes = i.bytes;
    asked = i.asked;
    asks_key = i.asks_key;
    came = inr i.came;
    restored = i.restored;
  })

  on_packet-IsTraced :
      (from : ℕ) (bytes : List ℕ) (st : Running) → IsTraced st → IsTraced (on_packet from bytes st)
  unfolding on_packet
  on_packet-IsTraced from bytes st t = record {
    young = t.young;
    waiting = Each-receive_response _ st.shared.pending from bytes t.waiting;
    mailed =
        let before = received-IsMailed st.asked st.received (from, bytes) st.inbox t.mailed in
        elim (Option-cases (receive_response st.shared.pending from bytes).1) [
          | inl e ↦ rw e before
          | inr ((tx, payload), e) ↦
              let (had, same, _, _) =
                receive_response-delivers st.shared.pending from tx bytes payload e in
              let (a, asked, at) = Each-get ℕ_discrete _ _ _ st.shared.pending t.waiting had in
              rw e ((a, asked, inl (ground arith)), before)
        ];
    cached = received-IsCached st.asked st.received (from, bytes) st.shared.cache t.cached;
  }

  -- A query asked anew takes no other's place.
  asked_before :
      (st : Running) (new : Asked) (tx : ℕ) (a : Asked)
      → Each (λ tx a. tx < st.next_tx) st.asked
      → asked_at tx st.asked ≡ some a
      → asked_at tx ((st.next_tx, new) ∷ st.asked) ≡ some a
  unfolding Map.get
  asked_before st new tx a young e =
      let lt = Each-get ℕ_discrete (λ tx a. tx < st.next_tx) tx a st.asked young e in
      let other : st.next_tx ≢ tx = λ same. ground arith in
      if_neg (ℕ_discrete st.next_tx tx) other (some new) (asked_at tx st.asked) ∙ e

  asked_now : (n : ℕ) (new : Asked) (asked : Map ℕ Asked) → asked_at n ((n, new) ∷ asked) ≡ some new
  unfolding Map.get
  asked_now n new asked = if_pos (ℕ_discrete n n) refl (some new) (asked_at n asked)

  on_client-IsTraced :
      (lease : WanLease) (query : List ℕ) (draws : Draws) (now : ℕ) (st : Running)
      → IsTraced st
      → IsTraced (on_client parse lease query draws now st)
  unfolding on_client
  on_client-IsTraced lease query draws now st t =
      let new : Asked = record { query = query; upstream_ip = get_upstream_dns lease } in
      let still = λ (tx : ℕ) (a : Asked) (e : asked_at tx st.asked ≡ some a).
        asked_before st new tx a t.young e in
      let asked : Map ℕ Asked = (st.next_tx, new) ∷ st.asked in
      let (cache, pending) =
        Each-handle_dns_query (IsCached asked st.received) (IsWaiting asked) parse lease query
          st.next_tx draws now st.shared (λ xid. (new, asked_now st.next_tx new st.asked, refl))
          (Each-mono _ _ st.shared.cache
            (λ key e i. record {
              tx = i.tx;
              a = i.a;
              bytes = i.bytes;
              asked = still i.tx i.a i.asked;
              asks_key = i.asks_key;
              came = i.came;
              restored = i.restored;
            })
            t.cached)
          (Each-mono _ _ st.shared.pending (λ xid q i. (i.0, still q.tx i.0 i.1, i.2)) t.waiting) in
      record {
        young =
            (omega arith, Each-mono _ _ st.asked (λ tx a lt. let le = lt in omega arith) t.young);
        waiting = pending;
        mailed = Each-mono _ _ st.inbox (λ tx bytes i. (i.0, still tx i.0 i.1, i.2)) t.mailed;
        cached = cache;
      }

  Reachable-IsTraced : {st : Running} → Reachable parse st → IsTraced st
  Reachable-IsTraced Reachable.at_idle = idle-IsTraced
  Reachable-IsTraced (Reachable.client lease query draws now r) =
      on_client-IsTraced lease query draws now _ (Reachable-IsTraced r)
  Reachable-IsTraced (Reachable.packet from bytes r) =
      on_packet-IsTraced from bytes _ (Reachable-IsTraced r)
  Reachable-IsTraced (Reachable.answer tx a key bytes now asked asks m r) =
      on_answer-IsTraced tx a key bytes now _ asked asks m (Reachable-IsTraced r)
  Reachable-IsTraced (Reachable.expiry xid r) = on_expiry-IsTraced xid _ (Reachable-IsTraced r)
  Reachable-IsTraced (Reachable.tidy now r) = on_cleanup-IsTraced now _ (Reachable-IsTraced r)

  -- However the tasks take turns, and whoever sends packets to the forwarder: what the cache answers for
  -- a key is what a packet came with from the very address that some client's query of this key was for,
  -- under that client's transaction id.
  pub lookup_cache-IsGenuine :
      (st : Running) (key response : List ℕ) (now : ℕ)
      → Reachable parse st
      → (lookup_cache key st.shared.cache now).1 ≡ some response
      → IsGenuine st.asked st.received key response
  unfolding lookup_cache
  lookup_cache-IsGenuine st key response now r h =
      let t = Reachable-IsTraced r in
      elim (Option-cases (Map.get bytes_eq key st.shared.cache)) [
        | inl e ↦ absurd (let h' = rw (e, lookup_cache) at h in ground arith)
        | inr (entry, e) ↦
            let found = Each-get bytes_eq _ key entry st.shared.cache t.cached e in
            let same : entry.response ≡ response = ground arith in
            subst (IsGenuine st.asked st.received key) same found
      ]
