-- ===== src/Dns/Once.antt =====
-- src/services/dns_forwarder.rs: each step keeps a query's channel to one response.
use rustyrouter.Dns.Pending.{
  PendingQuery, PendingQueries, get_pending, register, register_lem, receive_response,
  receive_response-delivers, give_up, xid_of,
}
use rustyrouter.Prelude.{
  ℕ, List, ◌∷◌, some, ◌≡◌, ◌≢◌, ◌≤◌, length, sym, subst, arith, inl, inr, ◌⊎◌, Option-cases,
  Bool-cases, ℕ_discrete, ◌∙◌, ltb,
}
use rustyrouter.Prelude.Map
use rustyrouter.Prelude.Set
use rustyrouter.Dns.Machine.{
  Forwarder, on_query, on_response, on_give_up, at_start, IsReachable, IsOnce, then, queried,
  responded, gave_up,
}

at_start-IsOnce : IsOnce at_start
unfolding Map.get Set.contains
at_start-IsOnce = record {
  made = λ xid q h. absurd (ground arith);
  alone = λ xid xid' q q' h. absurd (ground arith);
  open_still = λ xid q h. absurd (ground arith);
  past = λ tx h. absurd (ground arith);
  once = tt;
  few = omega arith;
}

-- An entry after a query has registered is the query's own or was there before.
registered :
    (fuel : ℕ) (draws : ℕ → ℕ) (query : PendingQuery) (pending : PendingQueries) (x : ℕ)
    (q : PendingQuery)
    → length pending ≤ 4096
    → get_pending x (register fuel draws query pending).0 ≡ some q
    → (((register fuel draws query pending).1 ≡ some x) × (q ≡ query))
      ⊎ (get_pending x pending ≡ some q)
registered fuel draws query pending x q few h =
    let (_, same, entry) = register_lem fuel draws query pending few in
    elim (Option-cases (register fuel draws query pending).1) [
      | inl e ↦ inr (subst (λ m. get_pending x m ≡ some q) (same e) h)
      | inr (xid, e) ↦
          let (free, own, others) = entry xid e in
          elim (ℕ_discrete x xid) [
            | yes y ↦
                let mine : get_pending x (register fuel draws query pending).0 ≡ some query =
                  rw y own in
                inl (rw y e, ground arith)
            | no n ↦ inr (sym (others x n) ∙ h)
          ]
    ]

on_query-IsOnce :
    (fuel : ℕ) (draws : ℕ → ℕ) (up : ℕ) (st : Forwarder)
    → IsOnce st
    → IsOnce (on_query fuel draws up st)
unfolding on_query
on_query-IsOnce fuel draws up st o =
    let new_query : PendingQuery = record { tx = st.next_tx; upstream_ip = up } in
    let entry =
      λ (x : ℕ) (q : PendingQuery). registered fuel draws new_query st.pending x q o.few in
    record {
      made = λ x q h. elim (entry x q h) [
        | inl (e, own) ↦ ground arith
        | inr old ↦ let lt = o.made x q old in omega arith
      ];
      alone = λ x x' q q' h h' same. elim (entry x q h) [
        | inl (e, own) ↦ elim (entry x' q' h') [
          | inl (e', own') ↦ ground arith
          | inr old' ↦ let lt = o.made x' q' old' in absurd (ground arith)
        ]
        | inr old ↦ elim (entry x' q' h') [
          | inl (e', own') ↦ let lt = o.made x q old in absurd (ground arith)
          | inr old' ↦ o.alone x x' q q' old old' same
        ]
      ];
      open_still = λ x q h. elim (entry x q h) [
        | inl (e, own) ↦ elim (Bool-cases (Set.contains q.tx st.delivered)) [
          | inl y ↦ let lt = o.past q.tx y in absurd (ground arith)
          | inr n ↦ n
        ]
        | inr old ↦ o.open_still x q old
      ];
      past = λ tx h. let lt = o.past tx h in omega arith;
      once = o.once;
      few = (register_lem fuel draws new_query st.pending o.few).0;
    }

kept_entry :
    (xid x : ℕ) (pending : PendingQueries) (q : PendingQuery)
    → get_pending x (Map.remove ℕ_discrete xid pending) ≡ some q
    → (get_pending x pending ≡ some q) × (x ≢ xid)
kept_entry xid x pending q h = (
  ground (arith, Map.get-remove ℕ_discrete xid x pending),
  λ same. absurd (ground (arith, Map.get-remove ℕ_discrete xid x pending)),
)

on_give_up-IsOnce : (xid : ℕ) (st : Forwarder) → IsOnce st → IsOnce (on_give_up xid st)
unfolding on_give_up give_up
on_give_up-IsOnce xid st o =
    let kept =
      λ (x : ℕ) (q : PendingQuery)
          (h : get_pending x (Map.remove ℕ_discrete xid st.pending) ≡ some q).
        (kept_entry xid x st.pending q h).0 in
    record {
      made = λ x q h. o.made x q (kept x q h);
      alone = λ x x' q q' h h'. o.alone x x' q q' (kept x q h) (kept x' q' h');
      open_still = λ x q h. o.open_still x q (kept x q h);
      past = o.past;
      once = o.once;
      few =
          let le = Map.length-remove-le ℕ_discrete xid st.pending in let was = o.few in omega arith;
    }

received :
    (pending : PendingQueries) (from x : ℕ) (bytes : List ℕ) (q : PendingQuery)
    → get_pending x (receive_response pending from bytes).0 ≡ some q
    → get_pending x pending ≡ some q
unfolding receive_response
received pending from x bytes q h = elim (Bool-cases (ltb (length bytes) 12)) [
  | inl short ↦ rw (short, receive_response) at h
  | inr long ↦ (kept_entry (xid_of bytes) x pending q (rw (long, receive_response) at h)).0
]

received-le :
    (pending : PendingQueries) (from : ℕ) (bytes : List ℕ)
    → length (receive_response pending from bytes).0 ≤ length pending
unfolding receive_response
received-le pending from bytes = elim (Bool-cases (ltb (length bytes) 12)) [
  | inl short ↦ rw (short, receive_response) (omega arith)
  | inr long ↦ rw (long, receive_response) (Map.length-remove-le ℕ_discrete (xid_of bytes) pending)
]

-- With a delivery, the channel is that of an entry which is gone afterwards.
delivery-IsOnce :
    (from : ℕ) (bytes : List ℕ) (st : Forwarder) (tx : ℕ) (payload : List ℕ)
    → IsOnce st
    → (receive_response st.pending from bytes).1 ≡ some (tx, payload)
    → IsOnce (record st {
      pending = (receive_response st.pending from bytes).0;
      delivered = tx ∷ st.delivered;
    })
unfolding Set.contains
delivery-IsOnce from bytes st tx payload o e =
    let (had, _, _, gone) = receive_response-delivers st.pending from tx bytes payload e in
    let old = λ (x : ℕ) (q : PendingQuery). received st.pending from x bytes q in
    record {
      made = λ x q h. o.made x q (old x q h);
      alone = λ x x' q q' h h'. o.alone x x' q q' (old x q h) (old x' q' h');
      open_still = λ x q h. elim (ℕ_discrete tx q.tx) [
        | yes same ↦
            let at_xid : x ≡ xid_of bytes =
              o.alone x (xid_of bytes) q _ (old x q h) had (sym same) in
            let here : get_pending (xid_of bytes) (receive_response st.pending from bytes).0
                ≡ some q =
              subst (λ y. get_pending y (receive_response st.pending from bytes).0 ≡ some q) at_xid
                h in
            absurd (ground arith)
        | no other ↦ let still = o.open_still x q (old x q h) in ground arith
      ];
      past = λ t h. elim (ℕ_discrete tx t) [
        | yes same ↦ let lt = o.made (xid_of bytes) _ had in omega arith
        | no other ↦ o.past t (ground arith)
      ];
      once = (o.open_still (xid_of bytes) _ had, o.once);
      few = let le = received-le st.pending from bytes in let was = o.few in omega arith;
    }

no_delivery-IsOnce :
    (from : ℕ) (bytes : List ℕ) (st : Forwarder)
    → IsOnce st
    → IsOnce (record st { pending = (receive_response st.pending from bytes).0 })
no_delivery-IsOnce from bytes st o =
    let old = λ (x : ℕ) (q : PendingQuery). received st.pending from x bytes q in
    record {
      made = λ x q h. o.made x q (old x q h);
      alone = λ x x' q q' h h'. o.alone x x' q q' (old x q h) (old x' q' h');
      open_still = λ x q h. o.open_still x q (old x q h);
      past = o.past;
      once = o.once;
      few = let le = received-le st.pending from bytes in let was = o.few in omega arith;
    }

on_response-IsOnce :
    (from : ℕ) (bytes : List ℕ) (st : Forwarder) → IsOnce st → IsOnce (on_response from bytes st)
unfolding on_response
on_response-IsOnce from bytes st o =
    elim (Option-cases (receive_response st.pending from bytes).1) [
      | inl e ↦ rw (e, on_response) (no_delivery-IsOnce from bytes st o)
      | inr ((tx, payload), e) ↦ rw (e, on_response) (delivery-IsOnce from bytes st tx payload o e)
    ]

pub reachable-IsOnce : {st : Forwarder} → IsReachable st → IsOnce st
reachable-IsOnce IsReachable.start = at_start-IsOnce
reachable-IsOnce (then r (queried fuel draws up)) =
    on_query-IsOnce fuel draws up _ (reachable-IsOnce r)
reachable-IsOnce (then r (responded from bytes)) =
    on_response-IsOnce from bytes _ (reachable-IsOnce r)
reachable-IsOnce (then r (gave_up xid)) = on_give_up-IsOnce xid _ (reachable-IsOnce r)
