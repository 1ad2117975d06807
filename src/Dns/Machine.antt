-- ===== src/Dns/Machine.antt =====
-- src/services/dns_forwarder.rs: the table of waiting queries, at which the tasks take turns. A step is
-- one locked access to the table: by a new query, by the receiver, or by a task that gives up.
use rustyrouter.Dns.Pending.{
  PendingQuery, PendingQueries, get_pending, register, receive_response, give_up,
}
use rustyrouter.Prelude.{
  ℕ, suc, List, [], ◌∷◌, Option, none, some, true, false, ◌≡◌, ◌≤◌, ◌<◌, length,
}
use rustyrouter.Prelude.Set

-- `next_tx` numbers the channels, each made anew for its query; `delivered` are the channels that got a
-- response, the last first.
pub record Forwarder : Type 0 where
  pub pending : PendingQueries
  pub next_tx : ℕ
  pub delivered : List ℕ

abbrev pub with_delivery : Option (ℕ × List ℕ) → List ℕ → List ℕ
with_delivery none delivered = delivered
with_delivery (some (tx, bytes)) delivered = tx ∷ delivered

unfoldable pub on_query : ℕ → (ℕ → ℕ) → ℕ → Forwarder → Forwarder
on_query fuel draws upstream_ip st = record {
  pending =
      (register fuel draws (record { tx = st.next_tx; upstream_ip = upstream_ip }) st.pending).0;
  next_tx = suc st.next_tx;
  delivered = st.delivered;
}

unfoldable pub on_response : ℕ → List ℕ → Forwarder → Forwarder
on_response from bytes st = record st {
  pending = (receive_response st.pending from bytes).0;
  delivered = with_delivery (receive_response st.pending from bytes).1 st.delivered;
}

unfoldable pub on_give_up : ℕ → Forwarder → Forwarder
on_give_up xid st = record st { pending = give_up xid st.pending }

infix 40 ◌⟶◌
pub data ◌⟶◌ : Forwarder → Forwarder → Type 0 where
  queried :
      {st : Forwarder} (fuel : ℕ) (draws : ℕ → ℕ) (upstream_ip : ℕ)
      → st ⟶ on_query fuel draws upstream_ip st
  responded : {st : Forwarder} (from : ℕ) (bytes : List ℕ) → st ⟶ on_response from bytes st
  gave_up : {st : Forwarder} (xid : ℕ) → st ⟶ on_give_up xid st

abbrev pub at_start : Forwarder
at_start = record { pending = []; next_tx = 0; delivered = [] }

pub data IsReachable : Forwarder → Type 0 where
  start : IsReachable at_start
  then : {st after : Forwarder} → IsReachable st → st ⟶ after → IsReachable after

-- No number stands twice.
abbrev pub NoneTwice : List ℕ → Type 0
NoneTwice [] = Unit
NoneTwice (x ∷ xs) = (Set.contains x xs ≡ false) × NoneTwice xs

-- A waiting query's channel is one that was made, waits under one id only and got nothing yet.
pub record IsOnce (st : Forwarder) : Type 0 where
  pub made : (xid : ℕ) (q : PendingQuery) → get_pending xid st.pending ≡ some q → q.tx < st.next_tx
  pub alone :
      (xid xid' : ℕ) (q q' : PendingQuery)
      → get_pending xid st.pending ≡ some q
      → get_pending xid' st.pending ≡ some q'
      → q.tx ≡ q'.tx
      → xid ≡ xid'
  pub open_still :
      (xid : ℕ) (q : PendingQuery)
      → get_pending xid st.pending ≡ some q
      → Set.contains q.tx st.delivered ≡ false
  pub past : (tx : ℕ) → Set.contains tx st.delivered ≡ true → tx < st.next_tx
  pub once : NoneTwice st.delivered
  pub few : length st.pending ≤ 4096
