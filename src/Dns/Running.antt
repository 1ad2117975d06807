-- ===== src/Dns/Running.antt =====
-- src/services/dns_forwarder.rs: the forwarder as a whole with its cache, whose tasks take turns. A step
-- is what a task does between two waits; a response waits in the channel of its query until the
-- query's task takes it.
use rustyrouter.Client.Lease.{WanLease}
use rustyrouter.Dns.Cache.{DnsParser, cleanup, get_cache_key}
use rustyrouter.Dns.Forward.{Draws, Shared, finish_query, get_upstream_dns, handle_dns_query}
use rustyrouter.Dns.Pending.{receive_response, give_up}
use rustyrouter.Prelude.{
  Bool, ◌&&◌, if◌then◌else◌, Option, some, none, ℕ, suc, List, [], ◌∷◌, none, some, ◌≡◌, ◌⊎◌,
  ℕ_discrete, Option,
}
use rustyrouter.Prelude.Map
use rustyrouter.Prelude.Map.{Map}

-- A query with the server that it is for.
pub record Asked : Type 0 where
  pub query : List ℕ
  pub upstream_ip : ℕ

-- `asked` are the queries by the number of their channel, `received` the packets from upstream with
-- the address that each came from, `inbox` the responses in the channels.
pub record Running : Type 0 where
  pub shared : Shared
  pub next_tx : ℕ
  pub asked : Map ℕ Asked
  pub received : List (ℕ × List ℕ)
  pub inbox : Map ℕ (List ℕ)

abbrev pub asked_at : ℕ → Map ℕ Asked → Option Asked
asked_at = Map.get ℕ_discrete

abbrev pub with_mail : Option (ℕ × List ℕ) → Map ℕ (List ℕ) → Map ℕ (List ℕ)
with_mail none inbox = inbox
with_mail (some (tx, bytes)) inbox = (tx, bytes) ∷ inbox

abbrev pub IsAmong : {A : Type 0} → A → List A → Type 0
IsAmong x [] = ⊥
IsAmong x (y ∷ ys) = (x ≡ y) ⊎ IsAmong x ys

-- A round of the receiver task. A response that is delivered stays listed after it was taken.
unfoldable pub on_packet : ℕ → List ℕ → Running → Running
on_packet from bytes st = record st {
  shared = record st.shared { pending = (receive_response st.shared.pending from bytes).0 };
  received = (from, bytes) ∷ st.received;
  inbox = with_mail (receive_response st.shared.pending from bytes).1 st.inbox;
}

-- A task gives up.
unfoldable pub on_expiry : ℕ → Running → Running
on_expiry xid st = record st {
  shared = record st.shared { pending = give_up xid st.shared.pending };
}

-- A round of the periodic cleanup.
unfoldable pub on_cleanup : ℕ → Running → Running
on_cleanup now st = record st { shared = record st.shared { cache = cleanup st.shared.cache now } }

abbrev pub idle : Running
idle = record {
  shared = record { cache = []; pending = [] };
  next_tx = 0;
  asked = [];
  received = [];
  inbox = [];
}

-- The two sockets that are bound first; without one of them the forwarder ends for good.
unfoldable pub start_dns_forwarder : Bool → Bool → Option Running
start_dns_forwarder listening upstream = if listening && upstream then some idle else none

module _ (parse : DnsParser) where
  -- Every query has a channel of its own here, also one that is answered without it.
  unfoldable pub on_client : WanLease → List ℕ → Draws → ℕ → Running → Running
  on_client lease query draws now st = record st {
    shared = (handle_dns_query parse lease query st.next_tx draws now st.shared).0;
    next_tx = suc st.next_tx;
    asked = (st.next_tx, record { query = query; upstream_ip = get_upstream_dns lease }) ∷ st.asked;
  }

  -- The rest of a query's task, with the response out of its channel.
  unfoldable pub on_answer : List ℕ → List ℕ → List ℕ → ℕ → Running → Running
  on_answer key query bytes now st = record st {
    shared = (finish_query parse key query bytes now st.shared).0;
  }

  pub data Reachable : Running → Type 0 where
    at_idle : Reachable idle
    client :
        {st : Running} (lease : WanLease) (query : List ℕ) (draws : Draws) (now : ℕ)
        → Reachable st
        → Reachable (on_client lease query draws now st)
    packet :
        {st : Running} (from : ℕ) (bytes : List ℕ)
        → Reachable st
        → Reachable (on_packet from bytes st)
    -- The task of a query takes a response out of its channel.
    answer :
        {st : Running} (tx : ℕ) (a : Asked) (key bytes : List ℕ) (now : ℕ)
        → asked_at tx st.asked ≡ some a
        → get_cache_key parse a.query ≡ some key
        → IsAmong (tx, bytes) st.inbox
        → Reachable st
        → Reachable (on_answer key a.query bytes now st)
    expiry : {st : Running} (xid : ℕ) → Reachable st → Reachable (on_expiry xid st)
    tidy : {st : Running} (now : ℕ) → Reachable st → Reachable (on_cleanup now st)
