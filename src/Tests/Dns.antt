-- ===== src/Tests/Dns.antt =====
-- The theorems on the DNS forwarder at concrete inputs.
use rustyrouter.Dns.Bytes.{IsBytes, lookup_cache-IsBytes}
use rustyrouter.Dns.Turns.{IsReachable-NoneTwice}
use rustyrouter.Dns.Turns.{on_give_up-reused}
use rustyrouter.Dns.Delivery.{receive_response-handle_dns_query}
use rustyrouter.Client.Lease.{WanLease}
use rustyrouter.Dns.Cache.{
  DnsParser, lookup_cache, insert_cache, cleanup, bytes_eq, ttl_of, minimum, get_cache_key,
  lookup_cache-insert_cache,
}
use rustyrouter.Dns.Pending.{
  PendingQueries, register, draw_xid, get_pending, xid_of, receive_response,
  receive_response-spoofed,
}
use rustyrouter.Dns.Forward.{
  Shared, handle_dns_query, forward_start, finish_query, with_xid, restore_xid, get_upstream_dns,
}
use rustyrouter.Dns.Answers.{
  IsFirst, SameXid, SameBody, handle_dns_query-sent, finish_query-answers,
}
use rustyrouter.Prelude.{
  ℕ, none, some, [], ◌∷◌, refl, List, arith, ◌≡◌, ℕ_discrete, if◌then◌else◌, ◌==◌, length, ◌≤◌, inl,
  any,
}
use rustyrouter.Dns.Pending.{give_up}
use rustyrouter.Dns.Running.{Running, Reachable, idle, on_client, on_packet, on_answer}
use rustyrouter.Dns.Provenance.{IsGenuine, lookup_cache-IsGenuine}
use rustyrouter.Dns.Machine.{
  Forwarder, ◌⟶◌, IsReachable, NoneTwice, at_start, on_query, on_response, on_give_up,
}
use rustyrouter.Prelude.Map

-- Every packet asks one question and has answers that live for 300 and 60 seconds.
abbrev pub one_question : DnsParser
one_question packet = some (record { questions = (1 ∷ []) ∷ []; ttls = 300 ∷ 60 ∷ [] })

-- A header under the id 258.
abbrev pub header : List ℕ
header = 1 ∷ 2 ∷ 3 ∷ 4 ∷ 5 ∷ 6 ∷ 7 ∷ 8 ∷ 9 ∷ 10 ∷ 11 ∷ 12 ∷ []

-- The same under the id 772.
abbrev other_header : List ℕ
other_header = 3 ∷ 4 ∷ 3 ∷ 4 ∷ 5 ∷ 6 ∷ 7 ∷ 8 ∷ 9 ∷ 10 ∷ 11 ∷ 12 ∷ []

abbrev sample_lease : WanLease
sample_lease = record { ip = some 77; mask = none; gateway = none; dns_servers = 53 ∷ [] }

abbrev waiting : PendingQueries
waiting = (772, record { tx = 4; upstream_ip = 53 }) ∷ []

abbrev pub nothing_cached : Shared
nothing_cached = record { cache = []; pending = waiting }

-- The first number drawn is taken, the second is not.
abbrev pub drawn : ℕ → ℕ
drawn i = if i == 0 then 772 else 1029

dns_code : Unit {0}
unfolding handle_dns_query forward_start register draw_xid lookup_cache get_cache_key bytes_eq
    ℕ_discrete Map.get Map.insert Map.remove with_xid get_upstream_dns receive_response ttl_of
    on_client on_packet on_answer on_query on_response on_give_up give_up minimum insert_cache
    cleanup Map.retain finish_query restore_xid
dns_code = tt

handle_dns_query-sent_example :
    let st' = (handle_dns_query one_question sample_lease header 9 (2, drawn) 0 nothing_cached).0 in
    IsFirst 53 sample_lease.dns_servers
    × (get_pending 1029 waiting ≡ none)
    × (get_pending 1029 st'.pending ≡ some (record { tx = 9; upstream_ip = 53 }))
    × (xid_of (with_xid 1029 header) ≡ 1029)
    × SameBody (with_xid 1029 header) header
unfolding dns_code
handle_dns_query-sent_example =
    handle_dns_query-sent one_question sample_lease header 9 2 drawn 0 nothing_cached 53 1029
      (with_xid 1029 header) (omega arith) (λ i. ground arith) refl

finish_query-answers_example :
    (answer : List ℕ) × (finish_query one_question (1 ∷ []) header other_header 5 nothing_cached ≡ (
      record nothing_cached { cache = insert_cache one_question (1 ∷ []) answer [] 5 },
      some answer,
    ))
    × SameXid answer header
    × SameBody answer other_header
finish_query-answers_example =
    finish_query-answers one_question (1 ∷ []) header other_header 5 nothing_cached (omega arith)
      (omega arith, omega arith) (omega arith)

receive_response-spoofed_example :
    let (after, delivered) = receive_response waiting 99 other_header in
    (delivered ≡ none) × ((receive_response after 53 other_header).1 ≡ none)
unfolding dns_code
receive_response-spoofed_example =
    receive_response-spoofed waiting 99 53 other_header other_header
      (record { tx = 4; upstream_ip = 53 }) refl (omega arith) (omega arith) refl

lookup_cache-insert_cache_example :
    (lookup_cache (1 ∷ []) (insert_cache one_question (1 ∷ []) header [] 5) 60_000_000_004).1
    ≡ some header
unfolding dns_code any
lookup_cache-insert_cache_example =
    lookup_cache-insert_cache one_question (1 ∷ []) (1 ∷ []) header [] 5 60_000_000_004 60
      (record { questions = (1 ∷ []) ∷ []; ttls = 300 ∷ 60 ∷ [] }) refl (omega arith)
      ((omega arith, (omega arith, tt)), refl) (omega arith)

-- The server's response under the id 1029.
abbrev upstream_response : List ℕ
upstream_response = 4 ∷ 5 ∷ 3 ∷ 4 ∷ 5 ∷ 6 ∷ 7 ∷ 8 ∷ 9 ∷ 10 ∷ 11 ∷ 12 ∷ []

receive_response-handle_dns_query_example :
    (receive_response
      (handle_dns_query one_question sample_lease header 9 (2, drawn) 0 nothing_cached).0.pending
      53
      upstream_response).1
    ≡ some (9, upstream_response)
unfolding dns_code
receive_response-handle_dns_query_example =
    receive_response-handle_dns_query one_question sample_lease header 9 2 drawn 0 nothing_cached 53
      1029 (with_xid 1029 header) upstream_response (omega arith) (λ i. ground arith) refl refl
      (omega arith)

-- A query is registered and answered, another waits, and a task gives up under the first one's id.
abbrev two_queried : Forwarder
two_queried =
    on_give_up 772
      (on_query 2 drawn 54 (on_response 53 other_header (on_query 2 drawn 53 at_start)))

two_queried-IsReachable : IsReachable two_queried
two_queried-IsReachable =
    IsReachable.then
      (IsReachable.then
        (IsReachable.then (IsReachable.then IsReachable.start (◌⟶◌.queried 2 drawn 53))
          (◌⟶◌.responded 53 other_header))
        (◌⟶◌.queried 2 drawn 54))
      (◌⟶◌.gave_up 772)

IsReachable-NoneTwice_example :
    NoneTwice two_queried.delivered × (length two_queried.pending ≤ 4096)
IsReachable-NoneTwice_example = IsReachable-NoneTwice two_queried two_queried-IsReachable

-- The query of channel 0 was lost to a packet from a wrong address; its task has not given up yet.
abbrev after_spoof : Forwarder
after_spoof = on_response 99 other_header (on_query 2 drawn 53 at_start)

on_give_up-reused_example :
    let reused = on_query 2 drawn 54 after_spoof in
    (after_spoof.delivered ≡ [])
    × (get_pending 772 reused.pending ≡ some (record { tx = 1; upstream_ip = 54 }))
    × ((receive_response reused.pending 54 other_header).1 ≡ some (1, other_header))
    × ((receive_response (on_give_up 772 reused).pending 54 other_header).1 ≡ none)
unfolding dns_code
on_give_up-reused_example =
    on_give_up-reused at_start 2 2 drawn drawn 53 54 99 772 other_header other_header (omega arith)
      refl (omega arith) refl (omega arith) refl refl (omega arith)

-- The server's response to the header, under the id 772, is answered and stored.
abbrev answered : Running
answered =
    on_answer one_question (1 ∷ []) header other_header 5
      (on_packet 53 other_header (on_client one_question sample_lease header (2, drawn) 0 idle))

answered-Reachable : Reachable one_question answered
unfolding dns_code
answered-Reachable =
    Reachable.answer 0 (record { query = header; upstream_ip = 53 }) (1 ∷ []) other_header 5 refl
      refl (inl refl)
      (Reachable.packet 53 other_header
        (Reachable.client sample_lease header (2, drawn) 0 Reachable.at_idle))

lookup_cache-IsGenuine_example :
    IsGenuine one_question answered.asked answered.received (1 ∷ []) header
unfolding dns_code
lookup_cache-IsGenuine_example =
    lookup_cache-IsGenuine one_question answered (1 ∷ []) header 6 answered-Reachable refl

lookup_cache-IsBytes_example : IsBytes header × (12 ≤ length header)
unfolding dns_code
lookup_cache-IsBytes_example =
    lookup_cache-IsBytes one_question answered (1 ∷ []) header 6 answered-Reachable
      (omega arith, tt) refl
