-- ===== src/Tests/Sntp.antt =====
-- The theorems on the resolver at concrete inputs.

use rustyrouter.Dns.Pending.{xid_of}
use rustyrouter.Prelude.{ℕ, List, [], ◌∷◌, true, some, ◌≡◌, ◌↔◌}
use rustyrouter.Prelude.Text.{codes}
use rustyrouter.Sntp.Resolve.{
  Resolver, Response, RData, Received, localhost, dns_port, resolve_dns_a_record, first_a,
  resolve_dns_a_record_iff, IsResolved, Resolved,
}

-- The query under the id 258, and the response to it.
abbrev query_258 : List ℕ
query_258 = 1 ∷ 2 ∷ 1 ∷ 0 ∷ 0 ∷ 1 ∷ 0 ∷ 0 ∷ 0 ∷ 0 ∷ 0 ∷ 0 ∷ []

abbrev answer_258 : List ℕ
answer_258 = 1 ∷ 2 ∷ 129 ∷ 0 ∷ 0 ∷ 1 ∷ 0 ∷ 1 ∷ 0 ∷ 0 ∷ 0 ∷ 0 ∷ []

abbrev two_answers : List ℕ → Response
two_answers bytes = record {
  id = xid_of bytes;
  answers = RData.other_data ∷ RData.a 77 ∷ RData.a 78 ∷ [];
}

abbrev resolver : Resolver
resolver = record {
  bind = true;
  build = λ id host. some query_258;
  send_to = λ bytes. true;
  receive = Received.packet answer_258 localhost dns_port;
  parse = λ bytes. some (two_answers bytes);
}

resolver_code : Unit {0}
unfolding resolve_dns_a_record first_a
resolver_code = tt

resolve_dns_a_record_iff_example :
    (resolve_dns_a_record resolver 258 (codes "pool.ntp.org") ≡ Resolved.resolved 77)
    ↔ IsResolved resolver 258 (codes "pool.ntp.org") 77
resolve_dns_a_record_iff_example = resolve_dns_a_record_iff resolver 258 77 (codes "pool.ntp.org")
