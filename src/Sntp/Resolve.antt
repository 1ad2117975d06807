-- ===== src/Sntp/Resolve.antt =====
-- src/services/utils.rs, `resolve_dns_a_record`, and src/services/sntp_client.rs, `sync_time`. The sockets,
-- the crates `dns_parser` and `rsntp` and the setting of the clock are parameters.
use rustyrouter.Prelude.{
  ℕ, List, [], ◌∷◌, ◌++◌, All, Bool, true, Option, some, none, ◌≡◌, refl, arith, ◌==◌, ◌&&◌,
  if◌then◌else◌, Option-cases, Bool-cases, inl, inr, ◌↔◌,
}
use rustyrouter.Prelude.Text.{Text, codes}

pub data ResolveError : Type 0 where
  bind_failed build_failed send_failed unexpected_source receive_failed : ResolveError
  timed_out parse_failed id_mismatch no_a_record : ResolveError

pub data Resolved : Type 0 where
  resolved : ℕ → Resolved
  unresolved : ResolveError → Resolved

-- An answer's data: the address of an A record, or anything else.
pub data RData : Type 0 where
  a : ℕ → RData
  other_data : RData

pub record Response : Type 0 where
  pub id : ℕ
  pub answers : List RData

-- What the wait of three seconds gives: a packet with the address and port that it comes from.
pub data Received : Type 0 where
  packet : List ℕ → ℕ → ℕ → Received
  no_packet receive_error : Received

pub record Resolver : Type 0 where
  pub bind : Bool
  -- `dns_parser::Builder`: the query of an id for an A record.
  pub build : ℕ → Text → Option (List ℕ)
  pub send_to : List ℕ → Bool
  pub receive : Received
  pub parse : List ℕ → Option Response

-- 127.0.0.1
abbrev pub localhost : ℕ
localhost = 0x7f000001

abbrev pub dns_port : ℕ
dns_port = 53

-- The loop over the answers.
unfoldable pub first_a : List RData → Option ℕ
first_a [] = none
first_a (RData.a ip ∷ rest) = some ip
first_a (RData.other_data ∷ rest) = first_a rest

abbrev pub or_no_record : Option ℕ → Resolved
or_no_record none = unresolved no_a_record
or_no_record (some ip) = resolved ip

-- From the parsed response on.
unfoldable pub resolved_by : ℕ → Option Response → Resolved
unfolding first_a
resolved_by query_id none = unresolved parse_failed
resolved_by query_id (some response) =
    if response.id == query_id
    then or_no_record (first_a response.answers)
    else unresolved id_mismatch

unfoldable pub resolved_from : (List ℕ → Option Response) → ℕ → Received → Resolved
unfolding resolved_by
resolved_from parse query_id no_packet = unresolved timed_out
resolved_from parse query_id receive_error = unresolved receive_failed
resolved_from parse query_id (packet bytes ip port) =
    if ip == localhost && port == dns_port
    then resolved_by query_id (parse bytes)
    else unresolved unexpected_source

unfoldable pub resolve_dns_a_record : Resolver → ℕ → Text → Resolved
unfolding resolved_from
resolve_dns_a_record r query_id host =
    if r.bind
    then (elim (r.build query_id host) [
      | none ↦ unresolved build_failed
      | some query ↦
          if r.send_to query
          then resolved_from r.parse query_id r.receive
          else unresolved send_failed
    ])
    else unresolved bind_failed

-- A time by its distance from the start of 1970.
pub data NtpTime : Type 0 where
  since_epoch before_epoch : ℕ → NtpTime

pub record TimeOps : Type 0 where
  -- The time that the server at an address gives, if the exchange and the conversion succeed.
  pub synchronize : ℕ → Option NtpTime
  pub clock_settime : ℕ → Bool

pub data SyncResult : Type 0 where
  clock_set : ℕ → SyncResult
  not_set panicked : SyncResult

-- The conversion of a time before 1970 is unwrapped.
unfoldable pub set_clock : TimeOps → NtpTime → SyncResult
set_clock t (since_epoch time) = if t.clock_settime time then clock_set time else not_set
set_clock t (before_epoch time) = panicked

unfoldable pub sync_time : Resolver → TimeOps → ℕ → SyncResult
unfolding resolve_dns_a_record set_clock
sync_time r t query_id = elim (resolve_dns_a_record r query_id (codes "pool.ntp.org")) [
  | unresolved e ↦ not_set
  | resolved ip ↦ elim (t.synchronize ip) [ none ↦ not_set | some time ↦ set_clock t time ]
]

-- The address is that of the first A record among the answers.
abbrev pub IsFirstA : List RData → ℕ → Type 0
IsFirstA answers ip =
    (before : List RData) × (after : List RData) × (answers ≡ before ++ RData.a ip ∷ after)
    × All (λ r. r ≡ RData.other_data) before

first_a-IsFirstA : (answers : List RData) (ip : ℕ) → first_a answers ≡ some ip → IsFirstA answers ip
unfolding first_a
first_a-IsFirstA [] ip h = absurd (ground arith)
first_a-IsFirstA (RData.a x ∷ rest) ip h =
    let e : x ≡ ip = ground arith in ([], rest, rw e refl, tt)
first_a-IsFirstA (RData.other_data ∷ rest) ip h =
    let (before, after, e, none_in) = first_a-IsFirstA rest ip h in
    (RData.other_data ∷ before, after, rw e refl, (refl, none_in))

first_a-some :
    (before after : List RData) (ip : ℕ)
    → All (λ r. r ≡ RData.other_data) before
    → first_a (before ++ RData.a ip ∷ after) ≡ some ip
unfolding first_a
first_a-some [] after ip h = refl
first_a-some (RData.a x ∷ before) after ip h = absurd (ground (arith, h.0))
first_a-some (RData.other_data ∷ before) after ip h = first_a-some before after ip h.1

resolved_by_of :
    (query_id ip : ℕ) (o : Option Response)
    → resolved_by query_id o ≡ resolved ip
    → (response : Response) × (o ≡ some response)
      × (response.id ≡ query_id)
      × (first_a response.answers ≡ some ip)
unfolding resolved_by
resolved_by_of query_id ip none h = absurd (ground arith)
resolved_by_of query_id ip (some response) h = elim (Option-cases (first_a response.answers)) [
  | inl e ↦ absurd (ground arith)
  | inr (x, e) ↦ let same : x ≡ ip = ground arith in (response, refl, ground arith, rw same at e)
]

resolved_from_of :
    (parse : List ℕ → Option Response) (query_id ip : ℕ) (received : Received)
    → resolved_from parse query_id received ≡ resolved ip
    → (bytes : List ℕ) × (received ≡ packet bytes localhost dns_port)
      × (resolved_by query_id (parse bytes) ≡ resolved ip)
unfolding resolved_from
resolved_from_of parse query_id ip no_packet h = absurd (ground arith)
resolved_from_of parse query_id ip receive_error h = absurd (ground arith)
resolved_from_of parse query_id ip (packet bytes from port) h = (bytes, ground arith, ground arith)

-- What it takes to resolve a name to an address.
abbrev pub IsResolved : Resolver → ℕ → Text → ℕ → Type 0
IsResolved r query_id host ip =
    (query : List ℕ) × (bytes : List ℕ) × (response : Response) × (r.bind ≡ true)
    × (r.build query_id host ≡ some query)
    × (r.send_to query ≡ true)
    × (r.receive ≡ packet bytes 0x7f000001 53)
    × (r.parse bytes ≡ some response)
    × (response.id ≡ query_id)
    × IsFirstA response.answers ip

resolve_dns_a_record-IsResolved :
    (r : Resolver) (query_id ip : ℕ) (host : Text)
    → resolve_dns_a_record r query_id host ≡ resolved ip
    → IsResolved r query_id host ip
unfolding resolve_dns_a_record
resolve_dns_a_record-IsResolved r query_id ip host h = elim (Bool-cases r.bind) [
  | inr b ↦ let h' = rw (b, resolve_dns_a_record) at h in absurd (ground arith)
  | inl b ↦ elim (Option-cases (r.build query_id host)) [
    | inl q ↦ let h' = rw (b, q, resolve_dns_a_record) at h in absurd (ground arith)
    | inr (query, q) ↦ elim (Bool-cases (r.send_to query)) [
      | inr f ↦ let h' = rw (b, q, f, resolve_dns_a_record) at h in absurd (ground arith)
      | inl f ↦
          let (bytes, got, by) =
            resolved_from_of r.parse query_id ip r.receive
              (rw (b, q, f, resolve_dns_a_record) at h) in
          let (response, read, id, first) = resolved_by_of query_id ip (r.parse bytes) by in
          let has = first_a-IsFirstA response.answers ip first in
          (query, bytes, response, b, q, f, got, read, id, has)
    ]
  ]
]

IsResolved-resolved :
    (r : Resolver) (query_id ip : ℕ) (host : Text)
    → IsResolved r query_id host ip
    → resolve_dns_a_record r query_id host ≡ resolved ip
unfolding resolve_dns_a_record resolved_from resolved_by
IsResolved-resolved r query_id ip host
      (query, bytes, response, b, q, f, got, read, id, (before, after, e, others)) =
    let first = first_a-some before after ip others in
    let same : (response.id == query_id) ≡ true = ground (arith, id) in
    rw (b, q, f, got, read, same, e, first, resolve_dns_a_record) refl

-- A name is resolved to an address exactly if the socket is bound, the query is built and sent, and a
-- packet then comes from port 53 of this machine, is read, carries the query's id, and has the address
-- in the first A record among its answers.
pub resolve_dns_a_record_iff :
    (r : Resolver) (query_id ip : ℕ) (host : Text)
    → (resolve_dns_a_record r query_id host ≡ resolved ip) ↔ IsResolved r query_id host ip
resolve_dns_a_record_iff r query_id ip host =
    (resolve_dns_a_record-IsResolved r query_id ip host, IsResolved-resolved r query_id ip host)
