-- ===== src/Dns/Pending.antt =====
-- src/services/dns_forwarder.rs: the table of the queries that wait for an upstream response, shared by
-- the tasks of the queries and the task that receives the responses. The sender half of a query's
-- channel is a number; the table is locked for each event as a whole.
use rustyrouter.Prelude.{
  ℕ, none, some, true, false, refl, zero, suc, inl, inr, List, ◌≡◌, Option, length, ◌≤◌, ℕ_discrete,
  Option-cases, Bool, ◌<◌, get_or, if◌then◌else◌, ◌≢◌, ◌*◌, ltb, arith, leb, ◌+◌, ◌==◌, subst,
  Bool-cases,
}
use rustyrouter.Prelude.Map
use rustyrouter.Prelude.Map.{Map}

pub record PendingQuery : Type 0 where
  pub tx : ℕ
  pub upstream_ip : ℕ

abbrev pub PendingQueries : Type 0
PendingQueries = Map ℕ PendingQuery

abbrev pub max_pending_queries : ℕ
max_pending_queries = 4096

abbrev pub get_pending : ℕ → PendingQueries → Option PendingQuery
get_pending = Map.get ℕ_discrete

abbrev is_some : {A : Type 0} → Option A → Bool
is_some none = false
is_some (some a) = true

-- The first of the numbers drawn from the i-th on that no waiting query has.
unfoldable pub draw_xid : ℕ → (ℕ → ℕ) → ℕ → PendingQueries → Option ℕ
draw_xid zero draws i pending = none
draw_xid (suc fuel) draws i pending = elim (is_some (get_pending (draws i) pending)) [
  | true ↦ draw_xid fuel draws (suc i) pending
  | false ↦ some (draws i)
]

-- The locked block of `forward_query`: the table, and the transaction id of the new query.
unfoldable pub register : ℕ → (ℕ → ℕ) → PendingQuery → PendingQueries → PendingQueries × Option ℕ
unfolding draw_xid
register fuel draws query pending =
    if leb max_pending_queries (length pending)
    then (pending, none)
    else elim (draw_xid fuel draws 0 pending) [
      | none ↦ (pending, none)
      | some xid ↦ (Map.insert ℕ_discrete xid query pending, some xid)
    ]

-- `u16::from_be_bytes` of the first two bytes.
abbrev pub xid_of : List ℕ → ℕ
xid_of bytes = get_or bytes 0 0 * 256 + get_or bytes 1 0

-- To whom a response goes, by the entry that was taken out for it.
abbrev deliver : Option PendingQuery → ℕ → List ℕ → Option (ℕ × List ℕ)
deliver none from bytes = none
deliver (some p) from bytes = if from == p.upstream_ip then some (p.tx, bytes) else none

-- A round of the receiver task.
unfoldable pub receive_response : PendingQueries → ℕ → List ℕ → PendingQueries × Option (ℕ × List ℕ)
receive_response pending from bytes = if ltb (length bytes) 12 then (pending, none) else (
  Map.remove ℕ_discrete (xid_of bytes) pending,
  deliver (get_pending (xid_of bytes) pending) from bytes,
)

-- The cleanup of `forward_query` after a failed send, a timeout or a closed channel.
unfoldable pub give_up : ℕ → PendingQueries → PendingQueries
give_up xid pending = Map.remove ℕ_discrete xid pending

draw_xid-free :
    (fuel : ℕ) (draws : ℕ → ℕ) (i : ℕ) (pending : PendingQueries) (xid : ℕ)
    → draw_xid fuel draws i pending ≡ some xid
    → get_pending xid pending ≡ none
unfolding draw_xid
draw_xid-free zero draws i pending xid h = cc
draw_xid-free (suc fuel) draws i pending xid h =
    elim (Option-cases (get_pending (draws i) pending)) [
      | inl e ↦
          let same : draws i ≡ xid = ground arith in
          subst (λ x. get_pending x pending ≡ none) same e
      | inr (p, e) ↦ draw_xid-free fuel draws (suc i) pending xid (rw (e, draw_xid) at h)
    ]

draw_xid-lt :
    (fuel : ℕ) (draws : ℕ → ℕ) (i bound : ℕ) (pending : PendingQueries) (xid : ℕ)
    → ((j : ℕ) → draws j < bound)
    → draw_xid fuel draws i pending ≡ some xid
    → xid < bound
unfolding draw_xid
draw_xid-lt zero draws i bound pending xid range h = absurd (ground arith)
draw_xid-lt (suc fuel) draws i bound pending xid range h =
    elim (Option-cases (get_pending (draws i) pending)) [
      | inl e ↦ ground (arith, range i)
      | inr (p, e) ↦ draw_xid-lt fuel draws (suc i) bound pending xid range (rw (e, draw_xid) at h)
    ]

-- An id that is given out is one that was drawn, so within the draws' bound.
pub register-lt :
    (fuel : ℕ) (draws : ℕ → ℕ) (query : PendingQuery) (pending : PendingQueries) (bound xid : ℕ)
    → ((j : ℕ) → draws j < bound)
    → (register fuel draws query pending).1 ≡ some xid
    → xid < bound
unfolding register
register-lt fuel draws query pending bound xid range h =
    elim (Option-cases (draw_xid fuel draws 0 pending)) [
      | inl e ↦ absurd (ground arith)
      | inr (x, e) ↦ let low = draw_xid-lt fuel draws 0 bound pending x range e in ground arith
    ]

-- With a number among those that may be drawn which no waiting query has, the search ends, with
-- such a number.
pub draw_xid-total :
    (fuel : ℕ) (draws : ℕ → ℕ) (i j : ℕ) (pending : PendingQueries)
    → i ≤ j
    → j < i + fuel
    → get_pending (draws j) pending ≡ none
    → (xid : ℕ) × (draw_xid fuel draws i pending ≡ some xid) × (get_pending xid pending ≡ none)
unfolding draw_xid
draw_xid-total zero draws i j pending lo hi free = absurd (omega arith)
draw_xid-total (suc fuel) draws i j pending lo hi free =
    elim (Option-cases (get_pending (draws i) pending)) [
      | inl e ↦ (draws i, rw (e, draw_xid) refl, e)
      | inr (p, e) ↦
          let later : i ≢ j = ground arith in
          let (xid, found, ok) =
            draw_xid-total fuel draws (suc i) j pending (omega arith) (omega arith) free in
          (xid, rw (e, draw_xid) found, ok)
    ]

entered_length :
    (query : PendingQuery) (pending : PendingQueries) (x : ℕ)
    → leb max_pending_queries (length pending) ≡ false
    → length (Map.insert ℕ_discrete x query pending) ≤ 4096
entered_length query pending x room =
    let grows = Map.length-insert-le ℕ_discrete x query pending in ground arith

entered :
    (query : PendingQuery) (pending : PendingQueries) (x : ℕ)
    → get_pending x pending ≡ none
    → (xid : ℕ) → some x ≡ some xid
    → (get_pending xid pending ≡ none)
      × (get_pending xid (Map.insert ℕ_discrete x query pending) ≡ some query)
      × ((other : ℕ)
          → other ≢ xid
          → get_pending other (Map.insert ℕ_discrete x query pending) ≡ get_pending other pending)
entered query pending x free xid e =
    let same : x ≡ xid = ground arith in
    (
      subst (λ y. get_pending y pending ≡ none) same free,
      ground (arith, Map.get-insert ℕ_discrete x xid query pending),
      λ other n. ground (arith, Map.get-insert ℕ_discrete x other query pending),
    )

pub register_lem :
    (fuel : ℕ) (draws : ℕ → ℕ) (query : PendingQuery) (pending : PendingQueries)
    → length pending ≤ 4096
    → let (after, result) = register fuel draws query pending in
      (length after ≤ 4096)
      × (result ≡ none → after ≡ pending)
      × ((xid : ℕ)
          → result ≡ some xid
          → (get_pending xid pending ≡ none)
            × (get_pending xid after ≡ some query)
            × ((other : ℕ) → other ≢ xid → get_pending other after ≡ get_pending other pending))
unfolding register
register_lem fuel draws query pending h =
    elim (Bool-cases (leb max_pending_queries (length pending))) [
      | inl full ↦ rw full (h, λ _. refl, λ xid e. absurd (ground arith))
      | inr room ↦ elim (Option-cases (draw_xid fuel draws 0 pending)) [
        | inl e ↦ rw room (rw e (h, λ _. refl, λ xid e'. absurd (ground arith)))
        | inr (x, e) ↦
            let free = draw_xid-free fuel draws 0 pending x e in
            rw room (
              rw e (
                entered_length query pending x room,
                λ e'. absurd (ground arith),
                entered query pending x free,
              ))
      ]
    ]

-- With at most 4096 queries waiting, a query that is registered waits under an id that no other
-- waiting query had; the others wait as before, and no more than 4096 wait in all.
pub register-some :
    (fuel : ℕ) (draws : ℕ → ℕ) (query : PendingQuery) (pending : PendingQueries) (xid other : ℕ)
    → length pending ≤ 4096
    → (register fuel draws query pending).1 ≡ some xid
    → (get_pending xid pending ≡ none)
      × (get_pending other (register fuel draws query pending).0
          ≡ (if other == xid then some query else get_pending other pending))
      × (length (register fuel draws query pending).0 ≤ 4096)
register-some fuel draws query pending xid other few h =
    let (small, _, entry) = register_lem fuel draws query pending few in
    let (free, waits, rest) = entry xid h in (free, ground (arith, rest other), small)

-- A response is delivered at most once, to the query that waits under its id, and only if it comes
-- from the server that this query was sent to.
pub receive_response-delivers :
    (pending : PendingQueries) (from tx : ℕ) (bytes payload : List ℕ)
    → (receive_response pending from bytes).1 ≡ some (tx, payload)
    → (get_pending (xid_of bytes) pending ≡ some (record { tx = tx; upstream_ip = from }))
      × (payload ≡ bytes)
      × (12 ≤ length bytes)
      × (get_pending (xid_of bytes) (receive_response pending from bytes).0 ≡ none)
unfolding receive_response
receive_response-delivers pending from tx bytes payload h =
    elim (Bool-cases (ltb (length bytes) 12)) [
      | inl short ↦ absurd (ground arith)
      | inr long ↦ elim (Option-cases (get_pending (xid_of bytes) pending)) [
        | inl e ↦ absurd (ground arith)
        | inr (p, e) ↦ rw long (
          ground arith,
          ground arith,
          ground arith,
          Map.get-remove_self ℕ_discrete (xid_of bytes) pending,
        )
      ]
    ]

-- A response of a header's length or more from any other address, under the id of a waiting
-- query, delivers nothing and still ends that query's wait: the server's own response finds no
-- entry any more.
pub receive_response-spoofed :
    (pending : PendingQueries) (from server : ℕ) (fake genuine : List ℕ) (query : PendingQuery)
    → get_pending (xid_of fake) pending ≡ some query
    → from ≢ query.upstream_ip
    → 12 ≤ length fake
    → xid_of genuine ≡ xid_of fake
    → let (after, delivered) = receive_response pending from fake in
      (delivered ≡ none) × ((receive_response after server genuine).1 ≡ none)
unfolding receive_response
receive_response-spoofed pending from server fake genuine query g n long same =
    ground (arith, Map.get-remove_self ℕ_discrete (xid_of fake) pending)
