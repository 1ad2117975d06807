-- ===== src/Dns/Turns.antt =====
-- src/services/dns_forwarder.rs: what the turns of the tasks come to.
use rustyrouter.Dns.Pending.{
  PendingQuery, get_pending, register, register_lem, receive_response, give_up, xid_of,
  receive_response-spoofed,
}
use rustyrouter.Prelude.{
  ℕ, List, none, some, ◌≡◌, ◌≤◌, length, arith, ℕ_discrete, ◌≢◌, suc, sym, ap, refl,
}
use rustyrouter.Prelude.Map
use rustyrouter.Dns.Machine.{
  Forwarder, on_query, on_give_up, IsReachable, NoneTwice, on_response, with_delivery,
}
use rustyrouter.Dns.Once.{reachable-IsOnce}

-- However the tasks take turns at the table of waiting queries, no query's channel gets two
-- responses, and no more than 4096 queries wait.
pub IsReachable-NoneTwice :
    (st : Forwarder) → IsReachable st → NoneTwice st.delivered × (length st.pending ≤ 4096)
IsReachable-NoneTwice st r = let o = reachable-IsOnce r in (o.once, o.few)

-- With at most 4096 queries waiting: a query waits under an id, a packet of a header's length or more
-- from an address that it was not sent to comes under that id, and another query is then given the id.
-- The other query's task now waits under it and the response of its server would be delivered to it;
-- but when the first task gives up, under the same id, that response is not delivered any more.
pub on_give_up-reused :
    (st : Forwarder) (fuel fuel' : ℕ) (draws draws' : ℕ → ℕ) (upstream_ip other_ip from xid : ℕ)
    (stray bytes : List ℕ)
    → length st.pending ≤ 4096
    → (register fuel draws (record { tx = st.next_tx; upstream_ip = upstream_ip }) st.pending).1
      ≡ some xid
    → from ≢ upstream_ip
    → xid_of stray ≡ xid
    → 12 ≤ length stray
    → let robbed = on_response from stray (on_query fuel draws upstream_ip st) in
      let other : PendingQuery = record { tx = suc st.next_tx; upstream_ip = other_ip } in
      (register fuel' draws' other robbed.pending).1 ≡ some xid
      → xid_of bytes ≡ xid
      → 12 ≤ length bytes
      → let reused = on_query fuel' draws' other_ip robbed in
        (robbed.delivered ≡ st.delivered)
        × (get_pending xid reused.pending ≡ some other)
        × ((receive_response reused.pending other_ip bytes).1 ≡ some (suc st.next_tx, bytes))
        × ((receive_response (on_give_up xid reused).pending other_ip bytes).1 ≡ none)
unfolding on_query on_response on_give_up give_up receive_response
on_give_up-reused st fuel fuel' draws draws' upstream_ip other_ip from xid stray bytes few e wrong
      under long e' same long' =
    let first : PendingQuery = record { tx = st.next_tx; upstream_ip = upstream_ip } in
    let other : PendingQuery = record { tx = suc st.next_tx; upstream_ip = other_ip } in
    let (few', _, entry) = register_lem fuel draws first st.pending few in
    let (_, waits, _) = entry xid e in
    let robbed = on_response from stray (on_query fuel draws upstream_ip st) in
    let shrinks =
      Map.length-remove-le ℕ_discrete (xid_of stray) (register fuel draws first st.pending).0 in
    let few_left : length robbed.pending ≤ 4096 = ground arith in
    let found = rw (sym under) at waits in
    let silent =
      receive_response-spoofed (register fuel draws first st.pending).0 from from stray stray first
        found wrong long refl in
    let (_, _, entry') = register_lem fuel' draws' other robbed.pending few_left in
    let (_, waits', _) = entry' xid e' in
    (
      ap (λ delivery. with_delivery delivery st.delivered) silent.0,
      waits',
      ground (arith, waits'),
      ground (
        arith,
        Map.get-remove_self ℕ_discrete xid (register fuel' draws' other robbed.pending).0,
      ),
    )
