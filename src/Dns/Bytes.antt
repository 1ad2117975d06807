-- ===== src/Dns/Bytes.antt =====
-- src/services/dns_forwarder.rs: what the responses in the cache are made of.
use rustyrouter.Dns.Pending.{xid_of}
use rustyrouter.Dns.Cache.{DnsParser, lookup_cache}
use rustyrouter.Dns.Forward.{restore_xid, with_xid}
use rustyrouter.Dns.Provenance.{lookup_cache-IsGenuine}
use rustyrouter.Dns.Running.{Running, Reachable, IsAmong}
use rustyrouter.Prelude.{
  ℕ, List, [], ◌∷◌, some, ◌≡◌, ◌≤◌, arith, zero, suc, All, length, set, inl, inr, subst, Bool-cases,
  ◌<◌, length-set, ◌∙◌, leb, sym,
}

-- A list of `u8`.
abbrev pub IsBytes : List ℕ → Type 0
IsBytes = All (λ b. b < 256)

set-IsBytes : (xs : List ℕ) (i b : ℕ) → IsBytes xs → b < 256 → IsBytes (set xs i b)
set-IsBytes [] i b h lt = tt
set-IsBytes (x ∷ xs) zero b h lt = (lt, h.1)
set-IsBytes (x ∷ xs) (suc i) b h lt = (h.0, set-IsBytes xs i b h.1 lt)

with_xid-IsBytes : (xid : ℕ) (packet : List ℕ) → IsBytes packet → IsBytes (with_xid xid packet)
unfolding with_xid
with_xid-IsBytes xid packet h =
    set-IsBytes _ 1 _ (set-IsBytes packet 0 _ h (omega arith)) (omega arith)

length-with_xid : (xid : ℕ) (packet : List ℕ) → length (with_xid xid packet) ≡ length packet
unfolding with_xid
length-with_xid xid packet = length-set _ 1 _ ∙ length-set packet 0 _

restore_xid-IsBytes :
    (query packet response : List ℕ)
    → IsBytes packet
    → restore_xid query packet ≡ some response
    → IsBytes response × (12 ≤ length response)
unfolding restore_xid
restore_xid-IsBytes query packet response h e = elim (Bool-cases (leb 12 (length packet))) [
  | inr short ↦ absurd (ground arith)
  | inl long ↦
      let same : with_xid (xid_of query) packet ≡ response = ground arith in
      subst (λ r. IsBytes r × (12 ≤ length r)) same
        (with_xid-IsBytes _ packet h, ground (arith, length-with_xid (xid_of query) packet))
]

IsAmong-IsBytes :
    (from : ℕ) (bytes : List ℕ) (received : List (ℕ × List ℕ))
    → All (λ r. IsBytes r.1) received
    → IsAmong (from, bytes) received
    → IsBytes bytes
IsAmong-IsBytes from bytes [] h m = absurd m
IsAmong-IsBytes from bytes (r ∷ rest) h (inl e) = subst (λ q. IsBytes q.1) (sym e) h.0
IsAmong-IsBytes from bytes (r ∷ rest) h (inr m) = IsAmong-IsBytes from bytes rest h.1 m

-- However the tasks take turns: where every packet that has come from upstream is a list of bytes, what
-- the cache answers is one too, and it has room for a DNS header of twelve bytes, into which the
-- client's transaction id is written.
pub lookup_cache-IsBytes :
    (parse : DnsParser) (st : Running) (key response : List ℕ) (now : ℕ)
    → Reachable parse st
    → All (λ r. IsBytes r.1) st.received
    → (lookup_cache key st.shared.cache now).1 ≡ some response
    → IsBytes response × (12 ≤ length response)
lookup_cache-IsBytes parse st key response now r bytes h =
    let g = lookup_cache-IsGenuine parse st key response now r h in
    restore_xid-IsBytes g.a.query g.bytes response (IsAmong-IsBytes _ _ st.received bytes g.came)
      g.restored
