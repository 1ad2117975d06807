-- ===== src/Dns/Cache.antt =====
-- src/services/dns_forwarder.rs: the cache of responses. The crate `dns_parser` is a parameter: what
-- it reads in a packet, and the key that the forwarder formats from a question.
use rustyrouter.Prelude.Set.{from_secs}
use Prim.Native.Nat.{min}
use rustyrouter.Prelude.{
  ℕ, none, some, [], ◌∷◌, Bool, List, Option, ◌≤◌, ℕ_discrete, if◌then◌else◌, ◌+◌, ◌≡◌, ltb, arith,
  length, ◌==◌, ◌<◌, ite, All, any, true, Option-cases, Bool-cases, inl, inr, refl, sym, ◌*◌,
}
use rustyrouter.Prelude.Map
use rustyrouter.Prelude.Map.{Map}

pub record DnsPacket : Type 0 where
  -- The questions, each formatted as "name:type:class".
  pub questions : List (List ℕ)
  -- The times to live of the answers.
  pub ttls : List ℕ

abbrev pub DnsParser : Type 0
DnsParser = List ℕ → Option DnsPacket

pub record CacheEntry : Type 0 where
  pub response : List ℕ
  pub expiry : ℕ

unfoldable pub bytes_eq : Discrete (List ℕ)
bytes_eq = hlevel ℕ_discrete

abbrev pub Cache : Type 0
Cache = Map (List ℕ) CacheEntry

abbrev pub dns_header_size : ℕ
dns_header_size = 12

abbrev pub default_ttl_secs : ℕ
default_ttl_secs = 30

abbrev pub max_ttl_secs : ℕ
max_ttl_secs = 3600

abbrev first_key : List (List ℕ) → Option (List ℕ)
first_key [] = none
first_key (q ∷ rest) = some q

unfoldable pub get_cache_key : DnsParser → List ℕ → Option (List ℕ)
get_cache_key parse query_bytes = elim (parse query_bytes) [
  | none ↦ none
  | some packet ↦ first_key packet.questions
]

abbrev is_fresh : ℕ → CacheEntry → Bool
is_fresh now entry = ltb now entry.expiry

-- The cache, from which an expired entry is taken, and the response.
unfoldable pub lookup_cache : List ℕ → Cache → ℕ → Cache × Option (List ℕ)
lookup_cache cache_key cache now = elim (Map.get bytes_eq cache_key cache) [
  | none ↦ (cache, none)
  | some entry ↦
      if is_fresh now entry
      then (cache, some entry.response)
      else (Map.remove bytes_eq cache_key cache, none)
]

-- `iter().min()`
unfoldable pub minimum : List ℕ → Option ℕ
minimum [] = none
minimum (t ∷ rest) = elim (minimum rest) [ none ↦ some t | some m ↦ some (min t m) ]

abbrev or_default : Option ℕ → ℕ
or_default none = default_ttl_secs
or_default (some t) = t

unfoldable pub ttl_of : DnsPacket → ℕ
unfolding minimum
ttl_of packet = or_default (minimum packet.ttls)

abbrev stored : ℕ → List ℕ → DnsPacket → CacheEntry
stored now response packet = record {
  response = response;
  expiry = now + from_secs (min max_ttl_secs (ttl_of packet));
}

unfoldable pub insert_cache : DnsParser → List ℕ → List ℕ → Cache → ℕ → Cache
insert_cache parse cache_key response cache now =
    if ltb (length response) dns_header_size then cache else elim (parse response) [
      | none ↦ cache
      | some packet ↦
          if ttl_of packet == 0
          then cache
          else Map.insert bytes_eq cache_key (stored now response packet) cache
    ]

-- A round of the periodic cleanup.
unfoldable pub cleanup : Cache → ℕ → Cache
cleanup cache now = Map.retain (is_fresh now) cache

-- None of the numbers is smaller than one of them, or there are none and it is 30.
abbrev pub IsTtl : ℕ → List ℕ → Type 0
IsTtl ttl [] = ttl ≡ 30
IsTtl ttl (t ∷ ttls) = All (λ u. ttl ≤ u) (t ∷ ttls) × (any (λ u. u == ttl) (t ∷ ttls) ≡ true)

minimum-le : (ttl m : ℕ) (ttls : List ℕ) → All (λ u. ttl ≤ u) ttls → minimum ttls ≡ some m → ttl ≤ m
unfolding minimum
minimum-le ttl m [] least h = absurd (ground arith)
minimum-le ttl m (t ∷ ttls) least h = elim (Option-cases (minimum ttls)) [
  | inl e ↦ ground (arith, least.0)
  | inr (n, e) ↦
      let low = minimum-le ttl n ttls least.1 e in
      let first = least.0 in let same : min t n ≡ m = ground arith in omega arith
]

minimum-some :
    (ttl : ℕ) (ttls : List ℕ)
    → All (λ u. ttl ≤ u) ttls
    → any (λ u. u == ttl) ttls ≡ true
    → minimum ttls ≡ some ttl
unfolding minimum any
minimum-some ttl [] least h = absurd (ground arith)
minimum-some ttl (t ∷ ttls) least h =
    let first = least.0 in
    elim (Bool-cases (any (λ u. u == ttl) ttls)) [
      | inl later ↦
          let e : min t ttl ≡ ttl = omega arith in rw (minimum-some ttl ttls least.1 later, e) refl
      | inr last ↦
          let here : t ≡ ttl = ground arith in
          elim (Option-cases (minimum ttls)) [
            | inl e ↦ rw (e, here) refl
            | inr (m, e) ↦
                let low = minimum-le ttl m ttls least.1 e in
                let same : min t m ≡ ttl = omega arith in rw (e, same) refl
          ]
    ]

ttl_of-IsTtl : (packet : DnsPacket) (ttl : ℕ) → IsTtl ttl packet.ttls → ttl_of packet ≡ ttl
unfolding ttl_of minimum
ttl_of-IsTtl packet ttl h = go packet.ttls h
  where
    go : (ttls : List ℕ) → IsTtl ttl ttls → or_default (minimum ttls) ≡ ttl
    go [] e = sym e
    go (t ∷ ttls) (least, found) = rw (minimum-some ttl (t ∷ ttls) least found) refl

-- A stored response, one that is read by the parser, has a header's length or more and a time to
-- live above 0, is returned until that time, at most an hour, has passed, and never later; other
-- questions are answered as before. The time to live is the smallest of its answers' in seconds, or 30
-- if there are none.
pub lookup_cache-insert_cache :
    (parse : DnsParser) (key other response : List ℕ) (cache : Cache) (now later ttl : ℕ)
    (packet : DnsPacket)
    → parse response ≡ some packet
    → 12 ≤ length response
    → IsTtl ttl packet.ttls
    → 0 < ttl
    → (lookup_cache other (insert_cache parse key response cache now) later).1
      ≡ ite
          (bytes_eq other key)
          (if ltb later (now + min 3600 ttl * 1_000_000_000) then some response else none)
          (lookup_cache other cache later).1
unfolding lookup_cache insert_cache
lookup_cache-insert_cache parse key other response cache now later ttl packet p long least pos =
    let same = ttl_of-IsTtl packet ttl least in
    ground (arith, same, Map.get-insert bytes_eq key other (stored now response packet) cache)

-- A response of time to live 0 is not stored.
pub insert_cache-zero :
    (parse : DnsParser) (key response : List ℕ) (cache : Cache) (now : ℕ) (packet : DnsPacket)
    → parse response ≡ some packet
    → ttl_of packet ≡ 0
    → insert_cache parse key response cache now ≡ cache
unfolding insert_cache
insert_cache-zero parse key response cache now packet p z = ground arith

-- In a cache with one entry for a question at most, the cleanup changes no answer at that instant
-- or later.
pub lookup_cache-cleanup :
    (key : List ℕ) (cache : Cache) (now later : ℕ)
    → Map.Distinct bytes_eq cache
    → now ≤ later
    → (lookup_cache key (cleanup cache now) later).1 ≡ (lookup_cache key cache later).1
unfolding lookup_cache cleanup
lookup_cache-cleanup key cache now later d h =
    ground (arith, Map.get-retain bytes_eq (is_fresh now) key cache d)
