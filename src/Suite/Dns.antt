-- ===== src/Suite/Dns.antt =====
-- src/services/dns_forwarder.rs, module `tests`, over any parser of DNS packets; they are run on a
-- reader of the packets that they build, in which all names are in full or all pointer.
use rustyrouter.Dns.Cache.{ttl_of}
use rustyrouter.Prelude.{ℕ_discrete}
use rustyrouter.Dns.Cache.{DnsParser, get_cache_key, insert_cache, bytes_eq}
use rustyrouter.Prelude.{
  ℕ, zero, suc, Bool, true, Option, none, some, refl, ◌&&◌, ◌==◌, ◌+◌, ◌*◌, ◌-◌, ◌/◌, ◌≡◌, ◌++◌,
  List, [], ◌∷◌, leb, set, if◌then◌else◌, get_or,
}
use rustyrouter.Prelude.Map
use rustyrouter.Prelude.Set.{from_secs}
use rustyrouter.Prelude.Text.{same, codes}
use rustyrouter.Suite.Base.{unwrap, is_none}
use rustyrouter.Suite.Server.{now}

-- `vec![0u8; n]`
unfoldable pub zeros : ℕ → List ℕ
zeros zero = []
zeros (suc n) = 0 ∷ zeros n

-- "google.com" as a question of type A and class IN.
abbrev pub question : List ℕ
question = 6 ∷ codes "google" ++ 3 ∷ codes "com" ++ 0 ∷ 0 ∷ 1 ∷ 0 ∷ 1 ∷ []

unfoldable pub test_query : List ℕ
unfolding zeros
test_query = set (zeros 12) 5 1 ++ question

-- An answer of type A and class IN whose name points to the question.
abbrev pub answer : List ℕ → List ℕ → List ℕ
answer ttl ip = 0xc0 ∷ 0x0c ∷ 0 ∷ 1 ∷ 0 ∷ 1 ∷ [] ++ (ttl ++ (0 ∷ 4 ∷ [] ++ ip))

unfoldable pub test_response : List ℕ
unfolding zeros
test_response =
    let first = answer (0 ∷ 0 ∷ 1 ∷ 0x2c ∷ []) (8 ∷ 8 ∷ 8 ∷ 8 ∷ []) in
    let second = answer (0 ∷ 0 ∷ 0 ∷ 0x96 ∷ []) (8 ∷ 8 ∷ 4 ∷ 4 ∷ []) in
    set (set (zeros 12) 5 1) 7 2 ++ (question ++ (first ++ second))

module _ (parse : DnsParser) where
  unfoldable pub test_get_cache_key_valid : Bool
  unfolding test_query
  test_get_cache_key_valid =
      unwrap (get_cache_key parse test_query) (λ key. same key (codes "google.com:A:IN"))

  unfoldable pub test_get_cache_key_invalid : Bool
  unfolding zeros
  test_get_cache_key_invalid = is_none (get_cache_key parse (zeros 10))

  -- The clock stands still during the test.
  unfoldable pub test_insert_cache_ttl : Bool
  unfolding test_response
  test_insert_cache_ttl =
      unwrap
        (Map.get bytes_eq (codes "key") (insert_cache parse (codes "key") test_response [] now))
        (λ entry.
          let cache_ttl = (entry.expiry - now) / from_secs 1 in
          leb 148 cache_ttl && leb cache_ttl 150)

-- The labels of a name up to the zero, each followed by a dot but the last, and what comes after it.
unfoldable pub read_label : ℕ → List ℕ → List ℕ × List ℕ
read_label zero bytes = ([], bytes)
read_label (suc n) [] = ([], [])
read_label (suc n) (b ∷ bytes) = let (label, rest) = read_label n bytes in (b ∷ label, rest)

abbrev dotted : List ℕ → List ℕ → List ℕ
dotted label [] = label
dotted label (c ∷ name) = label ++ b'.' ∷ c ∷ name

unfoldable pub read_name : ℕ → List ℕ → List ℕ × List ℕ
unfolding read_label
read_name zero bytes = ([], bytes)
read_name (suc fuel) [] = ([], [])
read_name (suc fuel) (n ∷ bytes) =
    let (label, rest) = read_label n bytes in
    let (name, after) = read_name fuel rest in
    if n == 0 then ([], bytes) else (dotted label name, after)

-- The times to live of so many answers of 16 bytes.
unfoldable pub read_ttls : ℕ → List ℕ → List ℕ
read_ttls zero bytes = []
read_ttls (suc count) (_ ∷ _ ∷ _ ∷ _ ∷ _ ∷ _ ∷ a ∷ b ∷ c ∷ d ∷ _ ∷ _ ∷ _ ∷ _ ∷ _ ∷ _ ∷ rest) =
    (((a * 256 + b) * 256 + c) * 256 + d) ∷ read_ttls count rest
read_ttls (suc count) _ = []

-- The bytes after the first n: none if there are fewer.
unfoldable pub skip : ℕ → List ℕ → Option (List ℕ)
skip zero bytes = some bytes
skip (suc n) [] = none
skip (suc n) (b ∷ bytes) = skip n bytes

-- A packet with one question, of type A and class IN.
unfoldable pub read_packet : DnsParser
unfolding read_name read_ttls skip
read_packet bytes = elim (skip 12 bytes) [
  | none ↦ none
  | some body ↦
      let (name, rest) = read_name 8 body in
      elim (skip 4 rest) [
        | none ↦ none
        | some answers ↦ some (record {
          questions = (name ++ codes ":A:IN") ∷ [];
          ttls = read_ttls (get_or bytes 7 0) answers;
        })
      ]
]

passes :
    (test_get_cache_key_valid read_packet ≡ true)
    × (test_get_cache_key_invalid read_packet ≡ true)
    × (test_insert_cache_ttl read_packet ≡ true)
unfolding test_get_cache_key_valid test_get_cache_key_invalid test_insert_cache_ttl read_packet same
    get_cache_key insert_cache bytes_eq Map.get Map.insert ttl_of ℕ_discrete
passes = (refl, refl, refl)
