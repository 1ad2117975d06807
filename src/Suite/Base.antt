-- ===== src/Suite/Base.antt =====
-- What the unit tests of the repository share: addresses, comparisons, and a parser of networks for those
-- of `src/services/dhcp_server.rs`, which stands for the crate `ipnet` on the two networks that they name.
use rustyrouter.Prelude.{
  ℕ, zero, suc, List, [], ◌∷◌, Bool, true, false, Option, none, some, ◌+◌, ◌*◌, ◌-◌, ◌/◌, ◌==◌,
  if◌then◌else◌, ◌^◌,
}
use rustyrouter.Prelude.Text.{Text, same, codes}
use rustyrouter.Server.LeaseTable.{Ipv4Net}

-- `Ipv4Addr::new`
abbrev pub ipv4 : ℕ → ℕ → ℕ → ℕ → ℕ
ipv4 a b c d = ((a * 256 + b) * 256 + c) * 256 + d

-- `MacAddr::new`
abbrev pub mac : ℕ → ℕ → ℕ → ℕ → ℕ → ℕ → ℕ
mac a b c d e f = ((((a * 256 + b) * 256 + c) * 256 + d) * 256 + e) * 256 + f

-- `assert_eq!` between optional numbers.
unfoldable pub is_some_of : ℕ → Option ℕ → Bool
is_some_of n none = false
is_some_of n (some m) = m == n

abbrev pub is_none : {A : Type 0} → Option A → Bool
is_none none = true
is_none (some a) = false

-- The test goes on with what `unwrap` gives, and fails where it would panic.
abbrev pub unwrap : {A : Type 0} → Option A → (A → Bool) → Bool
unwrap none f = false
unwrap (some a) f = f a

unfoldable pub range_from : ℕ → ℕ → List ℕ
range_from zero n = []
range_from (suc count) n = n ∷ range_from count (n + 1)

abbrev network : ℕ → ℕ → Ipv4Net
unfolding range_from
network size hosts = record {
  addr = ipv4 192 168 1 1;
  netmask = 2 ^ 32 - size;
  hosts = range_from hosts (ipv4 192 168 1 1);
  contains = λ ip. ip / size == ipv4 192 168 1 1 / size;
}

unfoldable pub parse_net : Text → Option Ipv4Net
unfolding same range_from
parse_net cidr =
    if same cidr (codes "192.168.1.1/24")
    then some (network 256 254)
    else if same cidr (codes "192.168.1.1/30")
    then some (network 4 2)
    else none
