-- ===== src/Netfilter/Verdict.antt =====
-- src/netfilter.rs: what the rules let through.
use rustyrouter.Netfilter.Compare.{is_named, is_known}
use rustyrouter.Netfilter.Kernel.{IsName, Nft}
use rustyrouter.Netfilter.Rules.{Expr, VerdictKind, Chain, BatchEntry, Batch}
use rustyrouter.Prelude.{ℕ, List, [], ◌∷◌, Bool, ◌||◌, ◌&&◌, ◌==◌, ◌+◌, ◌*◌, if◌then◌else◌, arith}
use rustyrouter.Prelude.Text.{Text, codes, same}

-- The rules of the chain of a name, in the order in which the batch adds them.
unfoldable pub rules_of : Text → Batch → List (List Expr)
rules_of name [] = []
rules_of name (BatchEntry.add_rule rule ∷ rest) =
    if same rule.chain.name name then rule.exprs ∷ rules_of name rest else rules_of name rest
rules_of name (_ ∷ rest) = rules_of name rest

module _ (n : Nft) where
  -- What the router lets in: everything on the loopback and LAN interfaces, on the WAN interface the
  -- replies to its DHCP client, that is UDP for port 68, and on any interface ICMP and what belongs to
  -- an established or related connection.
  abbrev pub is_dhcp_reply : n.Packet → Bool
  is_dhcp_reply p = (n.protocol p == 17) && (n.dport_high p * 256 + n.dport_low p == 68)

  abbrev pub is_tracked : n.Packet → Bool
  is_tracked p = is_known (n.ct_state p)

  abbrev pub is_let_in : List ℕ → List ℕ → n.Packet → Bool
  is_let_in wan lan p =
      is_named (n.iif p) (codes "lo")
      || is_named (n.iif p) lan
      || (is_named (n.iif p) wan && is_dhcp_reply p)
      || n.is_icmp p
      || is_tracked p

  -- The verdict of the chain that the batch gives a name and a policy.
  abbrev pub verdict_of : Chain → Batch → n.Packet → VerdictKind
  verdict_of chain batch p = n.chain_verdict (rules_of chain.name batch) chain.policy p

pub lo-IsName : IsName (codes "lo")
lo-IsName = (omega arith, (omega arith, (omega arith, tt)))
