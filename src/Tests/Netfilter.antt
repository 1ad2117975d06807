-- ===== src/Tests/Netfilter.antt =====
-- The theorems on the firewall at concrete inputs.
use rustyrouter.Dns.Cache.{bytes_eq}
use rustyrouter.Netfilter.Kernel.{
  IsName, Nft, NftLaws, CtState, name_register, state_register, masked, zeros,
}
use rustyrouter.Netfilter.Rules.{Expr, MetaType, CmpOp, VerdictKind, Rustables, Batch}
use rustyrouter.Netfilter.Verdict.{lo-IsName}
use rustyrouter.Prelude.{
  ℕ, List, [], ◌∷◌, Bool, true, false, Option, some, none, ite, if◌then◌else◌, refl, arith, ◌/◌,
  ◌%◌,
}
use rustyrouter.Prelude.Text.{codes}

-- A crate that builds everything, with a kernel that keeps the last batch.
abbrev pub rustables : Rustables
rustables = record {
  Kernel = Batch;
  send = λ k b. (b, true);
  rule_new = λ c. true;
  bitwise_new = λ a b. true;
  icmp_accept = Expr.built 1 ∷ Expr.verdict VerdictKind.accept ∷ [];
  established = 2;
  related = 4;
  ipproto_udp = 17;
  client_port = 68;
}

pub data Interface : Type 0 where
  lo eth0 eth1 : Interface

abbrev pub name_of : Interface → List ℕ
name_of Interface.lo = codes "lo"
name_of Interface.eth0 = codes "eth0"
name_of Interface.eth1 = codes "eth1"

pub eth0-IsName : IsName (codes "eth0")
eth0-IsName = (omega arith, (omega arith, (omega arith, (omega arith, (omega arith, tt)))))

pub eth1-IsName : IsName (codes "eth1")
eth1-IsName = (omega arith, (omega arith, (omega arith, (omega arith, (omega arith, tt)))))

name_of-IsName : (i : Interface) → IsName (name_of i)
name_of-IsName Interface.lo = lo-IsName
name_of-IsName Interface.eth0 = eth0-IsName
name_of-IsName Interface.eth1 = eth1-IsName

pub record Packet : Type 0 where
  pub iif : Interface
  pub oif : Interface
  pub ct_state : CtState
  pub protocol : ℕ
  pub dport : ℕ
  pub is_icmp : Bool

-- The expressions one after the other, with one register.
unfoldable pub run_exprs : List Expr → List ℕ → Packet → Option VerdictKind
unfolding masked state_register zeros
run_exprs [] reg p = none
run_exprs (Expr.meta MetaType.iif_name ∷ es) reg p = run_exprs es (name_register (name_of p.iif)) p
run_exprs (Expr.meta MetaType.oif_name ∷ es) reg p = run_exprs es (name_register (name_of p.oif)) p
run_exprs (Expr.cmp CmpOp.eq bytes ∷ es) reg p = ite (bytes_eq reg bytes) (run_exprs es reg p) none
run_exprs (Expr.cmp CmpOp.neq bytes ∷ es) reg p = ite (bytes_eq reg bytes) none (run_exprs es reg p)
run_exprs (Expr.conntrack_state ∷ es) reg p = run_exprs es (state_register p.ct_state) p
run_exprs (Expr.bitwise mask xor ∷ es) reg p = run_exprs es (masked mask xor reg) p
run_exprs (Expr.ipv4_protocol ∷ es) reg p = run_exprs es (p.protocol ∷ []) p
run_exprs (Expr.udp_dport ∷ es) reg p = run_exprs es (p.dport / 256 ∷ p.dport % 256 ∷ []) p
run_exprs (Expr.verdict v ∷ es) reg p = some v
run_exprs (Expr.masquerade ∷ es) reg p = some VerdictKind.masqueraded
run_exprs (Expr.built k ∷ es) reg p = if p.is_icmp then run_exprs es reg p else none

unfoldable pub run_rules : List (List Expr) → VerdictKind → Packet → VerdictKind
unfolding run_exprs
run_rules [] policy p = policy
run_rules (rule ∷ rest) policy p = elim (run_exprs rule [] p) [
  | none ↦ run_rules rest policy p
  | some v ↦ v
]

abbrev pub kernel : Nft
kernel = record {
  Packet = Packet;
  iif = λ p. name_of p.iif;
  oif = λ p. name_of p.oif;
  ct_state = λ p. p.ct_state;
  protocol = λ p. p.protocol;
  dport_high = λ p. p.dport / 256;
  dport_low = λ p. p.dport % 256;
  is_icmp = λ p. p.is_icmp;
  run = run_exprs;
  chain_verdict = run_rules;
}

pub kernel-NftLaws : NftLaws rustables kernel
unfolding run_exprs run_rules
kernel-NftLaws = record {
  iif-IsName = λ p. name_of-IsName p.iif;
  oif-IsName = λ p. name_of-IsName p.oif;
  dport_low-lt = λ p. omega arith;
  established_bit = refl;
  related_bit = refl;
  udp_number = refl;
  dhcp_client_port = refl;
  run_iif = λ es reg p. refl;
  run_oif = λ es reg p. refl;
  run_ct = λ es reg p. refl;
  run_protocol = λ es reg p. refl;
  run_dport = λ es reg p. refl;
  run_bitwise = λ mask xor es reg p. refl;
  run_eq = λ bytes es reg p. refl;
  run_neq = λ bytes es reg p. refl;
  run_verdict = λ v es reg p. refl;
  run_masquerade = λ es reg p. refl;
  run_icmp = λ p. refl;
  chain_end = λ policy p. refl;
  chain_next = λ rule rest policy p. refl;
}

-- A TCP segment for port 443 that arrives from outside, of a new connection.
abbrev pub unsolicited : Packet
unsolicited = record {
  iif = Interface.eth0;
  oif = Interface.eth1;
  ct_state = CtState.new;
  protocol = 6;
  dport = 443;
  is_icmp = false;
}

-- The same of an established connection.
abbrev reply : Packet
reply = record unsolicited { ct_state = CtState.established }
