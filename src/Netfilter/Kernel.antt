-- ===== src/Netfilter/Kernel.antt =====
-- src/netfilter.rs: the kernel that runs its rules, with what nftables documents of each expression as
-- a law, and the constants of the crates as a law each.
use rustyrouter.Dns.Cache.{bytes_eq}
use Prim.Native.Nat.{bit_and, bit_xor}
use rustyrouter.Netfilter.Rules.{Expr, MetaType, CmpOp, VerdictKind, Rustables}
use rustyrouter.Prelude.{
  ℕ, zero, suc, List, [], ◌∷◌, ◌++◌, Bool, Option, some, none, ◌≡◌, ◌≢◌, ◌≤◌, ◌<◌, ◌-◌, All, length,
  ite, if◌then◌else◌,
}

-- A name that an interface can have: 16 bytes at most, none of them zero.
abbrev pub IsName : List ℕ → Type 0
IsName name = (length name ≤ 16) × All (λ c. c ≢ 0) name

unfoldable pub zeros : ℕ → List ℕ
zeros zero = []
zeros (suc n) = 0 ∷ zeros n

-- The register of an interface's name: 16 bytes, those after the name being zero.
abbrev pub name_register : List ℕ → List ℕ
name_register name = name ++ zeros (16 - length name)

-- What conntrack says of the connection of a packet.
pub data CtState : Type 0 where
  invalid established related new untracked : CtState

-- The register of a state: the least byte first, one bit for each state.
unfoldable pub state_register : CtState → List ℕ
state_register CtState.invalid = 1 ∷ 0 ∷ 0 ∷ 0 ∷ []
state_register CtState.established = 2 ∷ 0 ∷ 0 ∷ 0 ∷ []
state_register CtState.related = 4 ∷ 0 ∷ 0 ∷ 0 ∷ []
state_register CtState.new = 8 ∷ 0 ∷ 0 ∷ 0 ∷ []
state_register CtState.untracked = 64 ∷ 0 ∷ 0 ∷ 0 ∷ []

-- The register after `bitwise`, by its mask, its xor and what it held: each byte by itself.
unfoldable pub masked : List ℕ → List ℕ → List ℕ → List ℕ
masked (m ∷ mask) (x ∷ xor) (b ∷ reg) = bit_xor (bit_and b m) x ∷ masked mask xor reg
masked _ _ _ = []

pub record Nft : Type 1 where
  pub Packet : Type 0
  -- The names of the interfaces, the state of the connection, the protocol, and the two bytes of the
  -- destination port, the high one first.
  pub iif : Packet → List ℕ
  pub oif : Packet → List ℕ
  pub ct_state : Packet → CtState
  pub protocol : Packet → ℕ
  pub dport_high : Packet → ℕ
  pub dport_low : Packet → ℕ
  pub is_icmp : Packet → Bool
  -- The verdict of a rule's expressions, if they come to one; the register is given.
  pub run : List Expr → List ℕ → Packet → Option VerdictKind
  -- The verdict of a chain's rules under its policy.
  pub chain_verdict : List (List Expr) → VerdictKind → Packet → VerdictKind

pub record NftLaws (r : Rustables) (n : Nft) : Type 0 where
  pub iif-IsName : (p : n.Packet) → IsName (n.iif p)
  pub oif-IsName : (p : n.Packet) → IsName (n.oif p)
  pub dport_low-lt : (p : n.Packet) → n.dport_low p < 256
  pub established_bit : r.established ≡ 2
  pub related_bit : r.related ≡ 4
  pub udp_number : r.ipproto_udp ≡ 17
  pub dhcp_client_port : r.client_port ≡ 68
  pub run_iif :
      (es : List Expr) (reg : List ℕ) (p : n.Packet)
      → n.run (Expr.meta MetaType.iif_name ∷ es) reg p ≡ n.run es (name_register (n.iif p)) p
  pub run_oif :
      (es : List Expr) (reg : List ℕ) (p : n.Packet)
      → n.run (Expr.meta MetaType.oif_name ∷ es) reg p ≡ n.run es (name_register (n.oif p)) p
  pub run_ct :
      (es : List Expr) (reg : List ℕ) (p : n.Packet)
      → n.run (Expr.conntrack_state ∷ es) reg p ≡ n.run es (state_register (n.ct_state p)) p
  pub run_protocol :
      (es : List Expr) (reg : List ℕ) (p : n.Packet)
      → n.run (Expr.ipv4_protocol ∷ es) reg p ≡ n.run es (n.protocol p ∷ []) p
  pub run_dport :
      (es : List Expr) (reg : List ℕ) (p : n.Packet)
      → n.run (Expr.udp_dport ∷ es) reg p ≡ n.run es (n.dport_high p ∷ n.dport_low p ∷ []) p
  pub run_bitwise :
      (mask xor : List ℕ) (es : List Expr) (reg : List ℕ) (p : n.Packet)
      → n.run (Expr.bitwise mask xor ∷ es) reg p ≡ n.run es (masked mask xor reg) p
  pub run_eq :
      (bytes : List ℕ) (es : List Expr) (reg : List ℕ) (p : n.Packet)
      → n.run (Expr.cmp CmpOp.eq bytes ∷ es) reg p ≡ ite (bytes_eq reg bytes) (n.run es reg p) none
  pub run_neq :
      (bytes : List ℕ) (es : List Expr) (reg : List ℕ) (p : n.Packet)
      → n.run (Expr.cmp CmpOp.neq bytes ∷ es) reg p ≡ ite (bytes_eq reg bytes) none (n.run es reg p)
  pub run_verdict :
      (v : VerdictKind) (es : List Expr) (reg : List ℕ) (p : n.Packet)
      → n.run (Expr.verdict v ∷ es) reg p ≡ some v
  pub run_masquerade :
      (es : List Expr) (reg : List ℕ) (p : n.Packet)
      → n.run (Expr.masquerade ∷ es) reg p ≡ some VerdictKind.masqueraded
  pub run_icmp :
      (p : n.Packet)
      → n.run r.icmp_accept [] p ≡ (if n.is_icmp p then some VerdictKind.accept else none)
  pub chain_end : (policy : VerdictKind) (p : n.Packet) → n.chain_verdict [] policy p ≡ policy
  pub chain_next :
      (rule : List Expr) (rest : List (List Expr)) (policy : VerdictKind) (p : n.Packet)
      → n.chain_verdict (rule ∷ rest) policy p
        ≡ elim (n.run rule [] p) [ none ↦ n.chain_verdict rest policy p | some v ↦ v ]
