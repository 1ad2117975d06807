-- ===== src/Netfilter/Rules.antt =====
-- src/netfilter.rs, `configure_firewall`: the objects that it builds and the batches that it sends. The
-- crate `rustables` is a parameter: what may fail in building a rule, the expressions of its `icmp` and
-- `accept`, its constants, and the sending of a batch.
use Prim.Native.Nat.{bit_or}
use rustyrouter.Netfilter.Names.{pad_interface_name}
use rustyrouter.Prelude.{ℕ, List, [], ◌∷◌, Bool, false, ◌&&◌, if◌then◌else◌, ◌/◌, ◌%◌}
use rustyrouter.Prelude.Text.{Text, codes}

pub data MetaType : Type 0 where
  oif_name iif_name : MetaType

pub data CmpOp : Type 0 where
  eq neq : CmpOp

pub data VerdictKind : Type 0 where
  accept drop masqueraded : VerdictKind

-- `rustables::expr`, with the expressions that the rules use; each payload is the header field read.
pub data Expr : Type 0 where
  meta : MetaType → Expr
  cmp : CmpOp → List ℕ → Expr
  conntrack_state : Expr
  bitwise : List ℕ → List ℕ → Expr
  ipv4_protocol : Expr
  udp_dport : Expr
  verdict : VerdictKind → Expr
  masquerade : Expr
  -- An expression that only the crate writes.
  built : ℕ → Expr

pub data HookClass : Type 0 where
  post_routing in_hook : HookClass

pub data ChainType : Type 0 where
  nat filter : ChainType

pub record Chain : Type 0 where
  pub name : Text
  pub hook : HookClass
  pub priority : ℕ
  pub chain_type : ChainType
  pub policy : VerdictKind

pub record Rule : Type 0 where
  pub chain : Chain
  pub exprs : List Expr

pub data BatchEntry : Type 0 where
  del_table add_table : Text → BatchEntry
  add_chain : Chain → BatchEntry
  add_rule : Rule → BatchEntry

abbrev pub Batch : Type 0
Batch = List BatchEntry

pub record Rustables : Type 1 where
  pub Kernel : Type 0
  pub send : Kernel → Batch → Kernel × Bool
  -- Whether `Rule::new` and `Bitwise::new` succeed.
  pub rule_new : Chain → Bool
  pub bitwise_new : List ℕ → List ℕ → Bool
  -- The expressions of `Rule::new(…).icmp().accept()`.
  pub icmp_accept : List Expr
  pub established : ℕ
  pub related : ℕ
  pub ipproto_udp : ℕ
  -- `dhcproto::v4::CLIENT_PORT`
  pub client_port : ℕ

-- `u32::to_le_bytes`
unfoldable pub to_le_bytes : ℕ → List ℕ
to_le_bytes n = n % 256 ∷ n / 256 % 256 ∷ n / 65536 % 256 ∷ n / 16777216 % 256 ∷ []

-- `0u32.to_be_bytes()`
abbrev pub zero_bytes : List ℕ
zero_bytes = 0 ∷ 0 ∷ 0 ∷ 0 ∷ []

-- `u16::to_be_bytes`
unfoldable pub port_bytes : ℕ → List ℕ
port_bytes n = n / 256 % 256 ∷ n % 256 ∷ []

abbrev pub table_name : Text
table_name = codes "rustyrouter"

abbrev pub nat_chain : Chain
nat_chain = record {
  name = codes "nat_postrouting";
  hook = post_routing;
  priority = 100;
  chain_type = nat;
  policy = accept;
}

abbrev pub filter_chain : Chain
filter_chain = record {
  name = codes "filter_input";
  hook = in_hook;
  priority = 0;
  chain_type = filter;
  policy = drop;
}

abbrev pub del_batch : Batch
del_batch = del_table table_name ∷ []

-- The rule that accepts what arrives on an interface.
unfoldable pub from_interface : List ℕ → List Expr
from_interface name = meta iif_name ∷ cmp eq (pad_interface_name name) ∷ verdict accept ∷ []

unfoldable pub masq_rule : List ℕ → List Expr
masq_rule wan_iface = meta oif_name ∷ cmp eq (pad_interface_name wan_iface) ∷ masquerade ∷ []

module _ (r : Rustables) where
  unfoldable pub state_mask : List ℕ
  state_mask = to_le_bytes (bit_or r.established r.related)

  unfoldable pub ct_rule : List Expr
  unfolding state_mask
  ct_rule =
      conntrack_state ∷ bitwise state_mask zero_bytes ∷ cmp neq zero_bytes ∷ verdict accept ∷ []

  unfoldable pub wan_dhcp_rule : List ℕ → List Expr
  wan_dhcp_rule wan_iface =
      meta iif_name
      ∷ cmp eq (pad_interface_name wan_iface)
      ∷ ipv4_protocol
      ∷ cmp eq (r.ipproto_udp ∷ [])
      ∷ udp_dport
      ∷ cmp eq (port_bytes r.client_port)
      ∷ verdict accept
      ∷ []

  unfoldable pub rule_batch : List ℕ → List ℕ → Batch
  unfolding ct_rule wan_dhcp_rule
  rule_batch wan_iface lan_iface =
      add_table table_name
      ∷ add_chain nat_chain
      ∷ add_chain filter_chain
      ∷ add_rule (record { chain = nat_chain; exprs = masq_rule wan_iface })
      ∷ add_rule (record { chain = filter_chain; exprs = from_interface (codes "lo") })
      ∷ add_rule (record { chain = filter_chain; exprs = from_interface lan_iface })
      ∷ add_rule (record { chain = filter_chain; exprs = wan_dhcp_rule wan_iface })
      ∷ add_rule (record { chain = filter_chain; exprs = r.icmp_accept })
      ∷ add_rule (record { chain = filter_chain; exprs = ct_rule })
      ∷ []

  -- Whether every object is built: the calls that may fail, in their order.
  unfoldable pub is_built : Bool
  unfolding state_mask
  is_built = r.rule_new nat_chain && r.rule_new filter_chain && r.bitwise_new state_mask zero_bytes

  -- The kernel afterwards, and whether the whole succeeded. The result of the deletion is ignored.
  unfoldable pub configure_firewall : List ℕ → List ℕ → r.Kernel → r.Kernel × Bool
  unfolding rule_batch is_built
  configure_firewall wan_iface lan_iface k =
      let flushed = (r.send k del_batch).0 in
      if is_built then r.send flushed (rule_batch wan_iface lan_iface) else (flushed, false)
