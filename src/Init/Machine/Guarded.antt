-- ===== src/Init/Machine/Guarded.antt =====
-- src/main.rs, `run_as_init`, with src/config.rs and src/netfilter.rs: what is in force when the
-- services run.
use rustyrouter.Init.Boot.{RebootMode}
use rustyrouter.Init.Config.{RouterConfig}
use rustyrouter.Init.Machine.{Machine, Platform, as_bytes, RebootMode}
use rustyrouter.Init.System.{mount_virtual_filesystems, real_system}
use rustyrouter.Netfilter.Rules.{Rustables, Batch, del_batch, rule_batch, configure_firewall}
use rustyrouter.Prelude.{ℕ, List, Bool, [], true, ◌≡◌}

-- A kernel that keeps what it has accepted: the entries of the router's table, if there are any. The
-- deletion of a table that is not there adds nothing, and the rules, once accepted, are in force.
pub record Installs (r : Rustables) : Type 0 where
  pub in_force : r.Kernel → Batch
  pub deleted : (k : r.Kernel) → in_force k ≡ [] → in_force (r.send k del_batch).0 ≡ []
  pub accepted :
      (k : r.Kernel) (wan_iface lan_iface : List ℕ)
      → in_force k ≡ []
      → (r.send k (rule_batch r wan_iface lan_iface)).1 ≡ true
      → in_force (r.send k (rule_batch r wan_iface lan_iface)).0 ≡ rule_batch r wan_iface lan_iface

module _ (p : Platform) (m : Machine p) where
  -- What the mounts leave, and whether all succeed.
  abbrev pub after_mounts : p.nix.Kernel × Bool
  after_mounts = mount_virtual_filesystems (real_system p.nix) p.nix.write_modprobe_path m.system

  -- Whether the kernel takes the firewall for the interfaces of the configuration.
  abbrev pub takes_firewall : RouterConfig → Bool
  takes_firewall config =
      (configure_firewall p.rustables (as_bytes config.wan_interface)
        (as_bytes config.lan_interface) m.firewall).1
