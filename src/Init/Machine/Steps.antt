-- ===== src/Init/Machine/Steps.antt =====
-- src/main.rs, `run_as_init`: the steps of the start as process 1.
use rustyrouter.Init.Config.{RouterConfig, Environment}
use rustyrouter.Prelude.{true, false, Bool, ◌≡◌, ap, arith, ◌==◌, if◌then◌else◌}
use rustyrouter.Init.Boot.{RebootMode}
use rustyrouter.Init.System.{mount_virtual_filesystems, real_system}
use rustyrouter.Init.Machine.{
  Platform, Machine, start_up, mount_and_load, configure_and_spawn, load_modules, reboot_machine,
  config_of, set_up_firewall, set_up_network, spawn_tasks, RouterConfig, Environment,
}

module _ (p : Platform) where
  pub mount_and_load-pid_1 :
      (m : Machine p)
      → p.nix.pid == 1 ≡ true
      → let (sys, mounted) =
          mount_virtual_filesystems (real_system p.nix) p.nix.write_modprobe_path m.system in
        mount_and_load p m ≡ (
          if mounted
          then (load_modules p (record m { system = sys }), true)
          else (reboot_machine p RebootMode.rb_autoboot (record m { system = sys }), false))
  unfolding mount_and_load
  mount_and_load-pid_1 m h = ground arith

  pub configure_and_spawn-pid_1 :
      (config : RouterConfig) (m : Machine p)
      → p.nix.pid == 1 ≡ true
      → let (m', done) = set_up_firewall p config (set_up_network p config m) in
        configure_and_spawn p config m
        ≡ (if done then spawn_tasks p config m' else reboot_machine p RebootMode.rb_autoboot m')
  unfolding configure_and_spawn
  configure_and_spawn-pid_1 config m h = ground arith

  -- The rest of the start, from what the second step gives.
  abbrev pub finish : Environment → Machine p × Bool → Machine p
  finish env r = elim r.1 [ true ↦ configure_and_spawn p (config_of p env r.0) r.0 | false ↦ r.0 ]

  pub start_up-finish :
      (env : Environment) (m : Machine p) (r : Machine p × Bool)
      → mount_and_load p m ≡ r
      → start_up p env m ≡ finish env r
  unfolding start_up
  start_up-finish env m r h = ap (finish env) h
