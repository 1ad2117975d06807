-- ===== src/Init/Machine.antt =====
-- src/main.rs, `run_as_init` over the states of the kernel: what the services are started with, and
-- what the kernel has been told by then.
mod Steps
pub mod Refines
pub mod Guarded
use rustyrouter.Prelude.{
  ◌++◌, Bool, List, ℕ, if◌then◌else◌, ◌==◌, ◌&&◌, ◌∷◌, ltb, [], ◌+◌, ◌/◌, ◌%◌, true, false,
}
use rustyrouter.Init.Boot.{RebootMode}
use rustyrouter.Init.Config.{RouterConfig, Environment, parse}
use rustyrouter.Init.System.{Nix, real_system, mount_virtual_filesystems}
use rustyrouter.Kmod.Entry.{load_required_modules}
use rustyrouter.Kmod.Modules.{Loader, State, ModuleFiles}
use rustyrouter.Netfilter.Rules.{Rustables, configure_firewall}
use rustyrouter.Network.{Handle, configure_network}
use rustyrouter.Prelude.Text.{Text}

-- The parts of the kernel that the program speaks to, each with its own state.
pub record Platform : Type 1 where
  pub nix : Nix
  pub handle : Handle
  pub rustables : Rustables
  pub loader : Loader
  pub files : ModuleFiles

-- The tasks that are spawned, with the names that they are given.
pub data Task : Type 0 where
  orphan_reaper signal_monitor power_button_monitor : Task
  dhcp_client : Text → Task
  dhcp_server : Text → Text → Task
  dns_forwarder sntp_client : Task

-- Where the descriptors 0, 1 and 2 lead.
pub data Stream : Type 0 where
  inherited console : Stream

unfoldable pub tasks_of : RouterConfig → List Task
tasks_of config =
    Task.orphan_reaper
    ∷ Task.signal_monitor
    ∷ Task.power_button_monitor
    ∷ Task.dhcp_client config.wan_interface
    ∷ Task.dhcp_server config.lan_interface config.lan_ip
    ∷ Task.dns_forwarder
    ∷ Task.sntp_client
    ∷ []

-- `str::as_bytes`: UTF-8.
unfoldable pub encode_char : ℕ → List ℕ
encode_char c =
    if ltb c 128
    then c ∷ []
    else if ltb c 2048
    then (192 + c / 64) ∷ (128 + c % 64) ∷ []
    else if ltb c 65536
    then (224 + c / 4096) ∷ (128 + c / 64 % 64) ∷ (128 + c % 64) ∷ []
    else (240 + c / 262144) ∷ (128 + c / 4096 % 64) ∷ (128 + c / 64 % 64) ∷ (128 + c % 64) ∷ []

unfoldable pub as_bytes : Text → List ℕ
unfolding encode_char
as_bytes [] = []
as_bytes (c ∷ s) = encode_char c ++ as_bytes s

module _ (p : Platform) where
  pub record Machine : Type 0 where
    pub system : p.nix.Kernel
    pub net : p.handle.Kernel
    pub firewall : p.rustables.Kernel
    pub modules : State p.loader
    pub tasks : List Task
    pub streams : Stream × Stream × Stream

  abbrev is_pid_1 : Bool
  is_pid_1 = p.nix.pid == 1

  unfoldable pub reboot_machine : RebootMode → Machine → Machine
  reboot_machine mode m = record m { system = (p.nix.reboot mode m.system).0 }

  -- `configure_network` on the machine; its failure is only printed.
  unfoldable pub set_up_network : RouterConfig → Machine → Machine
  set_up_network config m = record m {
    net =
        (configure_network p.handle m.net config.wan_interface config.lan_interface
          config.lan_ip).0;
  }

  -- `configure_firewall` on the machine, and whether it succeeded.
  unfoldable pub set_up_firewall : RouterConfig → Machine → Machine × Bool
  set_up_firewall config m =
      let (firewall', done) =
        configure_firewall p.rustables (as_bytes config.wan_interface)
          (as_bytes config.lan_interface) m.firewall in
      (record m { firewall = firewall' }, done)

  unfoldable pub spawn_tasks : RouterConfig → Machine → Machine
  unfolding tasks_of
  spawn_tasks config m = record m { tasks = m.tasks ++ tasks_of config }

  -- Steps 4 and 5, with the configuration of step 3.
  unfoldable pub configure_and_spawn : RouterConfig → Machine → Machine
  unfolding set_up_network set_up_firewall spawn_tasks reboot_machine
  configure_and_spawn config m = elim is_pid_1 [
    | false ↦ spawn_tasks config m
    | true ↦
        let (m', done) = set_up_firewall config (set_up_network config m) in
        elim done [
          | true ↦ spawn_tasks config m'
          | false ↦ reboot_machine RebootMode.rb_autoboot m'
        ]
  ]

  unfoldable pub load_modules : Machine → Machine
  load_modules m = record m { modules = load_required_modules p.loader p.files m.modules }

  -- `RouterConfig::parse` on the system.
  unfoldable pub config_of : Environment → Machine → RouterConfig
  config_of env m = parse env (p.nix.read_cmdline m.system)

  -- Step 2: the machine afterwards, and whether the start goes on.
  unfoldable pub mount_and_load : Machine → Machine × Bool
  unfolding load_modules reboot_machine
  mount_and_load m = elim is_pid_1 [
    | false ↦ (m, true)
    | true ↦
        let (sys, mounted) =
          mount_virtual_filesystems (real_system p.nix) p.nix.write_modprobe_path m.system in
        elim mounted [
          | true ↦ (load_modules (record m { system = sys }), true)
          | false ↦ (reboot_machine RebootMode.rb_autoboot (record m { system = sys }), false)
        ]
  ]

  unfoldable pub start_up : Environment → Machine → Machine
  unfolding mount_and_load configure_and_spawn config_of
  start_up env m =
      let (m', goes_on) = mount_and_load m in
      elim goes_on [ true ↦ configure_and_spawn (config_of env m') m' | false ↦ m' ]

  -- The three calls of `dup2`, if the console can be opened.
  unfoldable pub redirect_streams : Machine → Machine
  redirect_streams m = record m {
    streams =
        if is_pid_1 && p.nix.opens_console m.system
        then (Stream.console, Stream.console, Stream.console)
        else m.streams;
  }

  unfoldable pub run_as_init : Environment → Machine → Machine
  unfolding start_up redirect_streams
  run_as_init env m = start_up env (redirect_streams m)
