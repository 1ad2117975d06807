-- ===== src/Tests/Machine.antt =====
-- The theorems on the start of the machine and on the system at concrete inputs.
use rustyrouter.Init.Machine.{Stream, redirect_streams}
use rustyrouter.Init.Mock
use rustyrouter.Netfilter.Rules.{BatchEntry, Batch, rule_batch}
use rustyrouter.Prelude.{if◌then◌else◌, ◌==◌, ◌<◌, ◌≤◌}
use rustyrouter.Netfilter.Rules.{Batch, rule_batch}
use rustyrouter.Init.Boot
use rustyrouter.Init.Config.{RouterConfig, Environment}
use rustyrouter.Init.Machine.Guarded.{Installs}
use rustyrouter.Init.Machine.Refines.{answers, exec_all, run_as_init-exec_all}
use rustyrouter.Init.Machine.{Platform, Machine, run_as_init}
use rustyrouter.Init.Mock.{MockSystem, mock_system}
use rustyrouter.Init.Reaper.{WaitResult}
use rustyrouter.Init.Reaping.{Waits, reap_zombies-total, is_reaped}
use rustyrouter.Init.System.{Nix, reap_zombies}
use rustyrouter.Kmod.Modules.{Loader}
use rustyrouter.Prelude.{
  ℕ, suc, true, none, some, List, [], ◌∷◌, ◌+◌, ◌≡◌, refl, arith, length, if◌then◌else◌, ◌==◌,
}
use rustyrouter.Prelude.Text.{codes}
use rustyrouter.Tests.Init.{willing}
use rustyrouter.Tests.Netfilter.{rustables}

-- A kernel that mounts everything, and whose command line can be read after four mounts.
abbrev nix : Nix
nix = record {
  Kernel = ℕ;
  mount = λ m k. (k + 1, true);
  reboot = λ mode k. (0, true);
  waitpid = λ k. (k, WaitResult.no_child);
  read_cmdline = λ k. if k == 4 then some (codes "quiet rustyrouter.lan_ip=10.0.0.1/24") else none;
  pid = 1;
  opens_console = λ k. true;
  write_modprobe_path = λ k. k;
}

abbrev loader : Loader
loader = record {
  World = ℕ;
  load_module = λ w path. (suc w, true);
  find_module_file = λ w name. none;
}

abbrev platform : Platform
platform = record {
  nix = nix;
  handle = willing;
  rustables = rustables;
  loader = loader;
  files = record { release = []; modules_dir = []; modules_dep = none };
}

abbrev machine : Machine platform
machine = record {
  system = 0;
  net = 0;
  firewall = [];
  modules = record { world = 0; loaded = []; attempts = [] };
  tasks = [];
  streams = (Stream.inherited, Stream.inherited, Stream.inherited);
}

abbrev no_environment : Environment
no_environment = record { wan = none; lan = none; lan_ip = none }

abbrev read_config : RouterConfig
read_config = record {
  wan_interface = codes "eth0";
  lan_interface = codes "eth1";
  lan_ip = codes "10.0.0.1/24";
}

run_as_init-exec_all_example :
    let started = redirect_streams platform machine in
    run_as_init platform no_environment machine
    ≡ (exec_all platform no_environment
        (Boot.run_as_init (answers platform no_environment started))
        (record { machine = started; config = read_config })).machine
run_as_init-exec_all_example = run_as_init-exec_all platform no_environment machine read_config

-- The entries of a batch that are no deletion.
unfoldable kept : Batch → Batch
kept [] = []
kept (BatchEntry.del_table t ∷ rest) = kept rest
kept (e ∷ rest) = e ∷ kept rest

rustables-Installs : Installs rustables
unfolding kept rule_batch
rustables-Installs = record {
  in_force = kept;
  deleted = λ k h. refl;
  accepted = λ k wan lan h done. refl;
}

-- The children that are left, of a test double whose results are all of children that have ended.
abbrev ended_left : MockSystem → ℕ
ended_left sys = length sys.waitpid_results

waited_mock :
    (results : List WaitResult) (sys : MockSystem)
    → is_reaped (mock_system.waitpid (record sys { waitpid_results = results })).1 ≡ true
    → length (mock_system.waitpid (record sys { waitpid_results = results })).0.waitpid_results
      < length results
unfolding Mock.waitpid is_reaped
waited_mock [] sys h = cc
waited_mock (r ∷ rest) sys h = omega arith

mock-Waits : Waits mock_system
mock-Waits = record {
  children = ended_left;
  waited = λ sys h. waited_mock sys.waitpid_results sys h;
}

abbrev two_ended : MockSystem
two_ended = record Mock.new {
  waitpid_results = WaitResult.exited 42 0 ∷ WaitResult.signaled 43 9 ∷ WaitResult.no_child ∷ [];
}

reap_zombies-total_example :
    (r : List ℕ × MockSystem) × (reap_zombies mock_system 4 two_ended ≡ some r) × (length r.0 ≤ 3)
unfolding Mock.new mock-Waits
reap_zombies-total_example = reap_zombies-total mock_system mock-Waits 4 two_ended (omega arith)
