-- ===== src/Init/Machine/Refines.antt =====
-- src/main.rs, `run_as_init`: the machine does what the list of actions says.
use mathlib.Core.List.{append_assoc}
use rustyrouter.Prelude.Text.{codes}
use rustyrouter.Init.System.{
  virtual_mount, Mount, real_mount, mount_virtual_filesystems, real_system,
}
use rustyrouter.Init.Config.{Environment, RouterConfig}
use rustyrouter.Prelude.{
  [], ◌∷◌, true, false, inl, inr, refl, List, Bool, ◌++◌, ◌≡◌, ◌==◌, Bool-cases, sym, arith,
  if◌then◌else◌, ◌∙◌, ap,
}
use rustyrouter.Init.Boot
use rustyrouter.Init.Boot.{Action, Target, Service, Answers, RebootMode}
use rustyrouter.Init.Machine.Steps.{
  mount_and_load-pid_1, configure_and_spawn-pid_1, start_up-finish,
}
use rustyrouter.Init.Machine.{
  Platform, Machine, mount_and_load, Task, load_modules, start_up, run_as_init, redirect_streams,
  config_of, set_up_firewall, set_up_network, reboot_machine, spawn_tasks,
}

-- What each service is started with.
unfoldable pub task_of : RouterConfig → Service → Task
task_of config Service.orphan_reaper = Task.orphan_reaper
task_of config Service.signal_monitor = Task.signal_monitor
task_of config Service.power_button_monitor = Task.power_button_monitor
task_of config Service.dhcp_client = Task.dhcp_client config.wan_interface
task_of config Service.dhcp_server = Task.dhcp_server config.lan_interface config.lan_ip
task_of config Service.dns_forwarder = Task.dns_forwarder
task_of config Service.sntp_client = Task.sntp_client

unfoldable pub mount_of : Target → Mount
unfolding virtual_mount
mount_of Target.proc = virtual_mount (codes "/proc") (codes "proc")
mount_of Target.sys = virtual_mount (codes "/sys") (codes "sysfs")
mount_of Target.dev = virtual_mount (codes "/dev") (codes "devtmpfs")
mount_of Target.run = virtual_mount (codes "/run") (codes "tmpfs")

module _ (p : Platform) (env : Environment) where
  -- The machine, and the configuration that has been read last.
  pub record Stage : Type 0 where
    pub machine : Machine p
    pub config : RouterConfig

  abbrev on_machine : (Machine p → Machine p) → Stage → Stage
  on_machine f s = record s { machine = f s.machine }

  unfoldable pub mount_target : Target → Machine p → Machine p
  unfolding mount_of
  mount_target t m = record m { system = (real_mount p.nix (mount_of t) m.system).0 }

  unfoldable pub exec : Action → Stage → Stage
  unfolding mount_target task_of
  exec (Action.mount t) s = on_machine (mount_target t) s
  exec Action.set_modprobe_path s =
      on_machine (λ m. record m { system = p.nix.write_modprobe_path m.system }) s
  exec Action.load_required_modules s = on_machine (load_modules p) s
  exec Action.load_config s = record s { config = config_of p env s.machine }
  exec Action.configure_network s = on_machine (set_up_network p s.config) s
  exec Action.configure_firewall s = on_machine (λ m. (set_up_firewall p s.config m).0) s
  exec (Action.reboot mode) s = on_machine (reboot_machine p mode) s
  exec Action.set_shutdown_flag s = s
  exec (Action.spawn service) s =
      on_machine (λ m. record m { tasks = m.tasks ++ task_of s.config service ∷ [] }) s

  unfoldable pub exec_all : List Action → Stage → Stage
  unfolding exec
  exec_all [] s = s
  exec_all (a ∷ rest) s = exec_all rest (exec a s)

  abbrev mounts_at : Target → Machine p → Bool
  mounts_at t m = (real_mount p.nix (mount_of t) m.system).1

  -- The machine before the mount of a target.
  abbrev before : Target → Machine p → Machine p
  before Target.proc m = m
  before Target.sys m = mount_target Target.proc m
  before Target.dev m = mount_target Target.sys (mount_target Target.proc m)
  before Target.run m =
      mount_target Target.dev (mount_target Target.sys (mount_target Target.proc m))

  -- What the machine answers on its way.
  unfoldable pub answers : Machine p → Answers
  unfolding mount_target
  answers m =
      let m' = (mount_and_load p m).0 in
      let config = config_of p env m' in
      record {
        pid = p.nix.pid;
        mounts = λ t. mounts_at t (before t m);
        firewall_configured = (set_up_firewall p config (set_up_network p config m')).1;
        reboots = λ mode. (p.nix.reboot mode m.system).1;
      }

  exec_all-services :
      (s : Stage) → (exec_all Boot.services s).machine ≡ spawn_tasks p s.config s.machine
  unfolding exec_all spawn_tasks
  exec_all-services s = simp append_assoc

  exec_all-append :
      (xs ys : List Action) (s : Stage) → exec_all (xs ++ ys) s ≡ exec_all ys (exec_all xs s)
  unfolding exec_all
  exec_all-append [] ys s = refl
  exec_all-append (x ∷ xs) ys s = exec_all-append xs ys (exec x s)

  -- The mounts of the list are those of the system, to the same end.
  exec_all-mount_virtual_filesystems :
      (m : Machine p) (config : RouterConfig)
      → let (actions, mounted) = Boot.mount_virtual_filesystems (answers m) in
        let (sys, done) =
          mount_virtual_filesystems (real_system p.nix) p.nix.write_modprobe_path m.system in
        (exec_all actions (record { machine = m; config = config })
          ≡ record { machine = record m { system = sys }; config = config })
        × (mounted ≡ done)
  unfolding exec_all answers Boot.mount_virtual_filesystems mount_virtual_filesystems mount_of
      real_mount
  exec_all-mount_virtual_filesystems m config =
      elim (Bool-cases (mounts_at Target.proc (before Target.proc m))) [
        | inr a ↦ ground arith
        | inl a ↦ elim (Bool-cases (mounts_at Target.sys (before Target.sys m))) [
          | inr b ↦ ground arith
          | inl b ↦ elim (Bool-cases (mounts_at Target.dev (before Target.dev m))) [
            | inr c ↦ ground arith
            | inl c ↦ elim (Bool-cases (mounts_at Target.run (before Target.run m))) [
              | inr d ↦ ground arith
              | inl d ↦ ground arith
            ]
          ]
        ]
      ]

  start_up-user :
      (m : Machine p) (config : RouterConfig)
      → p.nix.pid == 1 ≡ false
      → (start_up p env m ≡ spawn_tasks p (config_of p env m) m)
        × (Boot.run_as_init (answers m) ≡ Action.load_config ∷ Boot.services)
  unfolding start_up Boot.run_as_init answers
  start_up-user m config user = ground arith

  firewall_configured-answers :
      (m : Machine p) (r : Machine p × Bool)
      → mount_and_load p m ≡ r
      → (answers m).firewall_configured
        ≡ (set_up_firewall p (config_of p env r.0) (set_up_network p (config_of p env r.0) r.0)).1
  unfolding answers
  firewall_configured-answers m r h =
      ap
        (λ (q : Machine p × Bool).
          (set_up_firewall p (config_of p env q.0) (set_up_network p (config_of p env q.0) q.0)).1)
        h

  exec_all-configure :
      (s : Stage) (configured : Bool)
      → let m' = load_modules p s.machine in
        let config' = config_of p env m' in
        let m'' = (set_up_firewall p config' (set_up_network p config' m')).0 in
        (exec_all
          (Action.load_required_modules
            ∷ Action.load_config
            ∷ Action.configure_network
            ∷ Action.configure_firewall
            ∷ (if configured then Boot.services else Action.reboot RebootMode.rb_autoboot ∷ []))
          s).machine
        ≡ (if configured
            then spawn_tasks p config' m''
            else reboot_machine p RebootMode.rb_autoboot m'')
  unfolding exec_all
  exec_all-configure s true = exec_all-services _
  exec_all-configure s false = refl

  start_up-pid_1 :
      (m : Machine p) (config : RouterConfig)
      → p.nix.pid == 1 ≡ true
      → start_up p env m
        ≡ (exec_all
            (Boot.run_as_init (answers m))
            (record { machine = m; config = config })).machine
  start_up-pid_1 m config e =
      let (ran, same_end) = exec_all-mount_virtual_filesystems m config in
      let (sys, mounted) =
        mount_virtual_filesystems (real_system p.nix) p.nix.write_modprobe_path m.system in
      let listed = Boot.run_as_init-pid_1 (answers m) (unfold answers in e) in
      let m' = load_modules p (record m { system = sys }) in
      let config' = config_of p env m' in
      let start : Stage = record { machine = record m { system = sys }; config = config } in
      elim (Bool-cases mounted) [
        | inr d ↦
            let loaded : mount_and_load p m
                ≡ (reboot_machine p RebootMode.rb_autoboot start.machine, false) =
              mount_and_load-pid_1 p m e ∙ rw d refl in
            rw (start_up-finish p env m _ loaded, listed, exec_all-append, ran, same_end, d)
              (unfold exec_all in refl)
        | inl d ↦
            let loaded : mount_and_load p m ≡ (m', true) = mount_and_load-pid_1 p m e ∙ rw d refl in
            rw
              (
                start_up-finish p env m _ loaded,
                listed,
                exec_all-append,
                ran,
                same_end,
                d,
                firewall_configured-answers m _ loaded,
                configure_and_spawn-pid_1 p config' m' e,
              )
              (sym (exec_all-configure start _))
      ]

  start_up-exec_all :
      (m : Machine p) (config : RouterConfig)
      → start_up p env m
        ≡ (exec_all
            (Boot.run_as_init (answers m))
            (record { machine = m; config = config })).machine
  unfolding exec_all
  start_up-exec_all m config = elim (Bool-cases (p.nix.pid == 1)) [
    | inr e ↦
        let (run, actions) = start_up-user m config e in
        rw (run, actions) (sym (exec_all-services _))
    | inl e ↦ start_up-pid_1 m config e
  ]

  -- Run on a machine, whose standard streams are led to the console if it can be opened, the start of the program leaves what its list of actions leaves, executed one after
  -- the other on that machine, with the answers of the machine deciding which they are.
  pub run_as_init-exec_all :
      (m : Machine p) (config : RouterConfig)
      → let m' = redirect_streams p m in
        run_as_init p env m
        ≡ (exec_all
            (Boot.run_as_init (answers m'))
            (record { machine = m'; config = config })).machine
  unfolding run_as_init
  run_as_init-exec_all m config = start_up-exec_all (redirect_streams p m) config
