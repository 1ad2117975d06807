-- ===== src/Init/System.antt =====
-- src/system.rs: the trait `SystemOps` as an interface, its implementation by the kernel of `nix`, and
-- what the program does through it; src/reaper.rs, `reap_zombies` over the trait.
use rustyrouter.Prelude.{
  ℕ, List, none, Bool, Option, if◌then◌else◌, true, some, ◌∷◌, suc, ◌==◌, [], false, zero,
}
use rustyrouter.Init.Boot.{RebootMode}
use rustyrouter.Init.Reaper.{WaitResult}
use rustyrouter.Prelude.Text.{Text, codes}

-- The arguments of `mount`; the flags are their bits.
pub record Mount : Type 0 where
  pub source : Option Text
  pub target : Text
  pub fstype : Text
  pub flags : ℕ
  pub options : Option Text

-- Each call gives the system afterwards, and whether it succeeded.
pub record SystemOps : Type 1 where
  pub System : Type 0
  pub mount : Mount → System → System × Bool
  pub reboot : RebootMode → System → System × Bool
  -- Any child, without waiting.
  pub waitpid : System → System × WaitResult
  pub read_cmdline : System → Option Text
  pub getpid : System → ℕ

-- The crate `nix` and the files under `/proc`. A process keeps its number.
pub record Nix : Type 1 where
  pub Kernel : Type 0
  pub mount : Mount → Kernel → Kernel × Bool
  pub reboot : RebootMode → Kernel → Kernel × Bool
  pub waitpid : Kernel → Kernel × WaitResult
  pub read_cmdline : Kernel → Option Text
  pub pid : ℕ
  -- Whether `/dev/console` can be opened.
  pub opens_console : Kernel → Bool
  -- The write to `/proc/sys/kernel/modprobe`, which may fail.
  pub write_modprobe_path : Kernel → Kernel

-- `RealSystem` mounts nothing unless it is process 1, and says that it did.
unfoldable pub real_mount : (n : Nix) → Mount → n.Kernel → n.Kernel × Bool
real_mount n m k = if n.pid == 1 then n.mount m k else (k, true)

abbrev pub real_system : Nix → SystemOps
real_system n = record {
  System = n.Kernel;
  mount = real_mount n;
  reboot = n.reboot;
  waitpid = n.waitpid;
  read_cmdline = n.read_cmdline;
  getpid = λ k. n.pid;
}

unfoldable pub virtual_mount : Text → Text → Mount
virtual_mount target fstype = record {
  source = none;
  target = target;
  fstype = fstype;
  flags = 0;
  options = none;
}

unfoldable pub virtual_filesystems : List Mount
unfolding virtual_mount
virtual_filesystems =
    virtual_mount (codes "/proc") (codes "proc")
    ∷ virtual_mount (codes "/sys") (codes "sysfs")
    ∷ virtual_mount (codes "/dev") (codes "devtmpfs")
    ∷ virtual_mount (codes "/run") (codes "tmpfs")
    ∷ []

abbrev reaped {ℓ} : {A : Type ℓ} → ℕ → Option (List ℕ × A) → Option (List ℕ × A)
reaped pid none = none
reaped pid (some (pids, sys)) = some (pid ∷ pids, sys)

module _ (s : SystemOps) where
  -- The mounts up to the first that fails, as the question marks do.
  unfoldable pub mount_each : List Mount → s.System → s.System × Bool
  mount_each [] sys = (sys, true)
  mount_each (m ∷ rest) sys =
      let (sys', mounted) = s.mount m sys in
      elim mounted [ true ↦ mount_each rest sys' | false ↦ (sys', false) ]

  -- `write_path` is the write of the helper's path; its failure is only printed.
  unfoldable pub mount_virtual_filesystems : (s.System → s.System) → s.System → s.System × Bool
  unfolding mount_each virtual_filesystems
  mount_virtual_filesystems write_path sys =
      let (sys', mounted) = mount_each virtual_filesystems sys in
      elim mounted [ true ↦ (write_path sys', true) | false ↦ (sys', false) ]

  -- What the panic hook leaves, and whether it returns.
  unfoldable pub panic_hook : s.System → s.System × Bool
  panic_hook sys =
      let sys' = (s.reboot RebootMode.rb_autoboot sys).0 in
      (sys', if s.getpid sys' == 1 then false else true)

  -- The loop on fuel: the children reaped, in order, or none where the fuel runs out.
  unfoldable pub reap_zombies : ℕ → s.System → Option (List ℕ × s.System)
  reap_zombies zero sys = none
  reap_zombies (suc fuel) sys =
      let (sys', status) = s.waitpid sys in
      elim status [
        | WaitResult.exited pid code ↦ reaped pid (reap_zombies fuel sys')
        | WaitResult.signaled pid sig ↦ reaped pid (reap_zombies fuel sys')
        | WaitResult.still_alive ↦ some ([], sys')
        | WaitResult.no_child ↦ some ([], sys')
        | WaitResult.failed ↦ some ([], sys')
        | WaitResult.other ↦ some ([], sys')
      ]
