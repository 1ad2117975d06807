-- ===== src/Init/Mock.antt =====
-- src/system.rs, module `mock`: the test double of the system, which keeps what it is asked.
use rustyrouter.Init.Boot.{RebootMode}
use rustyrouter.Init.Reaper
use rustyrouter.Init.Reaper.{WaitResult}
use rustyrouter.Init.System.{Mount, SystemOps, reap_zombies}
use rustyrouter.Prelude.{
  ℕ, zero, suc, List, [], ◌∷◌, Option, some, none, true, refl, arith, ◌≡◌, ◌<◌, ◌++◌, length, Bool,
}
use rustyrouter.Prelude.Text.{Text}

pub record MountCall : Type 0 where
  pub source : Option Text
  pub target : Text
  pub fstype : Text
  pub flags : ℕ

pub record MockSystem : Type 0 where
  pub pid : ℕ
  pub cmdline_content : Text
  pub mount_calls : List MountCall
  pub reboot_call : Option RebootMode
  pub waitpid_results : List WaitResult

unfoldable pub new : MockSystem
new = record {
  pid = 1;
  cmdline_content = [];
  mount_calls = [];
  reboot_call = none;
  waitpid_results = [];
}

unfoldable pub mount : Mount → MockSystem → MockSystem × Bool
mount m sys = (
  record sys {
    mount_calls =
        sys.mount_calls
        ++ record { source = m.source; target = m.target; fstype = m.fstype; flags = m.flags } ∷ [];
  },
  true,
)

unfoldable pub reboot : RebootMode → MockSystem → MockSystem × Bool
reboot mode sys = (record sys { reboot_call = some mode }, true)

-- The first of the results that are left; no child has changed state where there is none.
unfoldable pub next_result : List WaitResult → List WaitResult × WaitResult
next_result [] = ([], WaitResult.still_alive)
next_result (r ∷ rest) = (rest, r)

unfoldable pub waitpid : MockSystem → MockSystem × WaitResult
unfolding next_result
waitpid sys =
    let (rest, r) = next_result sys.waitpid_results in (record sys { waitpid_results = rest }, r)

-- An error where the content is empty.
unfoldable pub read_cmdline : MockSystem → Option Text
read_cmdline sys = elim sys.cmdline_content [ [] ↦ none | (c ∷ s) ↦ some (c ∷ s) ]

abbrev pub mock_system : SystemOps
mock_system = record {
  System = MockSystem;
  mount = mount;
  reboot = reboot;
  waitpid = waitpid;
  read_cmdline = read_cmdline;
  getpid = λ sys. sys.pid;
}

-- On the test double the loop over `waitpid` is the one over the list of results.
pub reap_zombies-mock :
    (fuel : ℕ) (results : List WaitResult) (sys : MockSystem)
    → length results < fuel
    → reap_zombies mock_system fuel (record sys { waitpid_results = results })
      ≡ some (
        (Reaper.reap_zombies results).0,
        record sys { waitpid_results = (Reaper.reap_zombies results).1 },
      )
unfolding reap_zombies waitpid Reaper.reap_zombies
reap_zombies-mock zero results sys h = absurd (omega arith)
reap_zombies-mock (suc fuel) [] sys h = refl
reap_zombies-mock (suc fuel) (WaitResult.exited pid code ∷ rest) sys h =
    rw (reap_zombies-mock fuel rest sys (omega arith)) refl
reap_zombies-mock (suc fuel) (WaitResult.signaled pid sig ∷ rest) sys h =
    rw (reap_zombies-mock fuel rest sys (omega arith)) refl
reap_zombies-mock (suc fuel) (_ ∷ rest) sys h = refl
