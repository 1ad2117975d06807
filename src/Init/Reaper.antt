-- ===== src/Init/Reaper.antt =====
-- src/reaper.rs, `reap_zombies`. The results of successive `waitpid` calls are a list; where it ends,
-- no child has changed state.
use rustyrouter.Prelude.{ℕ, [], ◌∷◌, true, false, refl, Bool, List, map, ◌≡◌, ◌++◌, ap}

pub data WaitResult : Type 0 where
  exited : ℕ → ℕ → WaitResult
  signaled : ℕ → ℕ → WaitResult
  still_alive : WaitResult
  no_child : WaitResult
  failed : WaitResult
  other : WaitResult

-- The children reaped, and the results not yet asked for.
unfoldable pub reap_zombies : List WaitResult → List ℕ × List WaitResult
reap_zombies [] = ([], [])
reap_zombies (WaitResult.exited pid code ∷ rest) =
    let (pids, left) = reap_zombies rest in (pid ∷ pids, left)
reap_zombies (WaitResult.signaled pid sig ∷ rest) =
    let (pids, left) = reap_zombies rest in (pid ∷ pids, left)
reap_zombies (WaitResult.still_alive ∷ rest) = ([], rest)
reap_zombies (WaitResult.no_child ∷ rest) = ([], rest)
reap_zombies (WaitResult.failed ∷ rest) = ([], rest)
reap_zombies (WaitResult.other ∷ rest) = ([], rest)

-- A child that has ended, by itself or by a signal.
abbrev pub ended : ℕ × Bool × ℕ → WaitResult
ended (pid, true, code) = WaitResult.exited pid code
ended (pid, false, sig) = WaitResult.signaled pid sig

abbrev pub IsStop : WaitResult → Type 0
IsStop (WaitResult.exited pid code) = ⊥
IsStop (WaitResult.signaled pid sig) = ⊥
IsStop _ = Unit

stops : (s : WaitResult) (rest : List WaitResult) → IsStop s → reap_zombies (s ∷ rest) ≡ ([], rest)
unfolding reap_zombies
stops (WaitResult.exited pid code) rest h = absurd h
stops (WaitResult.signaled pid sig) rest h = absurd h
stops _ rest h = refl

-- All children that have ended before the first other result are reaped, in order, that result ends
-- the loop, and what follows it is not asked for.
pub reap_zombies_lem :
    (children : List (ℕ × Bool × ℕ)) (s : WaitResult) (rest : List WaitResult)
    → IsStop s
    → reap_zombies (map ended children ++ s ∷ rest) ≡ (map (λ c. c.0) children, rest)
unfolding reap_zombies
reap_zombies_lem [] s rest h = stops s rest h
reap_zombies_lem ((pid, true, code) ∷ children) s rest h =
    ap (λ r. (pid ∷ r.0, r.1)) (reap_zombies_lem children s rest h)
reap_zombies_lem ((pid, false, sig) ∷ children) s rest h =
    ap (λ r. (pid ∷ r.0, r.1)) (reap_zombies_lem children s rest h)
