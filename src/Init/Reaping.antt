-- ===== src/Init/Reaping.antt =====
-- src/reaper.rs, `reap_zombies`: the loop over any system ends.
use rustyrouter.Init.Reaper.{WaitResult}
use rustyrouter.Init.System.{SystemOps, reap_zombies}
use rustyrouter.Prelude.{
  ℕ, zero, suc, some, refl, arith, Bool, ◌≡◌, ◌<◌, true, List, length, false, ◌≤◌, ◌∷◌, [],
}

-- The child that a result reports as ended, and so has taken from the kernel.
unfoldable pub is_reaped : WaitResult → Bool
is_reaped (WaitResult.exited pid code) = true
is_reaped (WaitResult.signaled pid sig) = true
is_reaped _ = false

-- `waitpid`, as documented: a child that it reports as ended is waited for no more. `children` counts
-- those that have ended and have not been waited for.
pub record Waits (s : SystemOps) : Type 0 where
  pub children : s.System → ℕ
  pub waited :
      (sys : s.System)
      → is_reaped (s.waitpid sys).1 ≡ true
      → children (s.waitpid sys).0 < children sys

module _ (s : SystemOps) (w : Waits s) where
  -- The loop gives a result, with no more children reaped than there are.
  abbrev pub Ends : ℕ → s.System → Type 0
  Ends fuel sys =
      (r : List ℕ × s.System) × (reap_zombies s fuel sys ≡ some r) × (length r.0 ≤ w.children sys)

  Ends-suc :
      (fuel : ℕ) (sys : s.System) (status : WaitResult)
      → (s.waitpid sys).1 ≡ status
      → (is_reaped status ≡ true → Ends fuel (s.waitpid sys).0)
      → Ends (suc fuel) sys
  unfolding reap_zombies is_reaped
  Ends-suc fuel sys (WaitResult.exited pid code) e rest =
      let (r, ran, le) = rest refl in
      let fewer = w.waited sys (rw e refl) in
      ((pid ∷ r.0, r.1), rw (reap_zombies, e, ran) refl, omega arith)
  Ends-suc fuel sys (WaitResult.signaled pid sig) e rest =
      let (r, ran, le) = rest refl in
      let fewer = w.waited sys (rw e refl) in
      ((pid ∷ r.0, r.1), rw (reap_zombies, e, ran) refl, omega arith)
  Ends-suc fuel sys WaitResult.still_alive e rest =
      (([], (s.waitpid sys).0), rw (reap_zombies, e) refl, omega arith)
  Ends-suc fuel sys WaitResult.no_child e rest =
      (([], (s.waitpid sys).0), rw (reap_zombies, e) refl, omega arith)
  Ends-suc fuel sys WaitResult.failed e rest =
      (([], (s.waitpid sys).0), rw (reap_zombies, e) refl, omega arith)
  Ends-suc fuel sys WaitResult.other e rest =
      (([], (s.waitpid sys).0), rw (reap_zombies, e) refl, omega arith)

  -- On a system where `waitpid` takes each child that it reports, the loop ends: with more fuel than
  -- there are ended children it gives a result, and it has reaped no more than those.
  pub reap_zombies-total :
      (fuel : ℕ) (sys : s.System)
      → w.children sys < fuel
      → (r : List ℕ × s.System) × (reap_zombies s fuel sys ≡ some r) × (length r.0 ≤ w.children sys)
  unfolding reap_zombies
  reap_zombies-total zero sys h = absurd (omega arith)
  reap_zombies-total (suc fuel) sys h =
      Ends-suc fuel sys _ refl
        (λ reaped. reap_zombies-total fuel _ (omega (arith, w.waited sys reaped)))
