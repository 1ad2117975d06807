-- ===== src/Prelude/Set.antt =====
-- A hash set of numbers as a list, and instants in nanoseconds.
use Prim.Native.Nat.{ℕ, ◌*◌, ◌/◌}
use mathlib.Core.Path.{◌≡◌, refl}
use mathlib.Core.List.{List, [], ◌∷◌}
use mathlib.Core.Bool.{Bool, false, not, ◌||◌, ◌&&◌}
use native.Mathlib.Omega.{arith}
use rustyrouter.Prelude.Tests.{if◌then◌else◌, ◌==◌}

unfoldable pub contains : ℕ → List ℕ → Bool
contains a [] = false
contains a (x ∷ xs) = x == a || contains a xs

unfoldable pub insert : ℕ → List ℕ → List ℕ
unfolding contains
insert a xs = if contains a xs then xs else a ∷ xs

unfoldable pub remove : ℕ → List ℕ → List ℕ
remove a [] = []
remove a (x ∷ xs) = if x == a then remove a xs else x ∷ remove a xs

pub contains-insert : (a b : ℕ) (xs : List ℕ) → contains b (insert a xs) ≡ (a == b || contains b xs)
unfolding insert contains
contains-insert a b [] = refl
contains-insert a b (x ∷ xs) = ground (arith, contains-insert a b xs)

pub contains-remove :
    (a b : ℕ) (xs : List ℕ) → contains b (remove a xs) ≡ (not (a == b) && contains b xs)
unfolding remove contains
contains-remove a b [] = ground arith
contains-remove a b (x ∷ xs) = ground (arith, contains-remove a b xs)

-- `Duration::from_secs` and `Duration::as_secs`, in nanoseconds.
abbrev pub nanos_per_sec : ℕ
nanos_per_sec = 1000000000

abbrev pub from_secs : ℕ → ℕ
from_secs s = s * nanos_per_sec

abbrev pub as_secs : ℕ → ℕ
as_secs d = d / nanos_per_sec
