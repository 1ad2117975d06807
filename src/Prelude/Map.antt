-- ===== src/Prelude/Map.antt =====
-- A hash map as an association list: `insert` replaces, and the order of the entries carries no
-- meaning. The keys of a map built by these operations are distinct.
use Prim.Native.Nat.{◌≤◌, ◌+◌}
use mathlib.Core.Path.{◌≡◌, refl}
use mathlib.Core.Logic.{◌≢◌, ite, if_pos, if_neg}
use mathlib.Core.List.{List, [], ◌∷◌}
use mathlib.Core.Bool.{Bool, false}
use mathlib.Core.Option.{Option, none, some}
use native.Mathlib.Omega.{arith}
use rustyrouter.Prelude.Lists.{length, any}
use rustyrouter.Prelude.Tests.{if◌then◌else◌}

abbrev pub Map : Type 0 → Type 0 → Type 0
Map K V = List (K × V)

module _ {K V : Type 0} where
  -- `HashMap::retain`, by a test of the value.
  unfoldable pub retain : (V → Bool) → Map K V → Map K V
  retain p [] = []
  retain p ((k, v) ∷ m) = if p v then (k, v) ∷ retain p m else retain p m

  pub length-retain-le : (p : V → Bool) (m : Map K V) → length (retain p m) ≤ length m
  unfolding retain
  length-retain-le p [] = omega arith
  length-retain-le p ((k, v) ∷ m) = ground (arith, length-retain-le p m)

-- What a key is bound to after `retain`.
abbrev pub kept : {V : Type 0} → (V → Bool) → Option V → Option V
kept p none = none
kept p (some v) = if p v then some v else none

module _ {K V : Type 0} (dec : Discrete K) where
  unfoldable pub get : K → Map K V → Option V
  get k [] = none
  get k ((j, v) ∷ m) = ite (dec j k) (some v) (get k m)

  unfoldable pub remove : K → Map K V → Map K V
  remove k [] = []
  remove k ((j, v) ∷ m) = ite (dec j k) (remove k m) ((j, v) ∷ remove k m)

  unfoldable pub insert : K → V → Map K V → Map K V
  unfolding remove
  insert k v m = (k, v) ∷ remove k m

  -- No key stands twice.
  abbrev pub Distinct : Map K V → Type 0
  Distinct [] = Unit
  Distinct ((k, v) ∷ m) = (get k m ≡ none) × Distinct m

  pub get-remove_self : (k : K) (m : Map K V) → get k (remove k m) ≡ none
  unfolding get remove
  get-remove_self k [] = refl
  get-remove_self k ((j, v) ∷ m) = ground (arith, get-remove_self k m)

  pub get-remove_ne : (k j : K) (m : Map K V) → j ≢ k → get j (remove k m) ≡ get j m
  unfolding get remove
  get-remove_ne k j [] h = refl
  get-remove_ne k j ((i, v) ∷ m) h = ground (arith, get-remove_ne k j m h)

  pub get-remove : (k j : K) (m : Map K V) → get j (remove k m) ≡ ite (dec j k) none (get j m)
  get-remove k j m = ground (arith, get-remove_self k m, get-remove_ne k j m)

  pub get-insert :
      (k j : K) (v : V) (m : Map K V) → get j (insert k v m) ≡ ite (dec j k) (some v) (get j m)
  unfolding insert get
  get-insert k j v m = ground (arith, get-remove k j m)

  remove-none : (k j : K) (m : Map K V) → get j m ≡ none → get j (remove k m) ≡ none
  remove-none k j m h = ground (arith, get-remove k j m)

  pub remove-Distinct : (k : K) (m : Map K V) → Distinct m → Distinct (remove k m)
  unfolding remove
  remove-Distinct k [] d = tt
  remove-Distinct k ((j, v) ∷ m) d = ground (arith, remove-Distinct k m d.1, remove-none k j m d.0)

  pub insert-Distinct : (k : K) (v : V) (m : Map K V) → Distinct m → Distinct (insert k v m)
  unfolding insert
  insert-Distinct k v m d = (get-remove_self k m, remove-Distinct k m d)

  retain-none : (p : V → Bool) (k : K) (m : Map K V) → get k m ≡ none → get k (retain p m) ≡ none
  unfolding get retain
  retain-none p k [] h = refl
  retain-none p k ((j, v) ∷ m) h = ground (arith, retain-none p k m)

  pub retain-Distinct : (p : V → Bool) (m : Map K V) → Distinct m → Distinct (retain p m)
  unfolding retain
  retain-Distinct p [] d = tt
  retain-Distinct p ((j, v) ∷ m) d = ground (arith, retain-Distinct p m d.1, retain-none p j m d.0)

  pub get-retain :
      (p : V → Bool) (k : K) (m : Map K V) → Distinct m → get k (retain p m) ≡ kept p (get k m)
  unfolding get retain
  get-retain p k [] d = refl
  get-retain p k ((j, v) ∷ m) d = elim (dec j k) [
    | yes e ↦ rw (if_pos _ e) (ground (arith, get-retain p k m d.1))
    | no n ↦ rw (if_neg _ n) (ground (arith, get-retain p k m d.1))
  ]

  -- A test that fails on every entry fails on the entry of each key.
  pub get_of_not-any :
      (p : K × V → Bool) (k : K) (v : V) (m : Map K V)
      → any p m ≡ false
      → get k m ≡ some v
      → p (k, v) ≡ false
  unfolding any get
  get_of_not-any p k v [] h g = ground arith
  get_of_not-any p k v ((j, w) ∷ m) h g = ground (arith, get_of_not-any p k v m)

  pub length-remove-le : (k : K) (m : Map K V) → length (remove k m) ≤ length m
  unfolding remove
  length-remove-le k [] = omega arith
  length-remove-le k ((j, v) ∷ m) = ground (arith, length-remove-le k m)

  pub length-insert-le : (k : K) (v : V) (m : Map K V) → length (insert k v m) ≤ length m + 1
  unfolding insert
  length-insert-le k v m = omega (arith, length-remove-le k m)
