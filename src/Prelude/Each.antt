-- ===== src/Prelude/Each.antt =====
-- A property of every entry of an association list.
use rustyrouter.Prelude.{[], ◌∷◌, some, ◌≡◌, arith, Bool, Bool-cases, inl, inr, subst, ite}
use rustyrouter.Prelude.Map
use rustyrouter.Prelude.Map.{Map}

abbrev pub Each : {K V : Type 0} → (K → V → Type 0) → Map K V → Type 0
Each P [] = Unit
Each P ((k, v) ∷ m) = P k v × Each P m

module _ {K V : Type 0} where
  pub Each-mono :
      (P Q : K → V → Type 0) (m : Map K V) → ((k : K) (v : V) → P k v → Q k v) → Each P m → Each Q m
  Each-mono P Q [] f h = tt
  Each-mono P Q ((k, v) ∷ m) f h = (f k v h.0, Each-mono P Q m f h.1)

  pub Each-retain :
      (P : K → V → Type 0) (p : V → Bool) (m : Map K V) → Each P m → Each P (Map.retain p m)
  unfolding Map.retain
  Each-retain P p [] h = tt
  Each-retain P p ((k, v) ∷ m) h = elim (Bool-cases (p v)) [
    | inl y ↦ rw (y, Map.retain) (h.0, Each-retain P p m h.1)
    | inr n ↦ rw (n, Map.retain) (Each-retain P p m h.1)
  ]

module _ {K V : Type 0} (dec : Discrete K) (P : K → V → Type 0) where
  pub Each-get : (k : K) (v : V) (m : Map K V) → Each P m → Map.get dec k m ≡ some v → P k v
  unfolding Map.get
  Each-get k v [] h e = absurd (ground arith)
  Each-get k v ((j, w) ∷ m) h e =
      elim (dec j k) as (λ d. ite d (some w) (Map.get dec k m) ≡ some v → P k v) [
        | yes same ↦ λ e'.
            let found : w ≡ v = ground (arith, e') in
            subst (λ x. P x v) same (subst (P j) found h.0)
        | no differ ↦ λ e'. Each-get k v m h.1 e'
      ]
        e

  pub Each-remove : (k : K) (m : Map K V) → Each P m → Each P (Map.remove dec k m)
  unfolding Map.remove
  Each-remove k [] h = tt
  Each-remove k ((j, w) ∷ m) h =
      elim (dec j k) as (λ d. Each P (ite d (Map.remove dec k m) ((j, w) ∷ Map.remove dec k m))) [
        | yes same ↦ Each-remove k m h.1
        | no differ ↦ (h.0, Each-remove k m h.1)
      ]

  pub Each-insert : (k : K) (v : V) (m : Map K V) → P k v → Each P m → Each P (Map.insert dec k v m)
  unfolding Map.insert
  Each-insert k v m new h = (new, Each-remove k m h)
