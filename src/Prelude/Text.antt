-- ===== src/Prelude/Text.antt =====
-- Texts as lists of code points, with what the program uses of Rust's `str`: ASCII white space only.
use rustyrouter.Prelude.Tests.{◌==◌, leb, if◌then◌else◌}
use mathlib.Core.List.{List, [], ◌∷◌, ◌++◌, reverse}
use mathlib.Core.Path.{◌≡◌, refl, subst}
use mathlib.Core.Logic.{◌↔◌}
use mathlib.Core.Bool.{Bool, true, false, ◌&&◌, ◌||◌}
use mathlib.Core.Option.{Option, none, some}
use Prim.Native.Nat.{ℕ}
use Prim.Native.Char.{code}
use Prim.Native.String.{String}
use native.Mathlib.Omega.{arith}

abbrev pub Text : Type 0
Text = List ℕ

abbrev pub codes : String → Text
codes String.[] = []
codes (String.◌∷◌ c s) = code c ∷ codes s

unfoldable pub same : Text → Text → Bool
same [] [] = true
same (x ∷ xs) (y ∷ ys) = x == y && same xs ys
same _ _ = false

same_refl : (s : Text) → same s s ≡ true
unfolding same
same_refl [] = refl
same_refl (x ∷ xs) = ground (arith, same_refl xs)

eq_of_same : (s t : Text) → same s t ≡ true → s ≡ t
unfolding same
eq_of_same [] [] h = refl
eq_of_same (x ∷ xs) (y ∷ ys) h = ground (arith, eq_of_same xs ys)
eq_of_same [] (y ∷ ys) h = cc
eq_of_same (x ∷ xs) [] h = cc

pub same_iff : (s t : Text) → (same s t ≡ true) ↔ (s ≡ t)
same_iff s t = (eq_of_same s t, λ e. subst (λ u. same s u ≡ true) e (same_refl s))

-- `split_whitespace`; the accumulator holds the word that is being read.
unfoldable pub is_whitespace : ℕ → Bool
is_whitespace c = c == 32 || leb 9 c && leb c 13

abbrev word : Text → List Text → List Text
word [] rest = rest
word (c ∷ w) rest = (c ∷ w) ∷ rest

unfoldable pub split_words : Text → Text → List Text
unfolding is_whitespace
split_words w [] = word w []
split_words w (c ∷ s) = elim (is_whitespace c) [
  | true ↦ word w (split_words [] s)
  | false ↦ split_words (w ++ c ∷ []) s
]

abbrev pub split_whitespace : Text → List Text
split_whitespace s = split_words [] s

-- `split` at a character: one more piece than there are separators.
unfoldable pub split_at : ℕ → Text → Text → List Text
split_at sep w [] = w ∷ []
split_at sep w (c ∷ s) = elim (c == sep) [
  | true ↦ w ∷ split_at sep [] s
  | false ↦ split_at sep (w ++ c ∷ []) s
]

abbrev pub split : ℕ → Text → List Text
split sep s = split_at sep [] s

-- `strip_prefix`
unfoldable pub strip_prefix : Text → Text → Option Text
strip_prefix [] s = some s
strip_prefix (p ∷ pre) [] = none
strip_prefix (p ∷ pre) (c ∷ s) = if p == c then strip_prefix pre s else none

pub strip_prefix-append : (pre s : Text) → strip_prefix pre (pre ++ s) ≡ some s
unfolding strip_prefix
strip_prefix-append [] s = refl
strip_prefix-append (p ∷ pre) s = ground (arith, strip_prefix-append pre s)

pub append-strip_prefix : (pre s rest : Text) → strip_prefix pre s ≡ some rest → s ≡ pre ++ rest
unfolding strip_prefix
append-strip_prefix [] s rest h = ground arith
append-strip_prefix (p ∷ pre) [] rest h = cc
append-strip_prefix (p ∷ pre) (c ∷ s) rest h = ground (arith, append-strip_prefix pre s rest)

-- `trim_start` and `trim`
unfoldable pub trim_start : Text → Text
unfolding is_whitespace
trim_start [] = []
trim_start (c ∷ s) = if is_whitespace c then trim_start s else c ∷ s

unfoldable pub trim : Text → Text
unfolding trim_start
trim s = reverse (trim_start (reverse (trim_start s)))
