-- ===== src/Kmod/Wildcard.antt =====
-- src/kmod.rs, `wildcard_match`, against the relation between patterns and texts that it decides.
use rustyrouter.Prelude.Text.{Text}
use mathlib.Core.List.{append-nil}
use rustyrouter.Prelude.{
  ℕ, [], ◌∷◌, true, false, refl, inl, inr, Bool, any, if◌then◌else◌, List, ◌==◌, ◌≡◌, arith, ◌≢◌,
  ◌↔◌, ◌||◌, ◌++◌, sym, ℕ_discrete, Bool-cases, ap,
}

-- The slices `input[i..]` for i from 0 to the length.
unfoldable pub suffixes : Text → List Text
suffixes [] = [] ∷ []
suffixes (c ∷ s) = (c ∷ s) ∷ suffixes s

abbrev is_empty : Text → Bool
is_empty [] = true
is_empty (c ∷ s) = false

-- A character of the pattern other than `*` against the head of the input.
abbrev head_fits : ℕ → ℕ → Bool
head_fits p c = p == b'?' || p == c

unfoldable pub match_one : (Text → Bool) → ℕ → Text → Bool
match_one rest_matches p [] = false
match_one rest_matches p (c ∷ s) = if head_fits p c then rest_matches s else false

unfoldable pub wildcard_match : Text → Text → Bool
unfolding suffixes match_one
wildcard_match [] input = is_empty input
wildcard_match (p ∷ ps) input =
    if p == b'*'
    then (if is_empty ps then true else any (wildcard_match ps) (suffixes input))
    else match_one (wildcard_match ps) p input

-- `*` stands for any text, `?` for any character, and any other character for itself.
pub data Matches : Text → Text → Type 0 where
  end : Matches [] []
  star :
      {p : ℕ} {ps s input : Text} (t : Text)
      → p ≡ b'*'
      → input ≡ t ++ s
      → Matches ps s
      → Matches (p ∷ ps) input
  question : {p c : ℕ} {ps s : Text} → p ≡ b'?' → Matches ps s → Matches (p ∷ ps) (c ∷ s)
  literal : {p c : ℕ} {ps s : Text} → p ≢ b'*' → p ≡ c → Matches ps s → Matches (p ∷ ps) (c ∷ s)

any-suffixes : (f : Text → Bool) (t s : Text) → f s ≡ true → any f (suffixes (t ++ s)) ≡ true
unfolding suffixes any
any-suffixes f [] [] h = rw h
any-suffixes f [] (c ∷ s) h = rw h
any-suffixes f (c ∷ t) s h = ground (arith, any-suffixes f t s)

suffix_of_any :
    (f : Text → Bool) (input : Text)
    → any f (suffixes input) ≡ true
    → (t : Text) × (s : Text) × (input ≡ t ++ s) × (f s ≡ true)
unfolding suffixes any
suffix_of_any f [] h = ([], [], refl, ground arith)
suffix_of_any f (c ∷ s) h = elim (Bool-cases (f (c ∷ s))) [
  | inl y ↦ ([], c ∷ s, refl, y)
  | inr n ↦ let (t, rest, e, y) = suffix_of_any f s (ground arith) in (c ∷ t, rest, ap (◌∷◌ c) e, y)
]

match_of_Matches : {ps input : Text} → Matches ps input → wildcard_match ps input ≡ true
unfolding wildcard_match
match_of_Matches end = refl
match_of_Matches (star {p} {ps} {s} {input} t e split m) =
    let found = any-suffixes (wildcard_match ps) t s (match_of_Matches m) in
    let here : any (wildcard_match ps) (suffixes input) ≡ true = rw split found in ground arith
match_of_Matches (question {p} {c} {ps} {s} e m) = let ih = match_of_Matches m in ground arith
match_of_Matches (literal {p} {c} {ps} {s} n e m) = let ih = match_of_Matches m in ground arith

star_case :
    (p : ℕ) (ps input : Text)
    → ((s : Text) → wildcard_match ps s ≡ true → Matches ps s)
    → (if is_empty ps then true else any (wildcard_match ps) (suffixes input)) ≡ true
    → p ≡ b'*'
    → Matches (p ∷ ps) input
star_case p [] input ih h e = Matches.star input e (sym (append-nil input)) Matches.end
star_case p (q ∷ qs) input ih h e =
    let (t, s, split, y) = suffix_of_any (wildcard_match (q ∷ qs)) input h in
    Matches.star t e split (ih s y)

one_case :
    (p : ℕ) (ps input : Text)
    → ((s : Text) → wildcard_match ps s ≡ true → Matches ps s)
    → match_one (wildcard_match ps) p input ≡ true
    → p ≢ b'*'
    → Matches (p ∷ ps) input
unfolding match_one
one_case p ps [] ih h n = absurd (ground arith)
one_case p ps (c ∷ s) ih h n = elim (ℕ_discrete p b'?') [
  | yes e ↦ Matches.question e (ih s (ground arith))
  | no m ↦ Matches.literal n (ground arith) (ih s (ground arith))
]

Matches-of_match : (ps input : Text) → wildcard_match ps input ≡ true → Matches ps input
unfolding wildcard_match
Matches-of_match [] [] h = end
Matches-of_match [] (c ∷ s) h = absurd (ground arith)
Matches-of_match (p ∷ ps) input h = elim (ℕ_discrete p b'*') [
  | yes e ↦ star_case p ps input (Matches-of_match ps) (ground arith) e
  | no n ↦ one_case p ps input (Matches-of_match ps) (ground arith) n
]

-- The matcher accepts exactly the texts that the pattern describes.
pub wildcard_match_iff :
    (pattern' input : Text) → (wildcard_match pattern' input ≡ true) ↔ Matches pattern' input
wildcard_match_iff pattern' input = (Matches-of_match pattern' input, match_of_Matches)
