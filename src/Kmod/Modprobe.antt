-- ===== src/Kmod/Modprobe.antt =====
-- src/kmod.rs: the command line of the `modprobe` mode, and the aliases of modules.
use rustyrouter.Prelude.Text.{Text, same, codes, split_whitespace, split, same_iff}
use rustyrouter.Prelude.{
  none, some, [], ◌∷◌, true, false, refl, inl, inr, List, Bool, Option, ◌≡◌, All, ◌++◌,
  if◌then◌else◌, map, ◌==◌, not, ◌∙◌, arith, ◌&&◌, ◌⊎◌, Bool-cases, ap,
}
use rustyrouter.Kmod.Wildcard.{wildcard_match, wildcard_match_iff, Matches}

abbrev starts_with_dash : Text → Bool
starts_with_dash [] = false
starts_with_dash (c ∷ s) = c == b'-'

abbrev head? : List Text → Option Text
head? [] = none
head? (x ∷ xs) = some x

-- The loop of `parse_args_for_mod_name`.
unfoldable pub scan_args : List Text → Option Text
scan_args [] = none
scan_args (arg ∷ rest) =
    if same arg (codes "--")
    then head? rest
    else if not (starts_with_dash arg) && not (same arg (codes "modprobe"))
    then some arg
    else scan_args rest

-- The first argument is the program's name.
unfoldable pub parse_args_for_mod_name : List Text → Option Text
unfolding scan_args
parse_args_for_mod_name [] = none
parse_args_for_mod_name (program ∷ rest) = scan_args rest

-- The module that an alias line gives for the name, if its pattern fits.
unfoldable pub alias_in : Text → List Text → Option Text
alias_in input (keyword ∷ pat ∷ module_name ∷ more) =
    if same keyword (codes "alias") && wildcard_match pat input then some module_name else none
alias_in input _ = none

unfoldable pub resolve_lines : Text → List (List Text) → Text
resolve_lines input [] = input
resolve_lines input (parts ∷ rest) = elim (alias_in input parts) [
  | some module_name ↦ module_name
  | none ↦ resolve_lines input rest
]

-- `release` is the kernel's release name, and `content` the text of its alias file, if it can be read.
unfoldable pub resolve_alias : Text → Option Text → Text → Text
unfolding resolve_lines
resolve_alias [] content alias_or_name = alias_or_name
resolve_alias release none alias_or_name = alias_or_name
resolve_alias release (some text) alias_or_name =
    resolve_lines alias_or_name (map split_whitespace (split b'\n' text))

-- An argument that is passed over: an option other than `--`, or the word `modprobe`.
abbrev pub IsPassedOver : Text → Type 0
IsPassedOver arg =
    (same arg (codes "--") ≡ false)
    × ((starts_with_dash arg ≡ true) ⊎ (same arg (codes "modprobe") ≡ true))

scan_args-passed :
    (options tail : List Text)
    → All IsPassedOver options
    → scan_args (options ++ tail) ≡ scan_args tail
unfolding scan_args
scan_args-passed [] tail h = refl
scan_args-passed (o ∷ options) tail h = ground (arith, scan_args-passed options tail h.1)

scan_args-end : (options : List Text) → All IsPassedOver options → scan_args options ≡ none
unfolding scan_args
scan_args-end [] h = refl
scan_args-end (o ∷ options) h = ground (arith, scan_args-end options h.1)

scan_args-name :
    (name : Text) (rest : List Text)
    → starts_with_dash name ≡ false
    → same name (codes "modprobe") ≡ false
    → scan_args (name ∷ rest) ≡ some name
unfolding scan_args same
scan_args-name [] rest plain other = refl
scan_args-name (c ∷ s) rest plain other = ground arith

-- The name is the first argument that is neither an option nor the word `modprobe`, or whatever
-- follows `--`, whichever comes first; where all arguments are passed over there is none.
pub parse_args_for_mod_name_lem :
    (program name any_name : Text) (options rest : List Text)
    → All IsPassedOver options
    → starts_with_dash name ≡ false
    → same name (codes "modprobe") ≡ false
    → (parse_args_for_mod_name (program ∷ (options ++ name ∷ rest)) ≡ some name)
      × (parse_args_for_mod_name (program ∷ (options ++ codes "--" ∷ any_name ∷ rest))
          ≡ some any_name)
      × (parse_args_for_mod_name (program ∷ options) ≡ none)
unfolding parse_args_for_mod_name same
parse_args_for_mod_name_lem program name any_name options rest h plain other = (
  scan_args-passed options (name ∷ rest) h ∙ scan_args-name name rest plain other,
  scan_args-passed options (codes "--" ∷ any_name ∷ rest) h ∙ refl,
  scan_args-end options h,
)

-- The line is no alias line whose pattern fits.
abbrev pub IsOther : Text → List Text → Type 0
IsOther input parts =
    (pat module_name : Text) (more : List Text)
    → parts ≡ codes "alias" ∷ pat ∷ module_name ∷ more
    → ¬ Matches pat input

not_alias : (input : Text) (parts : List Text) → IsOther input parts → alias_in input parts ≡ none
unfolding alias_in
not_alias input [] h = refl
not_alias input (k ∷ []) h = refl
not_alias input (k ∷ pat ∷ []) h = refl
not_alias input (k ∷ pat ∷ m ∷ more) h = elim (Bool-cases (same k (codes "alias"))) [
  | inr n ↦ rw n refl
  | inl y ↦ elim (Bool-cases (wildcard_match pat input)) [
    | inr n ↦ rw (y, n) refl
    | inl fits ↦
        let k_eq = (same_iff k (codes "alias")).0 y in
        absurd
          (h pat m more (ap (λ a. a ∷ pat ∷ m ∷ more) k_eq) ((wildcard_match_iff pat input).0 fits))
  ]
]

is_alias :
    (input pat m : Text) (more : List Text)
    → Matches pat input
    → alias_in input (codes "alias" ∷ pat ∷ m ∷ more) ≡ some m
unfolding alias_in same
is_alias input pat m more fits = let y = (wildcard_match_iff pat input).1 fits in rw y refl

-- The first alias line whose pattern fits decides; with no such line the name stands for itself.
pub resolve_lines-first :
    (input pat module_name : Text) (more : List Text) (before after : List (List Text))
    → All (IsOther input) before
    → Matches pat input
    → (resolve_lines input (before ++ (codes "alias" ∷ pat ∷ module_name ∷ more) ∷ after)
        ≡ module_name)
      × (resolve_lines input before ≡ input)
unfolding resolve_lines
resolve_lines-first input pat module_name more [] after h fits =
    (rw (is_alias input pat module_name more fits, resolve_lines) refl, refl)
resolve_lines-first input pat module_name more (b ∷ before) after h fits =
    let skip = not_alias input b h.0 in
    let (found, own) = resolve_lines-first input pat module_name more before after h.1 fits in
    (rw (skip, resolve_lines) found, rw (skip, resolve_lines) own)
