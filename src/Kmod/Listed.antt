-- ===== src/Kmod/Listed.antt =====
-- src/kmod.rs, `load_module_with_dependencies`: a module that `modules.dep` lists.
use mathlib.Core.List.{reverse}
use rustyrouter.Kmod.Loaded.{AllLoad, load_entry-listed}
use rustyrouter.Kmod.Modules.{
  Loader, State, ModuleFiles, load_entry, load_module_with_dependencies, mem_text, scan_lines,
  stem_of, stem_or_empty, join, first_piece, second,
}
use rustyrouter.Prelude.{
  [], ◌∷◌, ◌++◌, List, Bool, true, false, none, some, refl, ◌≡◌, All, Option-cases, inl, inr, arith,
}
use rustyrouter.Prelude.Text.{Text, same, split, split_whitespace, trim}

-- The path before the first colon of a line, and whether it is that of the module.
abbrev pub path_in : Text → Text
path_in line = trim (first_piece (split b':' line))

-- The line is for the module.
unfoldable pub is_for : Text → Text → Bool
is_for mod_name line = elim (stem_of (path_in line)) [
  | none ↦ false
  | some stem ↦ same stem mod_name
]

module _ (k : Loader) where
  scan_lines-first :
      (dir mod_name : Text) (before after : List Text) (line : Text) (st : State k)
      → All (λ l. is_for mod_name l ≡ false) before
      → is_for mod_name line ≡ true
      → scan_lines k dir mod_name (before ++ line ∷ after) st
        ≡ load_entry k dir mod_name (path_in line) (second k (split b':' line)) st
  unfolding scan_lines is_for
  scan_lines-first dir mod_name [] after line st h fits =
      elim (Option-cases (stem_of (path_in line))) [
        | inl e ↦ absurd (let fits' = rw (e, is_for) at fits in ground arith)
        | inr (stem, e) ↦ let fits' = rw (e, is_for) at fits in rw (e, fits', scan_lines) refl
      ]
  scan_lines-first dir mod_name (l ∷ before) after line st h fits =
      let rest = scan_lines-first dir mod_name before after line st h.1 fits in
      elim (Option-cases (stem_of (path_in l))) [
        | inl e ↦ rw (e, scan_lines) rest
        | inr (stem, e) ↦ let differs = rw (e, is_for) at h.0 in rw (e, differs, scan_lines) rest
      ]

  -- Where every load succeeds, and `modules.dep` can be read and has a line for the module: afterwards
  -- the module and all modules that the first such line names after the colon are loaded, if the module
  -- was not loaded before.
  pub load_module_with_dependencies-listed :
      AllLoad k
      → (files : ModuleFiles) (mod_name content line : Text) (before after : List Text)
        (st : State k)
      → same files.release [] ≡ false
      → files.modules_dep ≡ some content
      → split b'\n' content ≡ before ++ line ∷ after
      → All (λ l. is_for mod_name l ≡ false) before
      → is_for mod_name line ≡ true
      → mem_text mod_name st.loaded ≡ false
      → let loaded = (load_module_with_dependencies k files mod_name st).loaded in
        All
          (λ dep. mem_text (stem_or_empty (join files.modules_dir dep)) loaded ≡ true)
          (reverse (split_whitespace (second k (split b':' line))))
        × (mem_text mod_name loaded ≡ true)
  unfolding load_module_with_dependencies
  load_module_with_dependencies-listed all files mod_name content line before after st release dep
        lines others fits new =
      let dir = files.modules_dir in
      let scanned = scan_lines-first dir mod_name before after line st others fits in
      let listed =
        load_entry-listed k all dir mod_name (path_in line) (second k (split b':' line)) st in
      rw (new, release, dep, lines, scanned, load_module_with_dependencies) listed
