-- ===== src/Kmod/Modules.antt =====
-- src/kmod.rs: loading a module after the modules that it depends on. The file system, the
-- decompression and the kernel are a parameter: reading and loading the file at a path may fail.
use mathlib.Core.List.{reverse}
use rustyrouter.Prelude.Text.{Text, trim, same, codes, split, split_whitespace}
use rustyrouter.Prelude.{
  none, some, [], ◌∷◌, true, false, List, any, if◌then◌else◌, Bool, Option, ◌++◌, ◌==◌,
}

pub record Loader : Type 1 where
  pub World : Type 0
  -- `load_module`: whether the module is in the kernel afterwards.
  pub load_module : World → Text → World × Bool
  -- `find_module_file`
  pub find_module_file : World → Text → Option Text

-- What `uname` and the files of the kernel's module directory give.
pub record ModuleFiles : Type 0 where
  pub release : Text
  pub modules_dir : Text
  -- The text of `modules.dep`, if it can be read.
  pub modules_dep : Option Text

unfoldable pub mem_text : Text → List Text → Bool
mem_text t l = any (λ s. same s t) l

-- The last component of a path, and the part of it before the first dot: `file_name` and the stem.
abbrev pub last_component : List Text → Option Text → Option Text
last_component [] found = found
last_component ([] ∷ rest) found = last_component rest found
last_component ((c ∷ s) ∷ rest) found =
    last_component rest (if same (c ∷ s) (codes ".") then found else some (c ∷ s))

abbrev pub first_piece : List Text → Text
first_piece [] = []
first_piece (p ∷ rest) = p

unfoldable pub stem_of : Text → Option Text
stem_of path = elim (last_component (split b'/' path) none) [
  | none ↦ none
  | some name ↦ if same name (codes "..") then none else some (first_piece (split b'.' name))
]

abbrev pub stem_or_empty : Text → Text
stem_or_empty path = elim (stem_of path) [ none ↦ [] | some s ↦ s ]

-- `Path::join`: an absolute path takes the place of the directory.
unfoldable pub join : Text → Text → Text
join dir [] = dir ++ codes "/"
join dir (c ∷ path) = if c == b'/' then c ∷ path else dir ++ codes "/" ++ c ∷ path

module _ (k : Loader) where
  -- The modules known to be loaded, and the paths at which a load was attempted, last first.
  pub record State : Type 0 where
    pub world : k.World
    pub loaded : List Text
    pub attempts : List Text

  -- An attempt to load `path`, which on success enters `name` among the loaded modules.
  unfoldable pub load_as : Text → Text → State → State
  load_as name path st =
      let (world', done) = k.load_module st.world path in
      record {
        world = world';
        loaded = if done then name ∷ st.loaded else st.loaded;
        attempts = path ∷ st.attempts;
      }

  unfoldable pub load_unless_loaded : Text → Text → State → State
  unfolding load_as mem_text
  load_unless_loaded name path st = if mem_text name st.loaded then st else load_as name path st

  -- `load_single_module` does not enter the module among the loaded ones.
  unfoldable pub load_single_module : Text → State → State
  load_single_module mod_name st = elim (k.find_module_file st.world mod_name) [
    | none ↦ st
    | some path ↦ record st {
      world = (k.load_module st.world path).0;
      attempts = path ∷ st.attempts;
    }
  ]

  -- The loop over the dependencies, which the caller has reversed.
  unfoldable pub load_dependencies : Text → List Text → State → State
  unfolding load_unless_loaded
  load_dependencies dir [] st = st
  load_dependencies dir (dep ∷ rest) st =
      load_dependencies dir rest
        (load_unless_loaded (stem_or_empty (join dir dep)) (join dir dep) st)

  -- The pieces of a line of `modules.dep` between the colons: the module, and what it depends on.
  abbrev pub second : List Text → Text
  second (a ∷ b ∷ rest) = b
  second _ = []

  unfoldable pub load_entry : Text → Text → Text → Text → State → State
  unfolding load_dependencies
  load_entry dir mod_name mod_path deps st =
      load_unless_loaded mod_name (join dir mod_path)
        (load_dependencies dir (reverse (split_whitespace deps)) st)

  -- The first line whose module has the name, or the search of the directory.
  unfoldable pub scan_lines : Text → Text → List Text → State → State
  unfolding load_entry load_single_module
  scan_lines dir mod_name [] st = load_single_module mod_name st
  scan_lines dir mod_name (line ∷ rest) st =
      let mod_path = trim (first_piece (split b':' line)) in
      elim (stem_of mod_path) [
        | none ↦ scan_lines dir mod_name rest st
        | some stem ↦ elim (same stem mod_name) [
          | true ↦ load_entry dir mod_name mod_path (second (split b':' line)) st
          | false ↦ scan_lines dir mod_name rest st
        ]
      ]

  unfoldable pub load_module_with_dependencies : ModuleFiles → Text → State → State
  unfolding scan_lines mem_text
  load_module_with_dependencies files mod_name st =
      if mem_text mod_name st.loaded
      then st
      else if same files.release []
      then load_single_module mod_name st
      else elim files.modules_dep [
        | none ↦ load_single_module mod_name st
        | some content ↦ scan_lines files.modules_dir mod_name (split b'\n' content) st
      ]
