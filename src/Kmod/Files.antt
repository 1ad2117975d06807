-- ===== src/Kmod/Files.antt =====
-- src/kmod.rs: the search of the module directory, and the loading of one file. The file system, the
-- decompression and `init_module` are parameters.
use rustyrouter.Kmod.Modules.{Loader, join, first_piece, last_component}
use rustyrouter.Prelude.{
  ℕ, List, [], ◌∷◌, ◌++◌, Bool, true, false, Option, some, none, ◌≡◌, refl, if◌then◌else◌, find,
  Bool-cases, inl, inr, arith, ap, ◌∙◌, sym,
}
use rustyrouter.Prelude.Text.{Text, codes, same, split}

-- A directory's entries in the order in which they are read; one that cannot be read has none.
mutual
  pub data Entry : Type 0 where
    file : Text → Entry
    directory : Text → Entries → Entry

  pub data Entries : Type 0 where
    nil : Entries
    cons : Entry → Entries → Entries

-- The part of a name before its first dot.
unfoldable pub stem_before_dot : Text → Text
stem_before_dot name = first_piece (split b'.' name)

abbrev is_module : Text → Text → Bool
is_module base_name file_name = same (stem_before_dot file_name) (stem_before_dot base_name)

abbrev or_found : Option Text → Option Text → Option Text
or_found none rest = rest
or_found (some path) rest = some path

unfoldable mutual
  unfolding join

  pub find_module_recursive : Text → Text → Entries → Option Text
  find_module_recursive dir base_name nil = none
  find_module_recursive dir base_name (cons e rest) =
      or_found (find_in_entry dir base_name e) (find_module_recursive dir base_name rest)

  pub find_in_entry : Text → Text → Entry → Option Text
  find_in_entry dir base_name (directory name entries) =
      find_module_recursive (join dir name) base_name entries
  find_in_entry dir base_name (file name) =
      if is_module base_name name then some (join dir name) else none

-- `read_dir` is the tree below a directory.
unfoldable pub find_module_file : Text → (Text → Entries) → Text → Option Text
find_module_file release read_dir name =
    if same release []
    then none
    else (let modules_dir = join (codes "/lib/modules") release in
        find_module_recursive modules_dir (name ++ codes ".ko") (read_dir modules_dir))

-- The files below a directory, depth first, each with its path and its name.
mutual
  unfolding join

  pub files_below : Text → Entries → List (Text × Text)
  files_below dir nil = []
  files_below dir (cons e rest) = files_of dir e ++ files_below dir rest

  pub files_of : Text → Entry → List (Text × Text)
  files_of dir (directory name entries) = files_below (join dir name) entries
  files_of dir (file name) = (join dir name, name) ∷ []

abbrev pub path_of : Option (Text × Text) → Option Text
path_of none = none
path_of (some (path, name)) = some path

-- The test of the search on a path with its name.
abbrev pub names_module : Text → Text × Text → Bool
names_module base_name entry = is_module base_name entry.1

path_of-find_append :
    (p : Text × Text → Bool) (xs ys : List (Text × Text))
    → path_of (find p (xs ++ ys)) ≡ or_found (path_of (find p xs)) (path_of (find p ys))
unfolding find
path_of-find_append p [] ys = refl
path_of-find_append p (x ∷ xs) ys = elim (Bool-cases (p x)) [
  | inl y ↦ rw (y, find) refl
  | inr n ↦ rw (n, find) (path_of-find_append p xs ys)
]

mutual
  unfolding find_module_recursive files_below find

  search-files_below :
      (dir base_name : Text) (entries : Entries)
      → find_module_recursive dir base_name entries
        ≡ path_of (find (names_module base_name) (files_below dir entries))
  search-files_below dir base_name nil = refl
  search-files_below dir base_name (cons e rest) =
      ap (λ o. or_found o (find_module_recursive dir base_name rest))
        (search-files_of dir base_name e)
      ∙ ap (or_found (path_of (find (names_module base_name) (files_of dir e))))
          (search-files_below dir base_name rest)
      ∙ sym (path_of-find_append (names_module base_name) (files_of dir e) (files_below dir rest))

  search-files_of :
      (dir base_name : Text) (e : Entry)
      → find_in_entry dir base_name e ≡ path_of (find (names_module base_name) (files_of dir e))
  search-files_of dir base_name (directory name entries) =
      search-files_below (join dir name) base_name entries
  search-files_of dir base_name (file name) = ground arith

-- `Path::extension` of a path whose last component is `name`: what follows the last dot, if something
-- stands before it.
abbrev last_piece : Text → List Text → Text
last_piece found [] = found
last_piece found (p ∷ rest) = last_piece p rest

abbrev extension_in : List Text → Text
extension_in [] = []
extension_in (p ∷ []) = []
extension_in ([] ∷ p ∷ []) = []
extension_in (p ∷ rest) = last_piece p rest

-- The last component of a path.
abbrev file_name : Text → Text
file_name path = elim (last_component (split b'/' path) none) [ none ↦ [] | some name ↦ name ]

unfoldable pub extension : Text → Text
extension name = extension_in (split b'.' name)

pub data InitResult : Type 0 where
  initialised already_there refused : InitResult

-- The file system, the three decompressors and the kernel.
pub record KernelFiles : Type 1 where
  pub World : Type 0
  pub read : World → Text → Option (List ℕ)
  pub xz_decompress : List ℕ → Option (List ℕ)
  pub gz_decompress : List ℕ → Option (List ℕ)
  pub zst_decompress : List ℕ → Option (List ℕ)
  pub init_module : World → List ℕ → World × InitResult
  pub release : World → Text
  pub read_dir : World → Text → Entries

module _ (k : KernelFiles) where
  unfoldable pub decompress_module : List ℕ → Text → Option (List ℕ)
  unfolding extension
  decompress_module bytes path =
      let ext = extension (file_name path) in
      if same ext (codes "xz")
      then k.xz_decompress bytes
      else if same ext (codes "gz")
      then k.gz_decompress bytes
      else if same ext (codes "zst")
      then k.zst_decompress bytes
      else some bytes

  -- `EEXIST` counts as success.
  abbrev is_loaded : InitResult → Bool
  is_loaded refused = false
  is_loaded _ = true

  unfoldable pub load_module : k.World → Text → k.World × Bool
  unfolding decompress_module
  load_module w path = elim (k.read w path) [
    | none ↦ (w, false)
    | some raw_data ↦ elim (decompress_module raw_data path) [
      | none ↦ (w, false)
      | some bytes ↦ let (w', result) = k.init_module w bytes in (w', is_loaded result)
    ]
  ]

  -- The parts of the loading that the rest of the program uses.
  abbrev pub loader : Loader
  loader = record {
    World = k.World;
    load_module = load_module;
    find_module_file = λ w name. find_module_file (k.release w) (k.read_dir w) name;
  }
