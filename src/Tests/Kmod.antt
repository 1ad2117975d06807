-- ===== src/Tests/Kmod.antt =====
-- The theorems on the loading of kernel modules at concrete inputs.
use rustyrouter.Prelude.{any, none, some, [], ◌∷◌, true, refl, ◌≡◌, ◌↔◌, inl, inr, ◌++◌, ℕ, suc}
use rustyrouter.Prelude.Text.{codes, same}
use rustyrouter.Kmod.Wildcard.{Matches, wildcard_match, wildcard_match_iff}
use rustyrouter.Kmod.Modprobe.{parse_args_for_mod_name, parse_args_for_mod_name_lem}
use rustyrouter.Kmod.Modules.{Loader, State, mem_text}
use rustyrouter.Prelude.Text.{split_words}
use rustyrouter.Kmod.Wildcard.{match_one, suffixes}
use rustyrouter.Kmod.Listed.{is_for}
use rustyrouter.Kmod.Modules.{ModuleFiles, stem_of}
use rustyrouter.Prelude.Text.{Text, split_at, trim, trim_start, is_whitespace}
use rustyrouter.Kmod.Files.{Entry, Entries}

-- A kernel that counts the modules loaded and refuses none.
abbrev any_module : Loader
any_module = record {
  World = ℕ;
  load_module = λ w path. (suc w, true);
  find_module_file = λ w name. none;
}

abbrev at_boot : State any_module
at_boot = record { world = 0; loaded = codes "fat" ∷ []; attempts = [] }

kmod_code : Unit {0}
unfolding wildcard_match match_one suffixes split_words mem_text any same split_at is_for trim
    trim_start is_whitespace stem_of
kmod_code = tt

-- Two lines of `modules.dep`.
abbrev nls_line : Text
nls_line = codes "fs/nls.ko:"

abbrev vfat_line : Text
vfat_line = codes "fs/vfat.ko.xz: fs/fat.ko fs/nls.ko"

abbrev two_lines : ModuleFiles
two_lines = record {
  release = codes "6.1";
  modules_dir = codes "/lib/modules/6.1";
  modules_dep = some (nls_line ++ b'\n' ∷ vfat_line);
}

wildcard_match_iff_example :
    (wildcard_match (codes "net-*") (codes "net-pf-10") ≡ true)
    ↔ Matches (codes "net-*") (codes "net-pf-10")
wildcard_match_iff_example = wildcard_match_iff (codes "net-*") (codes "net-pf-10")

parse_args_for_mod_name_lem_example :
    (parse_args_for_mod_name
        (codes "/init" ∷ ((codes "-q" ∷ codes "modprobe" ∷ []) ++ codes "vfat" ∷ []))
      ≡ some (codes "vfat"))
    × (parse_args_for_mod_name
          (codes "/init" ∷ ((codes "-q" ∷ codes "modprobe" ∷ []) ++ codes "--" ∷ codes "-x" ∷ []))
        ≡ some (codes "-x"))
    × (parse_args_for_mod_name (codes "/init" ∷ codes "-q" ∷ codes "modprobe" ∷ []) ≡ none)
parse_args_for_mod_name_lem_example =
    parse_args_for_mod_name_lem (codes "/init") (codes "vfat") (codes "-x")
      (codes "-q" ∷ codes "modprobe" ∷ []) []
      ((unfold same in refl, inl refl), ((unfold same in refl, inr (unfold same in refl)), tt)) refl
      (unfold same in refl)

abbrev module_tree : Entries
module_tree = Entries.cons (Entry.file (codes "modules.dep")) (
    Entries.cons
      (Entry.directory (codes "fs") (Entries.cons (Entry.file (codes "vfat.ko.xz")) Entries.nil))
      (Entries.cons (Entry.file (codes "vfat.ko")) Entries.nil))

abbrev alias_text : Text
alias_text = codes "alias fs-vf* vfat"
