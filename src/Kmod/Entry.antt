-- ===== src/Kmod/Entry.antt =====
-- src/kmod.rs: what the rest of the program calls, `load_required_modules` and `run_as_modprobe`.
use rustyrouter.Kmod.Modprobe.{parse_args_for_mod_name, resolve_alias}
use rustyrouter.Kmod.Modules.{Loader, State, ModuleFiles, load_module_with_dependencies}
use rustyrouter.Prelude.{[], ◌∷◌, List, Option, none, some}
use rustyrouter.Prelude.Text.{Text, codes}

abbrev pub required_modules : List Text
required_modules =
    codes "virtio_net"
    ∷ codes "virtio_pci"
    ∷ codes "virtio_mmio"
    ∷ codes "nft_masq"
    ∷ codes "nft_chain_nat"
    ∷ codes "nft_ct"
    ∷ []

module _ (k : Loader) (files : ModuleFiles) where
  unfoldable pub load_modules : List Text → State k → State k
  load_modules [] st = st
  load_modules (mod_name ∷ rest) st =
      load_modules rest (load_module_with_dependencies k files mod_name st)

  unfoldable pub load_required_modules : State k → State k
  load_required_modules st = load_modules required_modules st

  -- No result where the module's name is missing. `aliases` is the text of the alias file, if it can be
  -- read.
  unfoldable pub run_as_modprobe : Option Text → List Text → State k → Option (State k)
  run_as_modprobe aliases args st = elim (parse_args_for_mod_name args) [
    | none ↦ none
    | some raw_name ↦
        some
          (load_module_with_dependencies k files (resolve_alias files.release aliases raw_name) st)
  ]
