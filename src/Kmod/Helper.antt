-- ===== src/Kmod/Helper.antt =====
-- src/kmod.rs, `run_as_modprobe`: a request of the kernel, from the command line to the loaded module.
use rustyrouter.Prelude.{[], ◌∷◌, List}
use rustyrouter.Prelude.Text.{Text, codes}

-- The command line with which the kernel calls its helper.
abbrev pub helper_args : Text → List Text
helper_args name = codes "/sbin/modprobe" ∷ codes "-q" ∷ codes "--" ∷ name ∷ []
