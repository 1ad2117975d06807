-- ===== src/Kmod/Loaded.antt =====
-- src/kmod.rs: which modules are loaded after `load_module_with_dependencies`.
use mathlib.Core.List.{reverse}
use rustyrouter.Prelude.{[], ◌∷◌, true, refl, ◌≡◌, arith, All, List, any, All-map}
use rustyrouter.Prelude.Text.{Text, same_iff, split_whitespace}
use rustyrouter.Kmod.Modules.{
  Loader, State, load_unless_loaded, load_entry, load_module_with_dependencies, mem_text,
  load_dependencies, ModuleFiles, stem_or_empty, join,
}

module _ (k : Loader) where
  mem_text_self : (t : Text) (l : List Text) → mem_text t (t ∷ l) ≡ true
  unfolding mem_text any
  mem_text_self t l = let e = (same_iff t t).1 refl in rw e refl

  mem_text-cons : (t s : Text) (l : List Text) → mem_text t l ≡ true → mem_text t (s ∷ l) ≡ true
  unfolding mem_text any
  mem_text-cons t s l h = ground arith

  -- Every load succeeds.
  abbrev pub AllLoad : Type 0
  AllLoad = (w : k.World) (path : Text) → (k.load_module w path).1 ≡ true

  load_unless_loaded-keeps :
      (t name path : Text) (st : State k)
      → mem_text t st.loaded ≡ true
      → mem_text t (load_unless_loaded k name path st).loaded ≡ true
  unfolding load_unless_loaded
  load_unless_loaded-keeps t name path st h = ground (arith, mem_text-cons t name st.loaded h)

  load_unless_loaded-loads :
      AllLoad
      → (name path : Text) (st : State k)
      → mem_text name (load_unless_loaded k name path st).loaded ≡ true
  unfolding load_unless_loaded
  load_unless_loaded-loads all name path st =
      ground (arith, all st.world path, mem_text_self name st.loaded)

  load_dependencies-keeps :
      (t dir : Text) (deps : List Text) (st : State k)
      → mem_text t st.loaded ≡ true
      → mem_text t (load_dependencies k dir deps st).loaded ≡ true
  unfolding load_dependencies
  load_dependencies-keeps t dir [] st h = h
  load_dependencies-keeps t dir (dep ∷ rest) st h =
      load_dependencies-keeps t dir rest _ (load_unless_loaded-keeps t _ _ st h)

  -- Where every load succeeds, an entry of `modules.dep` leaves the module and all its dependencies
  -- loaded.
  load_dependencies-loads :
      AllLoad
      → (dir : Text) (deps : List Text) (st : State k)
      → All
          (λ dep.
            mem_text (stem_or_empty (join dir dep)) (load_dependencies k dir deps st).loaded ≡ true)
          deps
  unfolding load_dependencies
  load_dependencies-loads all dir [] st = tt
  load_dependencies-loads all dir (dep ∷ rest) st = (
    load_dependencies-keeps _ dir rest _ (load_unless_loaded-loads all _ _ st),
    load_dependencies-loads all dir rest _,
  )

  pub load_entry-listed :
      AllLoad
      → (dir mod_name mod_path deps : Text) (st : State k)
      → let after = load_entry k dir mod_name mod_path deps st in
        All
          (λ dep. mem_text (stem_or_empty (join dir dep)) after.loaded ≡ true)
          (reverse (split_whitespace deps))
        × (mem_text mod_name after.loaded ≡ true)
  unfolding load_entry
  load_entry-listed all dir mod_name mod_path deps st =
      let listed = reverse (split_whitespace deps) in
      (
        All-map listed
            (λ dep.
              load_unless_loaded-keeps _ mod_name (join dir mod_path)
                (load_dependencies k dir listed st))
            (load_dependencies-loads all dir listed st),
        load_unless_loaded-loads all mod_name (join dir mod_path)
            (load_dependencies k dir listed st),
      )

  -- Whatever succeeds, what was loaded stays so.
  load_entry-keeps :
      (dir mod_name mod_path deps before : Text) (st : State k)
      → mem_text before st.loaded ≡ true
      → mem_text before (load_entry k dir mod_name mod_path deps st).loaded ≡ true
  unfolding load_entry
  load_entry-keeps dir mod_name mod_path deps before st h =
      load_unless_loaded-keeps before mod_name (join dir mod_path) _
        (load_dependencies-keeps before dir (reverse (split_whitespace deps)) st h)

  -- Where every load succeeds, working through a line of `modules.dep` leaves every module that the
  -- line names after the colon loaded, and the module itself; what was loaded stays so.
  pub load_entry-loads :
      AllLoad
      → (dir mod_name mod_path deps before : Text) (st : State k) → mem_text before st.loaded ≡ true
      → let after = load_entry k dir mod_name mod_path deps st in
        All
          (λ dep. mem_text (stem_or_empty (join dir dep)) after.loaded ≡ true)
          (reverse (split_whitespace deps))
        × (mem_text mod_name after.loaded ≡ true)
        × (mem_text before after.loaded ≡ true)
  load_entry-loads all dir mod_name mod_path deps before st h =
      let (listed, own) = load_entry-listed all dir mod_name mod_path deps st in
      (listed, own, load_entry-keeps dir mod_name mod_path deps before st h)

  -- A module that is known to be loaded is not loaded again.
  pub load_module_with_dependencies-again :
      (files : ModuleFiles) (mod_name : Text) (st : State k)
      → mem_text mod_name st.loaded ≡ true
      → load_module_with_dependencies k files mod_name st ≡ st
  unfolding load_module_with_dependencies
  load_module_with_dependencies-again files mod_name st h = rw h refl
