-- ===== src/Init/Tasks.antt =====
-- src/main.rs, `main` and the power button monitor; src/reaper.rs, the task; src/system.rs, the panic
-- hook.
use rustyrouter.Init.Boot.{Action, RebootMode}
use rustyrouter.Init.Reaper.{WaitResult, reap_zombies}
use rustyrouter.Kmod.Modprobe.{parse_args_for_mod_name}
use native.Mathlib.Nat.{zero-add}
use rustyrouter.Prelude.{
  zero, suc, none, inl, inr, Option, ◌⊎◌, Option-cases, subst, arith, ◌+◌, ◌<◌, ℕ, List, [], ◌∷◌,
  ◌++◌, Bool, true, false, some, ◌≡◌, refl, ◌==◌, ◌&&◌, ◌||◌, if◌then◌else◌, All,
}
use rustyrouter.Prelude.Text.{Text, codes, same}

-- `str::starts_with` and `str::contains`
unfoldable pub starts_with : Text → Text → Bool
starts_with [] s = true
starts_with (c ∷ pre) [] = false
starts_with (c ∷ pre) (d ∷ s) = if c == d then starts_with pre s else false

unfoldable pub contains : Text → Text → Bool
unfolding starts_with
contains pat [] = starts_with pat []
contains pat (c ∷ s) = starts_with pat (c ∷ s) || contains pat s

-- Whether the program was called as the `modprobe` helper.
unfoldable pub is_modprobe : List Text → Bool
unfolding contains
is_modprobe [] = false
is_modprobe (arg0 ∷ []) = contains (codes "modprobe") arg0
is_modprobe (arg0 ∷ arg1 ∷ rest) = contains (codes "modprobe") arg0 || same arg1 (codes "modprobe")

pub data MainMode : Type 0 where
  modprobe_mode init_mode : MainMode

unfoldable pub main : List Text → MainMode
unfolding is_modprobe
main args = if is_modprobe args then modprobe_mode else init_mode

pub record InputEvent : Type 0 where
  pub event_type : ℕ
  pub code : ℕ
  pub value : ℕ

-- The constants of `evdev`.
pub record Evdev : Type 0 where
  pub key : ℕ
  pub key_power : ℕ

module _ (e : Evdev) where
  abbrev pub is_power_press : InputEvent → Bool
  is_power_press event = event.event_type == e.key && event.code == e.key_power && event.value == 1

  -- The events of one device until its stream ends.
  unfoldable pub monitor_events : List InputEvent → List Action
  monitor_events [] = []
  monitor_events (event ∷ rest) = elim (is_power_press event) [
    | true ↦ Action.set_shutdown_flag ∷ Action.reboot RebootMode.rb_power_off ∷ []
    | false ↦ monitor_events rest
  ]

  -- The task of a device, by its events if it gives a stream of them.
  abbrev pub device_task : Option (List InputEvent) → List Action
  device_task none = []
  device_task (some events) = monitor_events events

  unfoldable pub device_path : ℕ → Text
  device_path i = codes "/dev/input/event" ++ (b'0' + i) ∷ []

  -- The loop over the numbers from i on, `count` of them: the tasks that are spawned. `open_device`
  -- gives none for a path that cannot be opened.
  unfoldable pub monitor_devices :
      (Text → Option (Option (List InputEvent))) → ℕ → ℕ → List (List Action)
  unfolding device_path
  monitor_devices open_device i zero = []
  monitor_devices open_device i (suc count) =
      let rest = monitor_devices open_device (suc i) count in
      elim (open_device (device_path i)) [ none ↦ rest | some stream ↦ device_task stream ∷ rest ]

  unfoldable pub start_power_button_monitor :
      (Text → Option (Option (List InputEvent))) → List (List Action)
  unfolding monitor_devices
  start_power_button_monitor open_device = monitor_devices open_device 0 5

  -- The first press of the power button, whatever comes before and after it, powers the system off, once;
  -- without one nothing happens.
  pub monitor_events-press :
      (before after : List InputEvent) (press : InputEvent)
      → All (λ x. is_power_press x ≡ false) before
      → is_power_press press ≡ true
      → (monitor_events (before ++ press ∷ after)
          ≡ Action.set_shutdown_flag ∷ Action.reboot RebootMode.rb_power_off ∷ [])
        × (monitor_events before ≡ [])
  unfolding monitor_events
  monitor_events-press [] after press h p = (rw (p, monitor_events) refl, refl)
  monitor_events-press (x ∷ before) after press h p =
      let (on, off) = monitor_events-press before after press h.1 p in
      (rw (h.0, monitor_events) on, rw (h.0, monitor_events) off)

  abbrev Occurs : List Action → List (List Action) → Type 0
  Occurs t [] = ⊥
  Occurs t (x ∷ xs) = (t ≡ x) ⊎ Occurs t xs

  monitor_devices-opened :
      (open_device : Text → Option (Option (List InputEvent))) (i count k : ℕ)
      (events : List InputEvent)
      → k < count
      → open_device (device_path (i + k)) ≡ some (some events)
      → Occurs (monitor_events events) (monitor_devices open_device i count)
  unfolding monitor_devices
  monitor_devices-opened open_device i zero k events h e = absurd (omega arith)
  monitor_devices-opened open_device i (suc count) zero events h e =
      let here : i + 0 ≡ i = omega arith in
      let opened : open_device (device_path i) ≡ some (some events) = rw here at e in
      rw (opened, monitor_devices) (inl refl)
  monitor_devices-opened open_device i (suc count) (suc k) events h e =
      let next : i + suc k ≡ suc i + k = omega arith in
      let ih =
        monitor_devices-opened open_device (suc i) count k events (omega arith) (rw next at e) in
      elim (Option-cases (open_device (device_path i))) [
        | inl closed ↦ rw (closed, monitor_devices) ih
        | inr (stream, opened) ↦ rw (opened, monitor_devices) (inr ih)
      ]

  -- On each of the first five input devices that can be opened and gives a stream of events, a press
  -- of the power button, whatever comes before and after it there, powers the system off: one of the
  -- tasks does that, and it does nothing else.
  pub start_power_button_monitor-press :
      (open_device : Text → Option (Option (List InputEvent))) (i : ℕ)
      (before after : List InputEvent) (press : InputEvent)
      → i < 5
      → open_device (device_path i) ≡ some (some (before ++ press ∷ after))
      → All (λ x. is_power_press x ≡ false) before
      → is_power_press press ≡ true
      → Occurs
          (Action.set_shutdown_flag ∷ Action.reboot RebootMode.rb_power_off ∷ [])
          (start_power_button_monitor open_device)
  unfolding start_power_button_monitor
  start_power_button_monitor-press open_device i before after press h e quiet p =
      subst (λ t. Occurs t (start_power_button_monitor open_device))
        (monitor_events-press before after press quiet p).0
        (monitor_devices-opened open_device 0 5 i _ h (rw zero-add e))

-- The loop of the reaper: the flag as each round reads it, and what `waitpid` gives then.
unfoldable pub orphan_reaper : List (Bool × List WaitResult) → List ℕ
unfolding reap_zombies
orphan_reaper [] = []
orphan_reaper ((shutdown_flag, results) ∷ rest) =
    if shutdown_flag then [] else (reap_zombies results).0 ++ orphan_reaper rest

-- When the kernel asks for a module by the helper that `mount_virtual_filesystems` has set, as
-- `/sbin/modprobe -q -- NAME`, the program runs as modprobe and takes that name, whatever it is.
pub main-modprobe :
    (name : Text)
    → (main (codes "/sbin/modprobe" ∷ codes "-q" ∷ codes "--" ∷ name ∷ []) ≡ modprobe_mode)
      × (parse_args_for_mod_name (codes "/sbin/modprobe" ∷ codes "-q" ∷ codes "--" ∷ name ∷ [])
          ≡ some name)
unfolding main same parse_args_for_mod_name
main-modprobe name = (refl, refl)
