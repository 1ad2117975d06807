-- ===== src/Init/Boot.antt =====
-- src/main.rs, src/system.rs and src/signal.rs: what the program does in which order, as a list of
-- actions. What the kernel answers to each is a parameter.
use rustyrouter.Prelude.{
  ℕ, [], ◌∷◌, true, false, inl, inr, List, any, Bool, ◌≡◌, if◌then◌else◌, ◌==◌, ◌&&◌, ◌++◌, ==_iff,
  Bool-cases, arith, refl,
}

pub data Target : Type 0 where
  proc sys dev run : Target

pub data RebootMode : Type 0 where
  rb_autoboot rb_power_off : RebootMode

pub data Service : Type 0 where
  orphan_reaper signal_monitor power_button_monitor : Service
  dhcp_client dhcp_server dns_forwarder sntp_client : Service

pub data Action : Type 0 where
  mount : Target → Action
  set_modprobe_path : Action
  load_required_modules : Action
  load_config : Action
  configure_network : Action
  configure_firewall : Action
  reboot : RebootMode → Action
  set_shutdown_flag : Action
  spawn : Service → Action

-- What the kernel answers.
pub record Answers : Type 0 where
  pub pid : ℕ
  pub mounts : Target → Bool
  pub firewall_configured : Bool
  pub reboots : RebootMode → Bool

abbrev is_pid_1 : Answers → Bool
is_pid_1 s = s.pid == 1

-- The mounts up to the first that fails, and whether none did.
unfoldable pub mount_all : Answers → List Target → List Action × Bool
mount_all s [] = ([], true)
mount_all s (t ∷ rest) =
    let (actions, done) = mount_all s rest in
    if s.mounts t then (mount t ∷ actions, done) else (mount t ∷ [], false)

unfoldable pub mount_virtual_filesystems : Answers → List Action × Bool
unfolding mount_all
mount_virtual_filesystems s =
    let (actions, done) = mount_all s (proc ∷ sys ∷ dev ∷ run ∷ []) in
    if done then (actions ++ set_modprobe_path ∷ [], true) else (actions, false)

abbrev pub services : List Action
services =
    spawn orphan_reaper
    ∷ spawn signal_monitor
    ∷ spawn power_button_monitor
    ∷ spawn dhcp_client
    ∷ spawn dhcp_server
    ∷ spawn dns_forwarder
    ∷ spawn sntp_client
    ∷ []

-- Steps 3 to 5: a failure to configure the network is only logged.
unfoldable pub configure_and_spawn : Answers → List Action
configure_and_spawn s =
    load_config
    ∷ (if is_pid_1 s
        then configure_network
          ∷ configure_firewall
          ∷ (if s.firewall_configured then services else reboot rb_autoboot ∷ [])
        else services)

unfoldable pub run_as_init : Answers → List Action
unfolding configure_and_spawn mount_virtual_filesystems
run_as_init s =
    if is_pid_1 s
    then (let (actions, done) = mount_virtual_filesystems s in
        actions
        ++ (if done
            then load_required_modules ∷ configure_and_spawn s
            else reboot rb_autoboot ∷ []))
    else configure_and_spawn s

pub run_as_init-pid_1 :
    (s : Answers)
    → s.pid == 1 ≡ true
    → let (actions, mounted) = mount_virtual_filesystems s in
      run_as_init s
      ≡ actions
        ++ (if mounted
            then load_required_modules
              ∷ load_config
              ∷ configure_network
              ∷ configure_firewall
              ∷ (if s.firewall_configured then services else reboot rb_autoboot ∷ [])
            else reboot rb_autoboot ∷ [])
unfolding run_as_init
run_as_init-pid_1 s h = rw h refl

-- `start_signal_monitor`, from the signal on.
unfoldable pub shutdown : Answers → List Action
shutdown s =
    set_shutdown_flag
    ∷ reboot rb_power_off
    ∷ (if s.reboots rb_power_off then [] else reboot rb_autoboot ∷ [])

abbrev pub is_spawn : Action → Bool
is_spawn (spawn s) = true
is_spawn _ = false

abbrev pub is_firewall : Action → Bool
is_firewall configure_firewall = true
is_firewall _ = false

-- No service is started before an action of the kind.
abbrev pub NoneBefore : (Action → Bool) → List Action → Type 0
NoneBefore test [] = Unit
NoneBefore test (a ∷ rest) = elim (test a) [
  | true ↦ Unit
  | false ↦ (is_spawn a ≡ false) × NoneBefore test rest
]

-- As process 1 the router fails closed: no service is started before the firewall is configured, and
-- none at all if a file system cannot be mounted or the firewall cannot be configured.
pub run_as_init-fails_closed :
    (s : Answers)
    → s.pid ≡ 1
    → NoneBefore is_firewall (run_as_init s)
      × (any is_spawn (run_as_init s) ≡ (
          s.mounts proc && s.mounts sys && s.mounts dev && s.mounts run && s.firewall_configured))
unfolding run_as_init any
run_as_init-fails_closed s h =
    let one = (==_iff s.pid 1).1 h in
    elim (Bool-cases (s.mounts proc)) [
      | inr a ↦ rw (one, a) (ground arith)
      | inl a ↦ elim (Bool-cases (s.mounts sys)) [
        | inr b ↦ rw (one, a, b) (ground arith)
        | inl b ↦ elim (Bool-cases (s.mounts dev)) [
          | inr c ↦ rw (one, a, b, c) (ground arith)
          | inl c ↦ elim (Bool-cases (s.mounts run)) [
            | inr d ↦ rw (one, a, b, c, d) (ground arith)
            | inl d ↦ elim (Bool-cases s.firewall_configured) [
              | inr e ↦ rw (one, a, b, c, d, e) (ground arith)
              | inl e ↦ rw (one, a, b, c, d, e) (ground arith)
            ]
          ]
        ]
      ]
    ]
