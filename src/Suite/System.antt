-- ===== src/Suite/System.antt =====
-- The tests of src/system.rs, src/config.rs and src/reaper.rs, on the test double of the system.
use rustyrouter.Init.Config.{parse_cmdline}
use rustyrouter.Prelude.Text.{split_words}
use rustyrouter.Init.Boot.{RebootMode}
use rustyrouter.Init.Config.{Environment, RouterConfig, parse}
use rustyrouter.Init.Mock
use rustyrouter.Init.Mock.{MockSystem, MountCall, mock_system}
use rustyrouter.Init.Reaper.{WaitResult}
use rustyrouter.Init.System.{mount_virtual_filesystems, panic_hook, reap_zombies}
use rustyrouter.Prelude.{
  Bool, true, false, Option, none, some, refl, ◌&&◌, ◌==◌, ◌≡◌, List, [], ◌∷◌, length,
}
use rustyrouter.Prelude.Text.{Text, same, codes, strip_prefix}
use rustyrouter.Suite.Base.{unwrap}

abbrev mounted_as : Text → Text → MountCall → Bool
mounted_as target fstype call = same call.target target && same call.fstype fstype

-- The four calls, in their order.
abbrev are_mounts : List MountCall → Bool
are_mounts (a ∷ b ∷ c ∷ d ∷ []) =
    mounted_as (codes "/proc") (codes "proc") a
    && mounted_as (codes "/sys") (codes "sysfs") b
    && mounted_as (codes "/dev") (codes "devtmpfs") c
    && mounted_as (codes "/run") (codes "tmpfs") d
are_mounts _ = false

-- The write of the helper's path does not reach the test double.
unfoldable pub test_vfs_mounting : Bool
test_vfs_mounting =
    let (sys, mounted) = mount_virtual_filesystems mock_system (λ sys. sys) Mock.new in
    mounted && are_mounts sys.mount_calls

abbrev is_autoboot : Option RebootMode → Bool
is_autoboot (some RebootMode.rb_autoboot) = true
is_autoboot _ = false

-- The panic of the other thread runs the hook, which returns.
unfoldable pub test_emergency_reboot_on_panic : Bool
test_emergency_reboot_on_panic =
    let (sys, returns) = panic_hook mock_system (record Mock.new { pid = 99 }) in
    returns && is_autoboot sys.reboot_call

-- None of the environment variables is set during the tests.
abbrev no_overrides : Environment
no_overrides = record { wan = none; lan = none; lan_ip = none }

abbrev is_config : Text → Text → Text → RouterConfig → Bool
is_config wan lan lan_ip config =
    same config.wan_interface wan && same config.lan_interface lan && same config.lan_ip lan_ip

unfoldable pub test_config_parsing_defaults : Bool
test_config_parsing_defaults =
    is_config (codes "eth0") (codes "eth1") (codes "192.168.1.1/24")
      (parse no_overrides (mock_system.read_cmdline Mock.new))

abbrev test_cmdline : Text
test_cmdline =
    codes
      "BOOT_IMAGE=/boot/vmlinuz console=ttyS0 rustyrouter.wan=wan0 rustyrouter.lan=lan0 rustyrouter.lan_ip=10.0.0.1/24 quiet"

unfoldable pub test_config_parsing_from_cmdline : Bool
test_config_parsing_from_cmdline = is_config (codes "wan0") (codes "lan0") (codes "10.0.0.1/24") (
    parse no_overrides
      (mock_system.read_cmdline (record Mock.new { cmdline_content = test_cmdline })))

-- The loop has fuel for the three results and one more.
unfoldable pub test_zombie_reaping : Bool
test_zombie_reaping =
    let results = WaitResult.exited 42 0 ∷ WaitResult.signaled 43 9 ∷ WaitResult.no_child ∷ [] in
    unwrap (reap_zombies mock_system 4 (record Mock.new { waitpid_results = results }))
      (λ r. length r.1.waitpid_results == 0)

passes :
    (test_vfs_mounting ≡ true)
    × (test_emergency_reboot_on_panic ≡ true)
    × (test_config_parsing_defaults ≡ true)
    × (test_config_parsing_from_cmdline ≡ true)
    × (test_zombie_reaping ≡ true)
unfolding test_vfs_mounting test_emergency_reboot_on_panic test_config_parsing_defaults
    test_config_parsing_from_cmdline test_zombie_reaping mount_virtual_filesystems panic_hook
    reap_zombies parse Mock.new Mock.mount Mock.reboot Mock.waitpid Mock.read_cmdline same
    strip_prefix parse_cmdline split_words
passes = (refl, refl, refl, refl, refl)
