-- ===== src/Tests/Init.antt =====
-- The theorems on the start of the program at concrete inputs.
use rustyrouter.Prelude.{
  ℕ, Option, some, ◌==◌, ◌||◌, arith, none, [], ◌∷◌, true, false, refl, ◌≡◌, any, ◌&&◌, Bool,
}
use rustyrouter.Prelude.Text.{Text, codes}
use rustyrouter.Init.Config.{
  parse_args, last_value, nothing_parsed, wan_prefix, lan_prefix, lan_ip_prefix, parse_args_lem,
}
use rustyrouter.Init.LanAddress.{HasNoSlash, lan_ip-no_prefix}
use rustyrouter.Network.{Handle, AddResult, assign_address}
use rustyrouter.Server.LeaseTable.{Ipv4Net, new}
use rustyrouter.Server.Start.{start_dhcp_server}
use rustyrouter.Tests.Instances.{frames, lan_codec, lan_net}
use rustyrouter.Init.Boot.{
  Answers, Target, run_as_init, NoneBefore, is_firewall, is_spawn, run_as_init-fails_closed,
}

-- The run directory cannot be mounted.
abbrev no_run : Answers
no_run = record {
  pid = 1;
  mounts = λ t. elim t [
    | Target.proc ↦ true
    | Target.sys ↦ true
    | Target.dev ↦ true
    | Target.run ↦ false
  ];
  firewall_configured = true;
  reboots = λ m. true;
}

run_as_init-fails_closed_example :
    NoneBefore is_firewall (run_as_init no_run)
    × (any is_spawn (run_as_init no_run) ≡ (
        no_run.mounts Target.proc
        && no_run.mounts Target.sys
        && no_run.mounts Target.dev
        && no_run.mounts Target.run
        && no_run.firewall_configured))
run_as_init-fails_closed_example = run_as_init-fails_closed no_run refl

parse_args_lem_example :
    parse_args
      (codes "quiet" ∷ codes "rustyrouter.wan=a" ∷ codes "rustyrouter.wan=b" ∷ [])
      nothing_parsed
    ≡ record {
      wan =
          last_value wan_prefix
            (codes "quiet" ∷ codes "rustyrouter.wan=a" ∷ codes "rustyrouter.wan=b" ∷ [])
            none;
      lan =
          last_value lan_prefix
            (codes "quiet" ∷ codes "rustyrouter.wan=a" ∷ codes "rustyrouter.wan=b" ∷ [])
            none;
      lan_ip =
          last_value lan_ip_prefix
            (codes "quiet" ∷ codes "rustyrouter.wan=a" ∷ codes "rustyrouter.wan=b" ∷ [])
            none;
    }
parse_args_lem_example =
    parse_args_lem (codes "quiet" ∷ codes "rustyrouter.wan=a" ∷ codes "rustyrouter.wan=b" ∷ [])
      nothing_parsed

-- Every link exists, every call succeeds, and every address is read as 1.
abbrev pub willing : Handle
willing = record {
  Kernel = ℕ;
  enable_forwarding = λ k. (k, true);
  new_connection = λ k. (k, true);
  link_index = λ k name. some (some 2);
  link_up = λ k index. (k, true);
  add_address = λ k index ip prefix. (prefix, AddResult.added);
  parse_ip = λ text. some 1;
}

-- A parser that reads no text without a slash, and reads any other as the test network.
abbrev has_slash : Text → Bool
has_slash [] = false
has_slash (c ∷ text) = c == b'/' || has_slash text

abbrev lan_net_at : Text → Option Ipv4Net
lan_net_at text = elim (has_slash text) [ true ↦ some lan_net | false ↦ none ]

has_slash-HasNoSlash : (text : Text) → HasNoSlash text → has_slash text ≡ false
has_slash-HasNoSlash [] h = refl
has_slash-HasNoSlash (c ∷ text) h = let ih = has_slash-HasNoSlash text h.1 in ground (arith, h.0)

no_slash : HasNoSlash (codes "192.168.1.1")
no_slash = (
  omega arith,
  (
    omega arith,
    (
      omega arith,
      (
        omega arith,
        (
          omega arith,
          (
            omega arith,
            (omega arith, (omega arith, (omega arith, (omega arith, (omega arith, tt))))),
          ),
        ),
      ),
    ),
  ),
)

lan_ip-no_prefix_example :
    (assign_address willing 0 2 (codes "192.168.1.1") ≡ (24, true))
    × (start_dhcp_server frames lan_codec lan_net_at (codes "192.168.1.1") [] ≡ some (new, []))
lan_ip-no_prefix_example =
    lan_ip-no_prefix willing frames lan_codec lan_net_at
      (λ text h. ground (arith, has_slash-HasNoSlash text h)) (codes "192.168.1.1") 1 2 0 []
      no_slash refl
