-- ===== src/Init/Config.antt =====
-- src/config.rs: the interfaces and the LAN address, from the environment or the kernel's command line.
use rustyrouter.Prelude.Text.{Text, codes, split_whitespace, strip_prefix, append-strip_prefix}
use rustyrouter.Prelude.{
  none, some, [], ◌∷◌, refl, inl, inr, Option, List, ◌≡◌, ◌∙◌, arith, ap, Option-cases,
}

pub record RouterConfig : Type 0 where
  pub wan_interface : Text
  pub lan_interface : Text
  pub lan_ip : Text

-- The three environment variables.
pub record Environment : Type 0 where
  pub wan : Option Text
  pub lan : Option Text
  pub lan_ip : Option Text

-- The values that the loop over the arguments has found so far.
pub record Parsed : Type 0 where
  pub wan : Option Text
  pub lan : Option Text
  pub lan_ip : Option Text

abbrev pub wan_prefix : Text
wan_prefix = codes "rustyrouter.wan="

abbrev pub lan_prefix : Text
lan_prefix = codes "rustyrouter.lan="

abbrev pub lan_ip_prefix : Text
lan_ip_prefix = codes "rustyrouter.lan_ip="

unfoldable pub parse_arg : Text → Parsed → Parsed
parse_arg arg parsed = elim (strip_prefix wan_prefix arg) [
  | some val ↦ record parsed { wan = some val }
  | none ↦ elim (strip_prefix lan_prefix arg) [
    | some val ↦ record parsed { lan = some val }
    | none ↦ elim (strip_prefix lan_ip_prefix arg) [
      | some val ↦ record parsed { lan_ip = some val }
      | none ↦ parsed
    ]
  ]
]

unfoldable pub parse_args : List Text → Parsed → Parsed
unfolding parse_arg
parse_args [] parsed = parsed
parse_args (arg ∷ rest) parsed = parse_args rest (parse_arg arg parsed)

abbrev or_else : Option Text → Text → Text
or_else none t = t
or_else (some s) t = s

abbrev pub nothing_parsed : Parsed
nothing_parsed = record { wan = none; lan = none; lan_ip = none }

-- What `read_cmdline` gives is parsed; nothing is, where it fails.
unfoldable pub parse_cmdline : Option Text → Parsed
unfolding parse_args
parse_cmdline none = nothing_parsed
parse_cmdline (some cmdline) = parse_args (split_whitespace cmdline) nothing_parsed

abbrev pub with_defaults : Parsed → RouterConfig
with_defaults parsed = record {
  wan_interface = or_else parsed.wan (codes "eth0");
  lan_interface = or_else parsed.lan (codes "eth1");
  lan_ip = or_else parsed.lan_ip (codes "192.168.1.1/24");
}

-- The overrides count only if all three are set.
unfoldable pub overrides : Option Text → Option Text → Option Text → Option RouterConfig
overrides (some w) (some l) (some ip) =
    some (record { wan_interface = w; lan_interface = l; lan_ip = ip })
overrides _ _ _ = none

unfoldable pub parse : Environment → Option Text → RouterConfig
unfolding overrides
parse env cmdline = elim (overrides env.wan env.lan env.lan_ip) [
  | some config ↦ config
  | none ↦ with_defaults (parse_cmdline cmdline)
]

-- The value of the last argument with the prefix, or the one given.
unfoldable pub last_value : Text → List Text → Option Text → Option Text
last_value pre [] found = found
last_value pre (arg ∷ rest) found =
    last_value pre rest (elim (strip_prefix pre arg) [ none ↦ found | some val ↦ some val ])

-- No argument has two of the prefixes.
wan-excludes :
    (arg val : Text)
    → strip_prefix wan_prefix arg ≡ some val
    → (strip_prefix lan_prefix arg ≡ none) × (strip_prefix lan_ip_prefix arg ≡ none)
wan-excludes arg val h =
    let e = append-strip_prefix wan_prefix arg val h in rw e (unfold strip_prefix in (refl, refl))

lan-excludes :
    (arg val : Text)
    → strip_prefix lan_prefix arg ≡ some val
    → strip_prefix lan_ip_prefix arg ≡ none
lan-excludes arg val h =
    let e = append-strip_prefix lan_prefix arg val h in rw e (unfold strip_prefix in refl)

abbrev last_values : List Text → Parsed → Parsed
last_values args parsed = record {
  wan = last_value wan_prefix args parsed.wan;
  lan = last_value lan_prefix args parsed.lan;
  lan_ip = last_value lan_ip_prefix args parsed.lan_ip;
}

parse_arg_lem :
    (arg : Text) (parsed : Parsed) → parse_arg arg parsed ≡ last_values (arg ∷ []) parsed
unfolding parse_arg last_value
parse_arg_lem arg parsed = elim (Option-cases (strip_prefix wan_prefix arg)) [
  | inr (v, e) ↦ let (b, c) = wan-excludes arg v e in ground arith
  | inl e ↦ elim (Option-cases (strip_prefix lan_prefix arg)) [
    | inr (v, f) ↦ let c = lan-excludes arg v f in ground arith
    | inl f ↦ ground arith
  ]
]

-- Each of the three values is that of the last argument with its prefix, independently of the other
-- two; a value with no such argument stays as it was.
pub parse_args_lem :
    (args : List Text) (parsed : Parsed)
    → parse_args args parsed ≡ record {
      wan = last_value wan_prefix args parsed.wan;
      lan = last_value lan_prefix args parsed.lan;
      lan_ip = last_value lan_ip_prefix args parsed.lan_ip;
    }
unfolding parse_args last_value
parse_args_lem [] parsed = refl
parse_args_lem (arg ∷ rest) parsed =
    parse_args_lem rest (parse_arg arg parsed) ∙ ap (last_values rest) (parse_arg_lem arg parsed)
