-- ===== src/Network.antt =====
-- src/network.rs: forwarding and the interfaces at the start. The file system and netlink are a
-- parameter, as is the parsing of an address; each call gives the kernel afterwards and its result.
use rustyrouter.Prelude.{
  ℕ, List, [], ◌∷◌, Bool, true, false, Option, some, none, if◌then◌else◌, ◌*◌, ◌+◌, ◌-◌, ltb, ◌==◌,
  leb, ◌&&◌,
}
use rustyrouter.Prelude.Text.{Text, codes, split}

pub data AddResult : Type 0 where
  added already_exists not_added : AddResult

pub record Handle : Type 1 where
  pub Kernel : Type 0
  -- The write of "1" to `/proc/sys/net/ipv4/ip_forward`.
  pub enable_forwarding : Kernel → Kernel × Bool
  pub new_connection : Kernel → Kernel × Bool
  -- The index of a link: none if the request fails, or if there is no such link.
  pub link_index : Kernel → Text → Option (Option ℕ)
  pub link_up : Kernel → ℕ → Kernel × Bool
  pub add_address : Kernel → ℕ → ℕ → ℕ → Kernel × AddResult
  -- `IpAddr::from_str`
  pub parse_ip : Text → Option ℕ

-- `str::parse::<u8>`: digits, perhaps after a plus sign, that come to 255 at most.
abbrev is_digit : ℕ → Bool
is_digit c = leb b'0' c && leb c b'9'

unfoldable pub parse_digits : ℕ → Text → Option ℕ
parse_digits n [] = some n
parse_digits n (c ∷ rest) =
    if is_digit c && ltb (n * 10 + (c - b'0')) 256
    then parse_digits (n * 10 + (c - b'0')) rest
    else none

unfoldable pub parse_unsigned : Text → Option ℕ
unfolding parse_digits
parse_unsigned [] = none
parse_unsigned (c ∷ rest) = parse_digits 0 (c ∷ rest)

unfoldable pub parse_u8 : Text → Option ℕ
unfolding parse_unsigned
parse_u8 [] = none
parse_u8 (c ∷ rest) = if c == b'+' then parse_unsigned rest else parse_unsigned (c ∷ rest)

-- The prefix length of the pieces of a CIDR text, 24 if there is none.
unfoldable pub prefix_in : List Text → Option ℕ
unfolding parse_u8
prefix_in (ip ∷ prefix ∷ rest) = parse_u8 prefix
prefix_in _ = some 24

abbrev first_part : List Text → Text
first_part [] = []
first_part (p ∷ rest) = p

module _ (h : Handle) where
  -- From the pieces of the CIDR text on. The failure to add an address is only printed.
  unfoldable pub assign_parts : h.Kernel → ℕ → List Text → h.Kernel × Bool
  unfolding prefix_in
  assign_parts k index parts = elim (prefix_in parts) [
    | none ↦ (k, false)
    | some prefix ↦ elim (h.parse_ip (first_part parts)) [
      | none ↦ (k, false)
      | some ip ↦ ((h.add_address k index ip prefix).0, true)
    ]
  ]

  unfoldable pub assign_address : h.Kernel → ℕ → Text → h.Kernel × Bool
  unfolding assign_parts
  assign_address k index cidr = assign_parts k index (split b'/' cidr)

  abbrev assign_if : h.Kernel → ℕ → Option Text → h.Kernel × Bool
  assign_if k index none = (k, true)
  assign_if k index (some cidr) = assign_address k index cidr

  unfoldable pub configure_interface : h.Kernel → Text → Option Text → h.Kernel × Bool
  unfolding assign_address
  configure_interface k name ip_cidr = elim (h.link_index k name) [
    | none ↦ (k, false)
    | some found ↦ elim found [
      | none ↦ (k, false)
      | some index ↦
          let (k', up) = h.link_up k index in
          elim up [ true ↦ assign_if k' index ip_cidr | false ↦ (k', false) ]
    ]
  ]

  unfoldable pub configure_network : h.Kernel → Text → Text → Text → h.Kernel × Bool
  unfolding configure_interface
  configure_network k wan_iface lan_iface lan_ip_cidr =
      let (forwarding, written) = h.enable_forwarding k in
      elim written [
        | false ↦ (forwarding, false)
        | true ↦
            let (connected, done) = h.new_connection forwarding in
            elim done [
              | false ↦ (connected, false)
              | true ↦
                  let (lo, _) = configure_interface connected (codes "lo") none in
                  let (lan, lan_done) = configure_interface lo lan_iface (some lan_ip_cidr) in
                  elim lan_done [
                    | false ↦ (lan, false)
                    | true ↦ configure_interface lan wan_iface none
                  ]
            ]
      ]
