-- ===== src/Init/LanAddress.antt =====
-- src/network.rs against src/services/dhcp_server.rs: what each makes of the configured LAN address.
use mathlib.Core.List.{append_assoc, append-nil}
use rustyrouter.Dhcp.{Dhcproto}
use rustyrouter.Network.{Handle, assign_address, assign_parts, prefix_in}
use rustyrouter.Packet.{Pnet}
use rustyrouter.Prelude.{
  ℕ, List, [], ◌∷◌, ◌++◌, Option, some, none, ◌≡◌, ◌≢◌, All, true, refl, arith, ◌==◌, false, ◌∙◌,
  ap, sym,
}
use rustyrouter.Prelude.Text.{Text, split_at}
use rustyrouter.Server.LeaseTable.{Ipv4Net, new}
use rustyrouter.Server.Start.{Session, start_dhcp_server}

-- The text has no slash.
abbrev pub HasNoSlash : Text → Type 0
HasNoSlash text = All (λ c. c ≢ b'/') text

split_at-HasNoSlash : (w text : Text) → HasNoSlash text → split_at b'/' w text ≡ (w ++ text) ∷ []
unfolding split_at
split_at-HasNoSlash w [] h = ap (λ u. u ∷ []) (sym (append-nil w))
split_at-HasNoSlash w (c ∷ text) h =
    let ih = split_at-HasNoSlash (w ++ c ∷ []) text h.1 in
    let differs : (c == b'/') ≡ false = ground (arith, h.0) in
    rw (differs, split_at) ih ∙ ap (λ u. u ∷ []) (append_assoc w (c ∷ []) text)

-- A LAN address without a slash that is read as an IP address, where `ipnet` reads no text without
-- a slash: the interface is given the address with a prefix of 24 and the step succeeds, but the
-- DHCP server does not start: it stops with the empty table, before it opens a socket.
pub lan_ip-no_prefix :
    (h : Handle) (p : Pnet) (d : Dhcproto) (parse : Text → Option Ipv4Net)
    → ((text : Text) → HasNoSlash text → parse text ≡ none)
    → (lan_ip : Text) (ip index : ℕ) (k : h.Kernel) (sessions : List Session) → HasNoSlash lan_ip
    → h.parse_ip lan_ip ≡ some ip
    → (assign_address h k index lan_ip ≡ ((h.add_address k index ip 24).0, true))
      × (start_dhcp_server p d parse lan_ip sessions ≡ some (new, []))
unfolding assign_address start_dhcp_server
lan_ip-no_prefix h p d parse parse-none lan_ip ip index k sessions no_slash reads = (
  ap (assign_parts h k index) (split_at-HasNoSlash [] lan_ip no_slash)
      ∙ rw (assign_parts, prefix_in, reads) refl,
  rw (start_dhcp_server, parse-none lan_ip no_slash) refl,
)
