-- ===== src/Server/Handlers.antt =====
-- src/services/dhcp_server.rs: the handlers of the four message types, and the checks a packet
-- passes first. A handler returns the new lease table and the frames sent. `now` is the clock when
-- the table is searched and `later` when the lease's expiry is set.
use rustyrouter.Prelude.{
  ℕ, zero, suc, ◌+◌, Bool, true, false, not, ◌&&◌, ◌||◌, Option, none, some, List, [], ◌∷◌, length,
  ◌==◌, if◌then◌else◌,
}
use rustyrouter.Prelude.Set.{from_secs}
use rustyrouter.Dhcp.{Dhcproto, MessageType, Opcode, OptionCode, DhcpOption}
use rustyrouter.Packet.{Pnet, RawPacket, parse_dhcp_payload}
use rustyrouter.Server.LeaseTable.{
  ClientLease, LeaseTable, get, insert, remove, is_ip_taken_by_other, next_available_ip,
}
use rustyrouter.Server.Replies.{ServerConfig, lan_lease_secs, send_reply, send_dhcp_nak}

abbrev pub lease_from : ℕ → ℕ → ClientLease
lease_from ip later = record { ip = ip; expiry = later + from_secs lan_lease_secs }

-- The address for a DHCPDISCOVER: that of the client's entry, or a free one, entered for the client.
unfoldable pub allocate : ServerConfig → LeaseTable → ℕ → ℕ → ℕ → LeaseTable × Option ℕ
allocate config leases client_mac now later = elim (get leases client_mac) [
  | some existing ↦ (leases, some existing.ip)
  | none ↦
      let (evicted, found) = next_available_ip leases now config.net config.server_ip in
      elim found [
        | none ↦ (evicted, none)
        | some ip ↦ (insert evicted client_mac (lease_from ip later), some ip)
      ]
]

unfoldable pub validate_requested_ip : ℕ → ℕ → ServerConfig → LeaseTable → ℕ → Bool
validate_requested_ip leased_ip client_mac config leases now =
    if leased_ip == config.server_ip || not (config.net.contains leased_ip)
    then false
    else not (is_ip_taken_by_other leases now leased_ip client_mac)

-- The requested-address option, if it holds an address.
abbrev pub as_requested_ip : Option DhcpOption → Option ℕ
as_requested_ip (some (DhcpOption.requested_ip_address ip)) = some ip
as_requested_ip _ = none

-- The address that a DHCPREQUEST is about: the requested one, or that of the client's entry.
unfoldable pub requested_ip : Option DhcpOption → Option ClientLease → Option ℕ
requested_ip opt existing = elim (as_requested_ip opt) [
  | some req_ip ↦ some req_ip
  | none ↦ elim existing [ some l ↦ some l.ip | none ↦ none ]
]

abbrev pub as_message_type : Option DhcpOption → Option MessageType
as_message_type (some (DhcpOption.message_type mtype)) = some mtype
as_message_type _ = none

-- `&bytes[..n]`: a fault if there are fewer.
unfoldable pub slice_to : ℕ → List ℕ → Option (List ℕ)
slice_to zero bytes = some []
slice_to (suc n) [] = none
slice_to (suc n) (b ∷ bytes) = elim (slice_to n bytes) [ none ↦ none | some s ↦ some (b ∷ s) ]

module _ (p : Pnet) (d : Dhcproto) where
  unfoldable pub handle_dhcp_discover :
      ServerConfig → d.Message → ℕ → LeaseTable → ℕ → ℕ → LeaseTable × List RawPacket
  handle_dhcp_discover config dhcp client_mac leases now later =
      let (leases', leased) = allocate config leases client_mac now later in
      elim leased [
        | none ↦ (leases', [])
        | some leased_ip ↦
            (leases', send_reply p d MessageType.offer dhcp client_mac leased_ip config)
      ]

  unfoldable pub handle_dhcp_request :
      ServerConfig → d.Message → ℕ → LeaseTable → ℕ → ℕ → LeaseTable × List RawPacket
  handle_dhcp_request config dhcp client_mac leases now later =
      elim (requested_ip ((d.fields dhcp).opt OptionCode.requested_ip_address)
        (get leases client_mac)) [
          | none ↦ (leases, [])
          | some leased_ip ↦
              if validate_requested_ip leased_ip client_mac config leases now
              then (
                insert leases client_mac (lease_from leased_ip later),
                send_reply p d MessageType.ack dhcp client_mac leased_ip config,
              )
              else (leases, send_dhcp_nak p d dhcp client_mac config)
        ]

  -- DHCPDECLINE and DHCPRELEASE do the same to the table.
  unfoldable pub handle_dhcp_decline : ℕ → LeaseTable → LeaseTable
  handle_dhcp_decline client_mac leases = (remove leases client_mac).0

  unfoldable pub handle_dhcp_release : ℕ → LeaseTable → LeaseTable
  handle_dhcp_release client_mac leases = (remove leases client_mac).0

  unfoldable pub dispatch :
      MessageType → ServerConfig → d.Message → ℕ → LeaseTable → ℕ → ℕ → LeaseTable × List RawPacket
  dispatch MessageType.discover config dhcp client_mac leases now later =
      handle_dhcp_discover config dhcp client_mac leases now later
  dispatch MessageType.request config dhcp client_mac leases now later =
      handle_dhcp_request config dhcp client_mac leases now later
  dispatch MessageType.decline config dhcp client_mac leases now later =
      (handle_dhcp_decline client_mac leases, [])
  dispatch MessageType.release config dhcp client_mac leases now later =
      (handle_dhcp_release client_mac leases, [])
  dispatch _ config dhcp client_mac leases now later = (leases, [])

  -- What the checks make of a packet: dropped, a panic of the slice, or a message to dispatch.
  pub data Checked : Type 0 where
    dropped : Checked
    panicked : Checked
    accepted : MessageType → d.Message → ℕ → Checked

  abbrev pub is_boot_request : Opcode → Bool
  is_boot_request Opcode.boot_request = true
  is_boot_request _ = false

  -- The anti-spoofing check and the message type, for a client address of six bytes.
  unfoldable pub check_source : List ℕ → d.Message → ℕ → Checked
  check_source frame dhcp client_mac = elim (p.ethernet frame) [
    | none ↦ dropped
    | some eth ↦
        if (d.fields dhcp).giaddr == 0 && not (eth.source == client_mac)
        then dropped
        else elim (as_message_type ((d.fields dhcp).opt OptionCode.message_type)) [
          | none ↦ dropped
          | some mtype ↦ accepted mtype dhcp client_mac
        ]
  ]

  unfoldable pub check_packet : List ℕ → Checked
  unfolding check_source slice_to
  check_packet frame = elim (parse_dhcp_payload p d frame d.server_port) [
    | none ↦ dropped
    | some dhcp ↦
        if is_boot_request (d.fields dhcp).opcode
        then (elim (slice_to (d.fields dhcp).hlen (d.fields dhcp).chaddr) [
          | none ↦ panicked
          | some bytes ↦
              if length bytes == 6 then check_source frame dhcp (p.mac_from bytes) else dropped
        ])
        else dropped
  ]

  unfoldable pub after_checks :
      Checked → ServerConfig → LeaseTable → ℕ → ℕ → Option (LeaseTable × List RawPacket)
  after_checks Checked.dropped config leases now later = some (leases, [])
  after_checks Checked.panicked config leases now later = none
  after_checks (Checked.accepted mtype dhcp client_mac) config leases now later =
      some (dispatch mtype config dhcp client_mac leases now later)

  -- The table and the frames that a packet leaves; `none` after a panic.
  unfoldable pub process_incoming_packet :
      List ℕ → ServerConfig → LeaseTable → ℕ → ℕ → Option (LeaseTable × List RawPacket)
  unfolding after_checks
  process_incoming_packet frame config leases now later =
      after_checks (check_packet frame) config leases now later
