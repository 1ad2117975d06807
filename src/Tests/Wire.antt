-- ===== src/Tests/Wire.antt =====
-- The exchange of the client with the server at a concrete input.
use rustyrouter.Client.Messages.{request_message}
use rustyrouter.Client.Send.{Datagram, send_request}
use rustyrouter.Dhcp.{MessageType, Dhcproto}
use rustyrouter.Exchange.Wire.{Carries, process_incoming_packet-send_request}
use rustyrouter.Prelude.{
  ℕ, List, [], ◌∷◌, some, ◌≡◌, refl, true, ◌-◌, ◌^◌, ℕ_discrete, dec_lt, find, any, ◌+◌,
}
use rustyrouter.Prelude.Map
use rustyrouter.Prelude.Set
use rustyrouter.Server.Handlers.{allocate, process_incoming_packet}
use rustyrouter.Server.LeaseTable.{
  LeaseTable, get, insert, new, next_available_ip, evict_expired, is_ip_available, remove,
}
use rustyrouter.Server.Replies.{reply_message, build_dhcp_reply_payload}
use rustyrouter.Exchange.Answer.{Acknowledges}
use rustyrouter.Packet.{RawPacket}
use rustyrouter.Prelude.Set.{from_secs}
use rustyrouter.Tests.Instances.{
  Message, codec, codec-laws, frames, config, lan_net-hosts, frame_of, opt_of, encode_in,
  Message-discrete,
}

abbrev mac_5 : List ℕ
mac_5 = 2 ∷ 0 ∷ 0 ∷ 0 ∷ 0 ∷ 5 ∷ []

-- Client 5's request for address 2, and a codec that knows it.
abbrev request_for_2 : Message
request_for_2 = unfold request_message in request_message (codec []) mac_5 7 2 (some 1) 0

-- The server's acknowledgement of it.
abbrev ack_for_2 : Message
ack_for_2 = unfold reply_message in reply_message (codec []) MessageType.ack request_for_2 2 config

abbrev wire_codec : Dhcproto
wire_codec = codec (request_for_2 ∷ ack_for_2 ∷ [])

abbrev broadcast_request : Datagram
broadcast_request = record { payload = 0 ∷ []; dest_ip = 2 ^ 32 - 1; dest_port = 67 }

frame_of-Carries : Carries frames (frame_of 5 0) broadcast_request 5
frame_of-Carries = record {
  eth = record { ethertype = 2048; source = 5; payload = 17 ∷ 67 ∷ 0 ∷ [] };
  ip = record { protocol = 17; payload = 67 ∷ 0 ∷ [] };
  udp = record { destination = 67; payload = 0 ∷ [] };
  is_ethernet = refl;
  is_ipv4 = refl;
  is_udp = refl;
  ethertype = refl;
  from = refl;
  protocol = refl;
  port = refl;
  payload = refl;
}

process_incoming_packet-send_request_example :
    let t' = (allocate config new 5 10 11).0 in
    (after : LeaseTable) × (reply : RawPacket) × (process_incoming_packet frames wire_codec
        (frame_of 5 0)
        config
        t'
        20
        21
      ≡ some (after, reply ∷ []))
    × (get after 5 ≡ some (record { ip = 2; expiry = 21 + from_secs 3600 }))
    × Acknowledges frames wire_codec config 5 2 7 reply
unfolding allocate send_request request_message reply_message build_dhcp_reply_payload opt_of
    encode_in Message-discrete ℕ_discrete get next_available_ip evict_expired is_ip_available new
    find any Map.get Map.retain Map.insert Set.contains Set.insert insert remove Map.remove
    Set.remove dec_lt
process_incoming_packet-send_request_example =
    process_incoming_packet-send_request frames wire_codec
      (codec-laws (request_for_2 ∷ ack_for_2 ∷ [])) config new 10 11 20 21 2 7 (2 ^ 32 - 1) mac_5
      (frame_of 5 0) (1 ∷ []) (some 1) true broadcast_request lan_net-hosts refl refl refl refl
      frame_of-Carries refl
