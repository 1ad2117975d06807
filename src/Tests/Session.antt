-- ===== src/Tests/Session.antt =====
-- The theorems on the phases of the DHCP client at concrete inputs.

use rustyrouter.Client.Backoff.{retry_delay_secs}
use rustyrouter.Client.Errors.{ok, DhcpError}
use rustyrouter.Client.Lease.{ClientState}
use rustyrouter.Client.Parse.{parse_offer, offer_in, get_server_identifier}
use rustyrouter.Client.Phases.{
  Reception, wait_for_offer, discover_phase, delays_from, discover_phase-offer,
}
use rustyrouter.Client.Session.{Iteration, bound_phase, bound_loop, bound_phase-unconfigured}
use rustyrouter.Dhcp.{with_opt, OptionCode-discrete, MessageType, DhcpOption}
use rustyrouter.Prelude.{[], ◌∷◌, List, some, refl, ◌≡◌, ◌++◌, ℕ_discrete}
use rustyrouter.Tests.Client.{broken_link, sample_ack, unbound, first_attempt_fails}
use rustyrouter.Tests.Instances.{
  Message, message_of, codec, opt_of, encode_in, decode_in, Message-discrete,
}

abbrev pub offer_reply : Message
offer_reply = record (message_of 5 MessageType.offer (DhcpOption.server_identifier 1 ∷ [])) {
  yiaddr = 2;
}

-- A wait that hears nothing, and one that hears a packet that is no message.
abbrev quiet_waits : List (List Reception)
quiet_waits = [] ∷ (Reception.packet (9 ∷ 9 ∷ []) ∷ []) ∷ []

discover_phase-offer_example :
    discover_phase
      (codec (offer_reply ∷ []))
      7
      (retry_delay_secs 0)
      (quiet_waits ++ (Reception.packet (0 ∷ []) ∷ []) ∷ [])
    ≡ (delays_from 0 3, some (ok (7, record { offered_ip = 2; server_ip = some 1 })))
unfolding wait_for_offer parse_offer offer_in get_server_identifier opt_of encode_in decode_in
    Message-discrete ℕ_discrete with_opt OptionCode-discrete
discover_phase-offer_example =
    discover_phase-offer (codec (offer_reply ∷ [])) 7 0 quiet_waits (Reception.packet (0 ∷ []) ∷ [])
      [] (record { offered_ip = 2; server_ip = some 1 }) (refl, (refl, tt)) refl

abbrev bound_already : ClientState broken_link
bound_already = record {
  lease_state = record { ip = some 77; mask = some 0xffffff00; gateway = some 1; dns_servers = [] };
  kernel = 0;
}

-- The clock says 10 seconds in the first round and 3600 in the second.
abbrev until_expiry : List Iteration
until_expiry =
    record { elapsed = 10; renew_xid = 7; rounds = [] }
    ∷ record { elapsed = 3600; renew_xid = 7; rounds = [] }
    ∷ []

bound_phase-unconfigured_example :
    let st' = (bound_phase broken_link (codec []) "eth0" sample_ack [] unbound).0 in
    ((bound_phase broken_link (codec []) "eth0" sample_ack [] unbound).1
      ≡ some DhcpError.rt_netlink)
    × (bound_phase broken_link (codec []) "eth0" sample_ack [] st'
        ≡ bound_loop broken_link (codec []) "eth0" sample_ack [] st')
bound_phase-unconfigured_example =
    bound_phase-unconfigured broken_link (codec []) "eth0" sample_ack [] [] unbound
      DhcpError.rt_netlink first_attempt_fails
