-- ===== src/Tests/Upstream.antt =====
-- The theorem on the client and the DNS forwarder together at a concrete input.
use rustyrouter.Dhcp.{with_opt, MessageType, OptionCode-discrete, DhcpOption}
use rustyrouter.Prelude.{ℕ_discrete, ◌∷◌, [], ◌≡◌, ◌⊎◌, refl}
use rustyrouter.Dns.Upstream.{handle_dns_query-run, IsLearnt}
use rustyrouter.Client.Session.{Attempt, run, bound_phase, bound_loop}
use rustyrouter.Client.Phases.{
  Reception, discover_phase, request_phase, wait_for_offer, wait_for_ack,
}
use rustyrouter.Client.Parse.{
  parse_offer, parse_ack_nak, offer_in, ack_nak_in, ack_of, parse_lease_options,
  get_server_identifier,
}
use rustyrouter.Client.Lease.{
  apply_lease_config, is_changed, address_eq, servers_eq, no_lease, lease_of,
}
use rustyrouter.Client.Netlink.{configure_wan, delete_matching}
use rustyrouter.Client.Mask.{mask_to_prefix_len, checked_prefix, leading_ones, trailing_zeros}
use rustyrouter.Dns.Cache.{bytes_eq, get_cache_key, lookup_cache}
use rustyrouter.Dns.Forward.{
  handle_dns_query, forward_start, with_xid, get_upstream_dns, fallback_dns_server,
}
use rustyrouter.Dns.Pending.{register, draw_xid}
use rustyrouter.Tests.Client.{broken_link, unbound}
use rustyrouter.Tests.Dns.{one_question, header, drawn, nothing_cached}
use rustyrouter.Tests.Instances.{
  Message, message_of, codec, opt_of, encode_in, decode_in, Message-discrete,
}
use rustyrouter.Tests.Session.{offer_reply}
use rustyrouter.Prelude.Map

abbrev ack_reply : Message
ack_reply =
    record (message_of 6 MessageType.ack (
      DhcpOption.subnet_mask 0xfffffff8
      ∷ DhcpOption.router (1 ∷ [])
      ∷ DhcpOption.server_identifier 1
      ∷ DhcpOption.domain_name_server (1 ∷ [])
      ∷ DhcpOption.address_lease_time 3600
      ∷ [])) { yiaddr = 3 }

-- The client is offered an address, and acknowledged with the server 1.
abbrev one_attempt : Attempt
one_attempt = record {
  xid = 7;
  discovering = (Reception.packet (0 ∷ []) ∷ []) ∷ [];
  requesting = [] ∷ (Reception.packet (1 ∷ []) ∷ []) ∷ [];
  bound = [];
}

handle_dns_query-run_example :
    (1 ≡ fallback_dns_server) ⊎ IsLearnt (codec (offer_reply ∷ ack_reply ∷ [])) (one_attempt ∷ []) 1
unfolding run bound_phase bound_loop discover_phase request_phase wait_for_offer wait_for_ack
    parse_offer parse_ack_nak offer_in ack_nak_in ack_of parse_lease_options get_server_identifier
    apply_lease_config is_changed address_eq servers_eq no_lease lease_of configure_wan
    delete_matching mask_to_prefix_len checked_prefix leading_ones trailing_zeros bytes_eq
    get_cache_key lookup_cache handle_dns_query forward_start with_xid get_upstream_dns register
    draw_xid opt_of encode_in decode_in Message-discrete ℕ_discrete with_opt OptionCode-discrete
    Map.get Map.insert Map.remove
handle_dns_query-run_example =
    handle_dns_query-run broken_link (codec (offer_reply ∷ ack_reply ∷ [])) "eth0"
      (one_attempt ∷ []) unbound one_question header 9 2 drawn 0 nothing_cached 1 1029
      (with_xid 1029 header) refl refl
