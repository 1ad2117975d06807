-- ===== src/Tests/Client.antt =====
-- The theorems on the DHCP client, and on its exchange with the server, at concrete inputs.
use rustyrouter.Client.Jitter.{
  get_jittered_duration, to_f64, get_jittered_duration-retry_delay_secs, from_secs_f64, round_even,
  ulp,
}
use Prim.Native.Nat.{max}
use rustyrouter.Exchange.{parse_ack_nak-ack}
use rustyrouter.Server.Replies.{reply_message, build_dhcp_reply_payload}
use rustyrouter.Client.Mask.{
  mask_to_prefix_len, checked_prefix, leading_ones, trailing_zeros, mask_to_prefix_len_iff,
}
use rustyrouter.Client.Netlink.{Netlink, configure_wan, delete_matching}
use rustyrouter.Dhcp.{MessageType}
use rustyrouter.Client.Lease.{apply_lease_config, ClientState, is_changed, address_eq, servers_eq}
use rustyrouter.Client.Backoff.{retry_delay_secs, retry_delay_secs_lem}
use rustyrouter.Client.Parse.{DhcpAck, parse_ack_nak, ParseAckResult}
use rustyrouter.Client.Renewal.{
  bound_step, calculate_renewal_params, calculate_renewal_params_bounds,
}
use Prim.Native.Nat.{min}
use rustyrouter.Prelude.{
  ℕ, none, some, [], ◌∷◌, true, false, refl, ◌+◌, ◌*◌, ◌^◌, ◌-◌, ◌≤◌, ◌<◌, ◌≡◌, arith, ◌↔◌, ◌/◌,
  ℕ_discrete, if◌then◌else◌, ◌==◌,
}
use rustyrouter.Client.Errors.{ok, err, DhcpError}
use rustyrouter.Tests.Instances.{
  Message, opt_of, config, codec, codec-laws, request_6, Message, encode_in, Message-discrete,
}

-- The reply that a codec knows.
abbrev ack_reply : Message
ack_reply = unfold reply_message in reply_message (codec []) MessageType.ack request_6 3 config

parse_ack_nak-ack_example : parse_ack_nak (codec (ack_reply ∷ [])) (0 ∷ []) 7 ≡ (
    if 7 == 7
    then ParseAckResult.ack (record {
      ip = 3;
      mask = 0xfffffff8;
      gateway = some 1;
      server_ip = some 1;
      lease_secs = 3600;
      dns_servers = 1 ∷ [];
    })
    else ParseAckResult.nothing)
unfolding opt_of encode_in Message-discrete build_dhcp_reply_payload reply_message ℕ_discrete
parse_ack_nak-ack_example =
    parse_ack_nak-ack (codec (ack_reply ∷ [])) (codec-laws (ack_reply ∷ [])) request_6 3 7 config
      (0 ∷ []) (omega arith) refl

retry_delay_secs_lem_example : retry_delay_secs 7 ≡ min 64 (4 * 2 ^ 7)
retry_delay_secs_lem_example = retry_delay_secs_lem 7

mask_to_prefix_len_iff_example :
    (mask_to_prefix_len 0xffffff00 ≡ ok 24) ↔ ((24 ≤ 32) × (0xffffff00 + 2 ^ (32 - 24) ≡ 2 ^ 32))
mask_to_prefix_len_iff_example = mask_to_prefix_len_iff 0xffffff00 24 (omega arith)

calculate_renewal_params_bounds_example :
    let interval = (calculate_renewal_params 3595 3150 3600 none).0 in
    (3600 / 2 ≤ 1900)
    × (1900 < 3600)
    × (3600 / 2 ≤ 3150)
    × (3150 < 3600)
    × (60 ≤ interval)
    × (3595 + interval ≤ max 3600 (3595 + 60))
unfolding bound_step
calculate_renewal_params_bounds_example =
    calculate_renewal_params_bounds 1900 3595 3600 3150 none refl (omega arith)

get_jittered_duration-retry_delay_secs_example :
    (d : ℕ) × (get_jittered_duration (retry_delay_secs 2) 5 ≡ some d)
    × (min 64 (4 * 2 ^ 2) * 1_000_000_000 ≤ d + 1_000_000_000)
    × (d ≤ (min 64 (4 * 2 ^ 2) + 1) * 1_000_000_000)
get_jittered_duration-retry_delay_secs_example =
    get_jittered_duration-retry_delay_secs 2 5 (omega arith)

-- The smallest draw takes a second off, the middle one nothing, and a draw just below 1 rounds up to a
-- second more.
jitter_drawn :
    (get_jittered_duration 4 0 ≡ some 3_000_000_000)
    × (get_jittered_duration 4 (2 ^ 52) ≡ some 4_000_000_000)
    × (get_jittered_duration 4 (2 ^ 53 - 1) ≡ some 5_000_000_000)
unfolding get_jittered_duration to_f64 from_secs_f64 round_even ulp
jitter_drawn = (refl, refl, refl)

-- A kernel that counts requests, and whose links cannot be brought up.
abbrev pub broken_link : Netlink
broken_link = record {
  Kernel = ℕ;
  new_connection = λ k. (k, true);
  link_index = λ k name. some (some 2);
  addresses = λ k. some (record { index = 2; locals = 9 ∷ [] }) ∷ [];
  del_address = λ k a. (k + 1, true);
  link_up = λ k i. (k + 1, false);
  add_address = λ k i ip len. (k + 1, true);
  add_default_route = λ k gw i. (k + 1, true);
}

abbrev pub sample_ack : DhcpAck
sample_ack = record {
  ip = 77;
  mask = 0xffffff00;
  gateway = some 1;
  server_ip = some 1;
  lease_secs = 3600;
  dns_servers = [];
}

abbrev pub unbound : ClientState broken_link
unbound = record {
  lease_state = record { ip = none; mask = none; gateway = none; dns_servers = [] };
  kernel = 0;
}

-- The first attempt at it fails.
pub first_attempt_fails :
    (apply_lease_config broken_link "eth0" unbound sample_ack).1 ≡ err DhcpError.rt_netlink
unfolding apply_lease_config is_changed configure_wan delete_matching address_eq servers_eq
    ℕ_discrete mask_to_prefix_len checked_prefix leading_ones trailing_zeros
first_attempt_fails = refl
