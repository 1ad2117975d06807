-- ===== src/Suite/Client.antt =====
-- src/services/dhcp_client.rs, module `tests`, over any `dhcproto`; they are run on one that can encode
-- the message of each test.
use rustyrouter.Prelude.{ℕ_discrete}
use rustyrouter.Dhcp.{with_opt, OptionCode-discrete}
use rustyrouter.Client.Mask.{mask_to_prefix_len, checked_prefix, leading_ones, trailing_zeros}
use rustyrouter.Client.Errors.{Result, ok, err}
use rustyrouter.Client.Parse.{
  parse_offer, parse_ack_nak, parse_lease_options, ParseAckResult, default_lease_secs, DhcpAck,
}
use rustyrouter.Dhcp.{Dhcproto, DhcpOption, MessageType}
use rustyrouter.Prelude.{ℕ, Bool, true, false, Option, refl, ◌&&◌, ◌==◌, ◌≡◌, List, [], ◌∷◌}
use rustyrouter.Prelude.Text.{same}
use rustyrouter.Suite.Base.{ipv4, unwrap, is_some_of, is_none}
use rustyrouter.Tests.Instances.{codec, encode_in, Message-discrete, decode_in, opt_of}

abbrev pub mock_server_ip : ℕ
mock_server_ip = ipv4 10 0 2 2

abbrev pub mock_client_ip : ℕ
mock_client_ip = ipv4 10 0 2 15

abbrev pub default_mask : ℕ
default_mask = ipv4 255 255 255 0

abbrev pub dns_ip_1 : ℕ
dns_ip_1 = ipv4 8 8 8 8

abbrev pub dns_ip_2 : ℕ
dns_ip_2 = ipv4 8 8 4 4

unfoldable pub is_ok_of : ℕ → Result ℕ → Bool
is_ok_of n (ok m) = m == n
is_ok_of n (err e) = false

abbrev pub is_err : Result ℕ → Bool
is_err (ok m) = false
is_err (err e) = true

unfoldable pub test_mask_to_prefix_len_valid : Bool
unfolding is_ok_of
test_mask_to_prefix_len_valid =
    is_ok_of 24 (mask_to_prefix_len (ipv4 255 255 255 0))
    && is_ok_of 32 (mask_to_prefix_len (ipv4 255 255 255 255))
    && is_ok_of 0 (mask_to_prefix_len (ipv4 0 0 0 0))

unfoldable pub test_mask_to_prefix_len_invalid : Bool
test_mask_to_prefix_len_invalid =
    is_err (mask_to_prefix_len (ipv4 255 255 255 10))
    && is_err (mask_to_prefix_len (ipv4 255 0 255 0))

module _ (d : Dhcproto) where
  abbrev pub encode_msg : d.Message → Option (List ℕ)
  encode_msg msg = d.encode msg

  abbrev pub offer_without_server : d.Message
  offer_without_server =
      d.set_yiaddr
        (d.insert_opt (d.set_xid d.default 0x12345678) (DhcpOption.message_type MessageType.offer))
        mock_client_ip

  abbrev pub valid_offer : d.Message
  valid_offer =
      d.set_yiaddr
        (d.insert_opt
          (d.insert_opt (d.set_xid d.default 0x12345678)
            (DhcpOption.message_type MessageType.offer))
          (DhcpOption.server_identifier mock_server_ip))
        mock_client_ip

  abbrev pub offer_of_another : d.Message
  offer_of_another =
      d.insert_opt (d.set_xid d.default 0x11111111) (DhcpOption.message_type MessageType.offer)

  abbrev pub valid_ack : d.Message
  valid_ack =
      let typed =
        d.insert_opt (d.set_xid d.default 0xabcdef) (DhcpOption.message_type MessageType.ack) in
      let masked = d.insert_opt typed (DhcpOption.subnet_mask default_mask) in
      let routed = d.insert_opt masked (DhcpOption.router (mock_server_ip ∷ [])) in
      let resolved =
        d.insert_opt routed (DhcpOption.domain_name_server (dns_ip_1 ∷ dns_ip_2 ∷ [])) in
      let timed = d.insert_opt resolved (DhcpOption.address_lease_time 1800) in
      d.set_yiaddr (d.insert_opt timed (DhcpOption.server_identifier mock_server_ip)) mock_client_ip

  abbrev pub a_nak : d.Message
  a_nak = d.insert_opt (d.set_xid d.default 0x9999) (DhcpOption.message_type MessageType.nak)

  unfoldable pub test_parse_offer_valid : Bool
  test_parse_offer_valid = unwrap (encode_msg valid_offer) (λ buf.
      unwrap (parse_offer d buf 0x12345678)
        (λ res. res.offered_ip == mock_client_ip && is_some_of mock_server_ip res.server_ip))

  unfoldable pub test_parse_offer_mismatched_xid : Bool
  test_parse_offer_mismatched_xid =
      unwrap (encode_msg offer_of_another) (λ buf. is_none (parse_offer d buf 0x22222222))

  unfoldable pub test_parse_offer_missing_server_id : Bool
  test_parse_offer_missing_server_id = unwrap (encode_msg offer_without_server) (λ buf.
      unwrap (parse_offer d buf 0x12345678)
        (λ res. res.offered_ip == mock_client_ip && is_none res.server_ip))

  abbrev expect_ack : ParseAckResult → (DhcpAck → Bool) → Bool
  expect_ack (ParseAckResult.ack a) f = f a
  expect_ack _ f = false

  abbrev is_nak : ParseAckResult → Bool
  is_nak ParseAckResult.nak = true
  is_nak _ = false

  unfoldable pub test_parse_ack_valid : Bool
  test_parse_ack_valid = unwrap (encode_msg valid_ack) (λ buf.
      expect_ack (parse_ack_nak d buf 0xabcdef) (λ a.
        a.ip == mock_client_ip
        && a.mask == default_mask
        && is_some_of mock_server_ip a.gateway
        && same a.dns_servers (dns_ip_1 ∷ dns_ip_2 ∷ [])
        && a.lease_secs == 1800
        && is_some_of mock_server_ip a.server_ip))

  unfoldable pub test_parse_nak : Bool
  test_parse_nak = unwrap (encode_msg a_nak) (λ buf. is_nak (parse_ack_nak d buf 0x9999))

  unfoldable pub test_parse_lease_options_missing_fields : Bool
  test_parse_lease_options_missing_fields =
      let opts =
        parse_lease_options d (d.insert_opt d.default (DhcpOption.message_type MessageType.ack)) in
      opts.mask == default_mask
      && is_none opts.gateway
      && same opts.dns_servers []
      && opts.lease_secs == default_lease_secs

-- A codec that knows the messages of the tests.
abbrev test_codec : Dhcproto
test_codec = codec (
    valid_offer (codec [])
    ∷ offer_without_server (codec [])
    ∷ offer_of_another (codec [])
    ∷ valid_ack (codec [])
    ∷ a_nak (codec [])
    ∷ [])

passes :
    (test_parse_offer_valid test_codec ≡ true)
    × (test_parse_offer_mismatched_xid test_codec ≡ true)
    × (test_parse_offer_missing_server_id test_codec ≡ true)
    × (test_parse_ack_valid test_codec ≡ true)
    × (test_parse_nak test_codec ≡ true)
    × (test_parse_lease_options_missing_fields test_codec ≡ true)
    × (test_mask_to_prefix_len_valid ≡ true)
    × (test_mask_to_prefix_len_invalid ≡ true)
unfolding test_parse_offer_valid test_parse_offer_mismatched_xid test_parse_offer_missing_server_id
    test_parse_ack_valid test_parse_nak test_parse_lease_options_missing_fields
    test_mask_to_prefix_len_valid test_mask_to_prefix_len_invalid encode_in Message-discrete
    ℕ_discrete parse_offer decode_in opt_of with_opt OptionCode-discrete is_some_of parse_ack_nak
    parse_lease_options same mask_to_prefix_len checked_prefix leading_ones trailing_zeros
passes = (refl, refl, refl, refl, refl, refl, refl, refl)
