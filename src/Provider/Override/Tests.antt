-- ===== src/Provider/Override/Tests.antt =====
-- What newParser makes of a subscription of two outbounds (provider/parser.go).
use sfa_provider.Prelude.{String, none, some, true, false, List, [], ◌∷◌, ok, ◌≡◌, refl}
use sfa_provider.Provider.{DialerOptions, Options}
use sfa_provider.Provider.Override.{
  OverrideDialerOptions, OutboundOverride, override_dialer_option, tags_of, new_parser,
}
use sfa_provider.Provider.Override.Detours.{all_resolve, detours_resolve}

abbrev dialer : String → DialerOptions
dialer detour = record {
  detour = detour;
  bind_interface = "";
  inet4_bind_address = none;
  inet6_bind_address = none;
  server_addresses = [];
  protect_path = "";
  routing_mark = 0;
  reuse_addr = false;
  connect_timeout = 0;
  tcp_fast_open = false;
  tcp_multi_path = false;
  udp_fragment = some true;
  udp_fragment_default = false;
  domain_strategy = "ipv4_only";
  fallback_delay = 0;
  store_last_ip = false;
  is_wire_guard_listener = false;
}

abbrev relay : String → String → Options
relay tag detour = record {
  tag = tag;
  type_name = "trojan";
  port = 443;
  dialer = dialer detour;
  body = "server";
}

-- The second outbound is reached through the first, the third through one that is not there.
abbrev subscription : List Options
subscription = relay "a" "" ∷ relay "b" "a" ∷ relay "c" "gone" ∷ []

abbrev nothing : OverrideDialerOptions
nothing = record {
  detour = none;
  bind_interface = none;
  inet4_bind_address = none;
  inet6_bind_address = none;
  protect_path = none;
  routing_mark = none;
  reuse_addr = none;
  connect_timeout = none;
  tcp_fast_open = none;
  tcp_multi_path = none;
  udp_fragment = none;
  domain_strategy = none;
  fallback_delay = none;
  store_last_ip = none;
}

abbrev marked : OutboundOverride
marked = record {
  tag_prefix = "";
  tag_suffix = "";
  dialer = some (record nothing { routing_mark = some 7 });
}

abbrev mark : DialerOptions → DialerOptions
mark d = record d { routing_mark = 7 }

abbrev marked_outbounds : List Options
marked_outbounds =
    record (relay "a" "") { dialer = mark (dialer "") }
    ∷ record (relay "b" "a") { dialer = mark (dialer "a") }
    ∷ record (relay "c" "") { dialer = mark (dialer "") }
    ∷ []

parse_marked : new_parser (λ content. ok subscription) (some marked) "links" ≡ ok marked_outbounds
unfolding new_parser override_dialer_option
parse_marked = refl

detours_resolve_example : all_resolve (tags_of marked_outbounds) marked_outbounds ≡ true
detours_resolve_example =
    detours_resolve (λ content. ok subscription) (some marked) "links" marked_outbounds refl
      parse_marked

-- With a prefix the first outbound is "x-a", but the detour of the second stays "a".
prefix_breaks_detour :
    new_parser
      (λ content. ok (relay "a" "" ∷ relay "b" "a" ∷ []))
      (some record { tag_prefix = "x-"; tag_suffix = ""; dialer = none })
      "links"
    ≡ ok (relay "x-a" "" ∷ relay "x-b" "a" ∷ [])
unfolding new_parser override_dialer_option
prefix_breaks_detour = refl

abbrev other_strategy : OutboundOverride
other_strategy = record {
  tag_prefix = "";
  tag_suffix = "";
  dialer = some (record nothing { domain_strategy = some "prefer_ipv6" });
}

-- A domain strategy in the override changes the fragments of UDP instead.
strategy_drops_fragment :
    override_dialer_option (some other_strategy) [] (dialer "")
    ≡ record (dialer "") { udp_fragment = none }
unfolding override_dialer_option
strategy_drops_fragment = refl
