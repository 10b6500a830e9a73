-- ===== src/Route/Tests.antt =====
-- Rules at concrete connections.
use sfa_provider.Prelude.{
  String, Option, none, some, Bool, true, false, List, [], ◌∷◌, ◌≡◌, refl, if◌then◌else◌, ◌==◌,
  string_key,
}
use sfa_provider.FakeIp.Addr.{unset, ipv4, addr_beq}
use sfa_provider.Route.Context.{InboundContext, no_flags, with_flags, reset_rule_cache}
use sfa_provider.Route.Item.{RuleItem, match_any, match_all}
use sfa_provider.Route.Items.{
  network_item, port_item, network-Plain, port-Plain, ip_cidr_item, ip_cidr-Plain,
}
use sfa_provider.Route.DefaultRule.{
  DefaultRule, match_default, try_group, try_groups, try_source_address, try_source_port,
  try_destination_address, try_destination_ip_cidr, try_destination_port, conclude,
}
use sfa_provider.Route.DefaultRule.Meaning.{PlainRule}
use sfa_provider.Route.DefaultRule.Matching.{meaning, match_default_lem}
use sfa_provider.Route.LogicalRule.{
  LogicalRule, mode_or, match_logical, match_set, match_default_headless, default_headless,
}
use sfa_provider.Route.LogicalRule.Meaning.{formula, match_logical_lem, default-Keeps}
use sfa_provider.Route.LogicalRule.RuleSets.{port_rule, rule_set_leaks}
use sfa_provider.Route.DnsRule.{
  set_ignore, match_default_dns, match_address_limit, FallbackRule, match_fallback,
}
use sfa_provider.Route.DnsRule.Stages.{dns_stages, match_fallback_lem}
use sfa_provider.Route.Router.{Rule, match0, choose, step, visit, resolve_for}
use sfa_provider.Route.Router.Choice.{match0_lem, first_route, named}

abbrev connection : InboundContext
connection = record {
  inbound = "tun-in";
  ip_version = 4;
  network = "tcp";
  source = record { addr = ipv4 3232235777; port = 40000; fqdn = "" };
  destination = record { addr = ipv4 134744072; port = 443; fqdn = "" };
  user = "";
  outbound = "";
  protocol = "tls";
  sniff_host = "";
  client = "";
  dns_mode = "";
  domain = "";
  destination_addresses = [];
  source_geoip_code = "";
  geoip_code = "";
  process_info = none;
  query_type = 0;
  ip_cidr_match_source = false;
  ip_cidr_accept_empty = false;
  flags = no_flags;
  ignore_destination_ip_cidr_match = false;
  is_resolved = false;
  dns_fall_back = false;
  fake_ip_filter = false;
}

abbrev tcp : RuleItem
tcp = network_item ("tcp" ∷ [])

-- tcp to port 80 or 443
abbrev web : DefaultRule
web = record (port_rule [] (port_item false (80 ∷ 443 ∷ []) ∷ [])) {
  items = tcp ∷ [];
  all_items = tcp ∷ port_item false (80 ∷ 443 ∷ []) ∷ [];
}

web-PlainRule : PlainRule web
web-PlainRule = record {
  items = (network-Plain _, tt);
  source_address = tt;
  source_port = tt;
  destination_address = tt;
  ip_cidr = tt;
  destination_port = (port-Plain _ _, tt);
}

-- anything to port 53
abbrev domain_service : DefaultRule
domain_service = port_rule [] (port_item false (53 ∷ []) ∷ [])

domain_service-PlainRule : PlainRule domain_service
domain_service-PlainRule = record {
  items = tt;
  source_address = tt;
  source_port = tt;
  destination_address = tt;
  ip_cidr = tt;
  destination_port = (port-Plain _ _, tt);
}

match_default_lem_example :
    (match_default web (with_flags no_flags connection)).0 ≡ meaning web connection
match_default_lem_example = match_default_lem web connection web-PlainRule

web_matches : (match_default web (with_flags no_flags connection)).0 ≡ true
unfolding match_default match_all match_any try_groups try_group try_source_address try_source_port
    try_destination_address try_destination_ip_cidr try_destination_port conclude port_item
    network_item
web_matches = refl

-- Either of the two, and not.
abbrev neither : LogicalRule DefaultRule
neither = record { invert = true; mode = mode_or; rules = domain_service ∷ web ∷ [] }

match_logical_lem_example :
    ((match_logical match_default neither connection).0 ≡ formula match_default neither connection)
    × (reset_rule_cache (match_logical match_default neither connection).1
        ≡ reset_rule_cache connection)
match_logical_lem_example =
    match_logical_lem match_default neither connection
      (default-Keeps domain_service domain_service-PlainRule, (default-Keeps web web-PlainRule, tt))

rule_set_leaks_example :
    let first = port_rule (port_item true (40000 ∷ []) ∷ []) (port_item false (80 ∷ []) ∷ []) in
    let second = port_rule (port_item true (50000 ∷ []) ∷ []) [] in
    ((match_default_headless first (with_flags no_flags connection)).0 ≡ false)
    × ((match_default_headless second (with_flags no_flags connection)).0 ≡ false)
    × ((match_set
          (default_headless first ∷ default_headless second ∷ [])
          (with_flags no_flags connection)).0
        ≡ true)
unfolding port_item
rule_set_leaks_example =
    rule_set_leaks connection refl refl (port_item true (40000 ∷ [])) (port_item false (80 ∷ []))
      (port_item true (50000 ∷ [])) (port-Plain true (40000 ∷ [])) (port-Plain false (80 ∷ []))
      (port-Plain true (50000 ∷ [])) refl refl refl

abbrev rule_to : String → Bool → DefaultRule → Rule
rule_to tag disabled r = record {
  disabled = disabled;
  skip_resolve = false;
  contains_ip_cidr = true;
  outbound = tag;
  match = match_default r;
}

abbrev rules : List Rule
rules =
    rule_to "dns" false domain_service
    ∷ rule_to "off" true web
    ∷ rule_to "gone" false web
    ∷ rule_to "proxy" false web
    ∷ []

-- The outbounds are their tags, and "gone" is not there.
abbrev outbounds : String → Option String
outbounds tag = if tag == "gone" then none else some tag

match0_lem_example :
    let r = match0 (λ m. none) outbounds rules (λ o m. false) "direct" connection in
    ((r.0, r.1)
      ≡ named (λ m. none) outbounds (first_route (λ m. none) outbounds rules connection) "direct")
    × (reset_rule_cache r.2 ≡ reset_rule_cache connection)
match0_lem_example =
    match0_lem (λ m. none) outbounds rules (λ o m. false) "direct" connection refl
      (
        default-Keeps domain_service domain_service-PlainRule,
        (
          default-Keeps web web-PlainRule,
          (default-Keeps web web-PlainRule, (default-Keeps web web-PlainRule, tt)),
        ),
      )

third_rule_routes :
    (match0 (λ m. none) outbounds rules (λ o m. false) "direct" connection).1 ≡ "proxy"
unfolding match0 choose step visit resolve_for match_default match_all match_any try_groups
    try_group try_source_address try_source_port try_destination_address try_destination_ip_cidr
    try_destination_port conclude port_item network_item
third_rule_routes = refl

-- A DNS rule on the answer's addresses: tcp, and 8.8.8.8.
abbrev answer_item : RuleItem
answer_item = ip_cidr_item false (λ a. addr_beq a (ipv4 134744072))

abbrev answer_rule : DefaultRule
answer_rule = record web {
  destination_port_items = [];
  destination_ip_cidr_items = answer_item ∷ [];
  all_items = tcp ∷ answer_item ∷ [];
}

answer_rule-PlainRule : PlainRule answer_rule
answer_rule-PlainRule = record {
  items = (network-Plain ("tcp" ∷ []), tt);
  source_address = tt;
  source_port = tt;
  destination_address = tt;
  ip_cidr = (ip_cidr-Plain false (λ a. addr_beq a (ipv4 134744072)), tt);
  destination_port = tt;
}

-- An answer with the address 1.1.1.1.
abbrev answered : InboundContext
answered = record connection {
  destination = record { addr = unset 0; port = 443; fqdn = "dns.google" };
  destination_addresses = ipv4 16843009 ∷ [];
}

dns_stages_example :
    ((match_default_dns answer_rule (with_flags no_flags answered)).0
      ≡ meaning answer_rule (set_ignore true answered))
    × ((match_address_limit answer_rule (with_flags no_flags answered)).0
        ≡ meaning answer_rule answered)
    × ((match_default_dns answer_rule
          (with_flags no_flags answered)).1.ignore_destination_ip_cidr_match
        ≡ false)
dns_stages_example = dns_stages answer_rule answered answer_rule-PlainRule

-- The rule holds for the query, but not for that answer.
stages_differ :
    (meaning answer_rule (set_ignore true answered) ≡ true) × (meaning answer_rule answered ≡ false)
unfolding ip_cidr_item network_item
stages_differ = (refl, refl)

abbrev fallback : FallbackRule
fallback = record {
  accept_result = false;
  match_all = false;
  items = tcp ∷ [];
  destination_address_items = answer_item ∷ [];
  invert = true;
}

match_fallback_lem_example : match_fallback fallback answered ≡ (true, answered)
unfolding ip_cidr_item network_item
match_fallback_lem_example =
    match_fallback_lem fallback answered (network-Plain ("tcp" ∷ []), tt)
      (ip_cidr-Plain false (λ a. addr_beq a (ipv4 134744072)), tt)
