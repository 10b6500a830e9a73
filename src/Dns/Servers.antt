-- ===== src/Dns/Servers.antt =====
-- What the DNS router of route/router_dns.go works with: the transports, the rules with the
-- server and the options of each (adapter.DNSRule, adapter.FallbackRule), and the options that it
-- sets on a query's context. A transport is seen through its tag and the type tests made on it.
use sfa_provider.Prelude.{
  ℕ, String, Option, none, some, Bool, true, false, not, List, [], ◌||◌, if◌then◌else◌,
}
use sfa_provider.FakeIp.Addr.{Prefix, unset}
use sfa_provider.FakeIp.Transport.{Strategy}
use sfa_provider.Route.Context.{InboundContext, no_flags}
use sfa_provider.Route.DnsRule.{DnsRule, FallbackRule}

-- The values that dns.ContextWithDisableCache, ContextWithRewriteTTL and ContextWithClientSubnet
-- leave in the context; a rule asks for them by the same fields.
pub record QueryOptions : Type 0 where
  pub disable_cache : Bool
  pub rewrite_ttl : Option ℕ
  pub client_subnet : Option Prefix

-- *dns.RCodeTransport, adapter.FakeIPTransport and any other. A fake-IP transport may have a
-- store with an exclude rule.
pub data TransportKind : Type 0 where
  plain : TransportKind
  rcode : TransportKind
  fake_ip : Option (InboundContext → Bool) → TransportKind

pub record Transport : Type 0 where
  pub tag : String
  pub kind : TransportKind

abbrev pub is_rcode : TransportKind → Bool
is_rcode rcode = true
is_rcode plain = false
is_rcode (fake_ip exclude) = false

abbrev pub is_fake_ip : TransportKind → Bool
is_fake_ip (fake_ip exclude) = true
is_fake_ip plain = false
is_fake_ip rcode = false

-- adapter.FallbackRule
pub record FallbackEntry : Type 0 where
  pub rule : FallbackRule
  pub outbound : String
  pub options : QueryOptions

-- adapter.DNSRule
pub record DnsEntry : Type 0 where
  pub rule : DnsRule
  pub disabled : Bool
  pub outbound : String
  pub options : QueryOptions
  pub allow_fallthrough : Bool
  pub fallback_rules : List FallbackEntry

-- The fields of Router that matchDNS reads.
pub record Servers : Type 0 where
  pub transport_map : String → Option Transport
  pub transport_domain_strategy : Transport → Option Strategy
  pub default_transport : Transport
  pub default_domain_strategy : Strategy

-- InboundContext{}
abbrev pub new_context : InboundContext
new_context = record {
  inbound = "";
  ip_version = 0;
  network = "";
  source = record { addr = unset 0; port = 0; fqdn = "" };
  destination = record { addr = unset 0; port = 0; fqdn = "" };
  user = "";
  outbound = "";
  protocol = "";
  sniff_host = "";
  client = "";
  dns_mode = "";
  domain = "";
  destination_addresses = [];
  source_geoip_code = "";
  geoip_code = "";
  process_info = none;
  query_type = 0;
  ip_cidr_match_source = false;
  ip_cidr_accept_empty = false;
  flags = no_flags;
  ignore_destination_ip_cidr_match = false;
  is_resolved = false;
  dns_fall_back = false;
  fake_ip_filter = false;
}

-- `isFakeIP && (!allowFakeIP || ... ExcludeRule().Match(...))`
abbrev pub refused : Bool → String → TransportKind → Bool
refused allow_fake_ip domain plain = false
refused allow_fake_ip domain rcode = false
refused allow_fake_ip domain (fake_ip none) = not allow_fake_ip
refused allow_fake_ip domain (fake_ip (some exclude)) =
    not allow_fake_ip || exclude (record new_context { domain = domain; fake_ip_filter = true })

-- The options of a rule, over those that the context has.
unfoldable pub with_options : Bool → QueryOptions → QueryOptions → QueryOptions
with_options fake asked base = record {
  disable_cache = fake || asked.disable_cache || base.disable_cache;
  rewrite_ttl = elim asked.rewrite_ttl [
    | some ttl ↦ some ttl
    | none ↦ if fake then some 1 else base.rewrite_ttl
  ];
  client_subnet = elim asked.client_subnet [
    | some subnet ↦ some subnet
    | none ↦ base.client_subnet
  ];
}

-- The strategy of a transport.
abbrev pub strategy_of : Servers → Transport → Strategy
strategy_of servers transport = elim (servers.transport_domain_strategy transport) [
  | some strategy ↦ strategy
  | none ↦ servers.default_domain_strategy
]
