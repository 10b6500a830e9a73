-- ===== src/Route/Items.antt =====
-- Conditions of route/rule_item_*.go that read the connection alone. Go's sets of configured
-- values are lists, asked by `any`. The matchers of domains, addresses and patterns come from
-- libraries, and stand as functions.
pub mod Host
use sfa_provider.Prelude.{
  ℕ, String, Bool, false, not, List, ◌&&◌, ◌||◌, ◌==◌, ◌≡◌, refl, any, is_empty, leb, if◌then◌else◌,
  string_key, ℕ_key,
}
use sfa_provider.FakeIp.Addr.{Addr, is_valid, is4}
use sfa_provider.Route.Context.{InboundContext, Socksaddr, MatchFlags, with_flags}
use sfa_provider.Route.Item.{RuleItem, Plain}

-- A condition that writes nothing.
abbrev pub reading : (InboundContext → Bool) → RuleItem
reading f = record { is_rule_set = false; matches = λ m. (f m, m); contains_ip_cidr = false }

abbrev pub one_of : List String → String → Bool
one_of values value = any (λ v. v == value) values

-- Socksaddr.IsIP and Socksaddr.IsFqdn
abbrev pub is_ip : Socksaddr → Bool
is_ip s = is_valid s.addr

abbrev pub is_fqdn : Socksaddr → Bool
is_fqdn s = not (s.fqdn == "")

unfoldable pub network_item : List String → RuleItem
network_item networks = reading (λ m. one_of networks m.network)

unfoldable pub inbound_item : List String → RuleItem
inbound_item inbounds = reading (λ m. one_of inbounds m.inbound)

unfoldable pub auth_user_item : List String → RuleItem
auth_user_item users = reading (λ m. one_of users m.user)

unfoldable pub protocol_item : List String → RuleItem
protocol_item protocols = reading (λ m. one_of protocols m.protocol)

unfoldable pub client_item : List String → RuleItem
client_item clients = reading (λ m. one_of clients m.client)

-- OutboundItem: "any" stands for every outbound that is named.
unfoldable pub outbound_item : List String → RuleItem
outbound_item outbounds = reading (λ m.
    (one_of outbounds "any" && not (m.outbound == ""))
    || any (λ v. not (v == "any") && v == m.outbound) outbounds)

unfoldable pub query_type_item : List ℕ → RuleItem
query_type_item types =
    reading (λ m. if m.query_type == 0 then false else any (λ v. v == m.query_type) types)

-- DNSMode == "fakeip"
unfoldable pub fake_ip_item : RuleItem
fake_ip_item = reading (λ m. m.dns_mode == "fakeip")

abbrev pub same : Bool → Bool → Bool
same a b = if a then b else not b

abbrev pub is_ipv6 : Socksaddr → Bool
is_ipv6 s = is_valid s.addr && not (is4 s.addr)

unfoldable pub ip_version_item : Bool → RuleItem
ip_version_item v6 = reading (λ m.
    (not (m.ip_version == 0) && same (m.ip_version == 6) v6)
    || (is_ip m.destination && same (is_ipv6 m.destination) v6))

abbrev pub port_of : Bool → InboundContext → ℕ
port_of is_source m = if is_source then m.source.port else m.destination.port

unfoldable pub port_item : Bool → List ℕ → RuleItem
port_item is_source ports = reading (λ m. any (λ p. p == port_of is_source m) ports)

pub record RangeItem : Type 0 where
  pub start : ℕ
  pub end : ℕ

unfoldable pub port_range_item : Bool → List RangeItem → RuleItem
port_range_item is_source ranges =
    reading
      (λ m. any (λ r. leb r.start (port_of is_source m) && leb (port_of is_source m) r.end) ranges)

-- The domain that DomainItem, DomainKeywordItem and DomainRegexItem look at.
abbrev pub domain_host : InboundContext → String
domain_host m =
    if is_fqdn m.destination
    then m.destination.fqdn
    else if not (m.sniff_host == "")
    then m.sniff_host
    else m.domain

-- `to_lower` is strings.ToLower.
module _ (to_lower : String → String) where
  -- `matcher` is Match of sing's domain.Matcher.
  unfoldable pub domain_item : (String → Bool) → RuleItem
  domain_item matcher =
      reading (λ m. if domain_host m == "" then false else matcher (to_lower (domain_host m)))

  -- `contains` is strings.Contains.
  unfoldable pub domain_keyword_item : (String → String → Bool) → List String → RuleItem
  domain_keyword_item contains keywords = reading (λ m.
      if domain_host m == ""
      then false
      else any (λ keyword. contains (to_lower (domain_host m)) keyword) keywords)

  -- A matcher is MatchString of a compiled expression.
  unfoldable pub domain_regex_item : List (String → Bool) → RuleItem
  domain_regex_item matchers = reading (λ m.
      if domain_host m == ""
      then false
      else any (λ matcher. matcher (to_lower (domain_host m))) matchers)

  unfoldable pub adguard_item : (String → Bool) → RuleItem
  adguard_item matcher = reading (λ m.
      let host = if not (m.domain == "") then m.domain else m.destination.fqdn in
      if host == "" then false else matcher (to_lower host))

-- `contains` is Contains of the item's netipx.IPSet.
unfoldable pub ip_cidr_item : Bool → (Addr → Bool) → RuleItem
ip_cidr_item is_source contains = reading (λ m.
    if is_source || m.ip_cidr_match_source
    then contains m.source.addr
    else if is_ip m.destination
    then contains m.destination.addr
    else if not (is_empty m.destination_addresses)
    then any contains m.destination_addresses
    else m.ip_cidr_accept_empty)

-- `is_public` is IsPublicAddr of sing's network package.
unfoldable pub ip_is_private_item : Bool → (Addr → Bool) → RuleItem
ip_is_private_item is_source is_public = reading (λ m.
    let destination = if is_source then m.source.addr else m.destination.addr in
    if is_valid destination
    then not (is_public destination)
    else if is_source
    then false
    else any (λ a. not (is_public a)) m.destination_addresses)

-- A condition that writes nothing and does not read the flags is plain.
pub reading-Plain :
    (f : InboundContext → Bool)
    → ((m : InboundContext) (g : MatchFlags) → f (with_flags g m) ≡ f m)
    → Plain (reading f)
reading-Plain f h = record { no_rule_set = refl; steady = λ m. refl; flagless = h }

pub network-Plain : (networks : List String) → Plain (network_item networks)
unfolding network_item
network-Plain networks = reading-Plain _ (λ m g. refl)

pub port-Plain : (is_source : Bool) (ports : List ℕ) → Plain (port_item is_source ports)
unfolding port_item
port-Plain is_source ports = reading-Plain _ (λ m g. refl)

pub port_range-Plain :
    (is_source : Bool) (ranges : List RangeItem) → Plain (port_range_item is_source ranges)
unfolding port_range_item
port_range-Plain is_source ranges = reading-Plain _ (λ m g. refl)

pub ip_cidr-Plain :
    (is_source : Bool) (contains : Addr → Bool) → Plain (ip_cidr_item is_source contains)
unfolding ip_cidr_item
ip_cidr-Plain is_source contains = reading-Plain _ (λ m g. refl)

pub domain-Plain :
    (to_lower : String → String) (matcher : String → Bool) → Plain (domain_item to_lower matcher)
unfolding domain_item
domain-Plain to_lower matcher = reading-Plain _ (λ m g. refl)
