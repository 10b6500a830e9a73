-- ===== src/Route/DnsRule.antt =====
-- The DNS rules and their fallback rules (route/rule_dns.go). A DNS rule matches twice: Match before
-- the query, where the conditions on the addresses of the answer do not count, and
-- MatchAddressLimit on the answer.
pub mod Stages
use sfa_provider.Prelude.{
  Bool, true, false, not, List, [], ◌∷◌, ◌&&◌, ◌||◌, is_empty, any, if◌then◌else◌,
}
use sfa_provider.Route.Context.{InboundContext}
use sfa_provider.Route.Item.{RuleItem, match_any}
use sfa_provider.Route.DefaultRule.{DefaultRule, match_default}
use sfa_provider.Route.LogicalRule.{LogicalRule, match_logical}

abbrev pub set_ignore : Bool → InboundContext → InboundContext
set_ignore b m = record m { ignore_destination_ip_cidr_match = b }

-- DefaultDNSRule.Match, with its deferred function.
unfoldable pub match_default_dns : DefaultRule → InboundContext → Bool × InboundContext
match_default_dns r m =
    let (hit, m') = match_default r (set_ignore true m) in (hit, set_ignore false m')

-- DefaultDNSRule.MatchAddressLimit
unfoldable pub match_address_limit : DefaultRule → InboundContext → Bool × InboundContext
match_address_limit r m = match_default r m

-- DefaultDNSRule.WithAddressLimit
unfoldable pub default_with_address_limit : DefaultRule → Bool
default_with_address_limit r =
    not (is_empty r.destination_ip_cidr_items)
    || any (λ item. item.is_rule_set && item.contains_ip_cidr) r.items

-- adapter.DNSRule, as far as a logical rule uses it.
pub record DnsRule : Type 0 where
  pub match : InboundContext → Bool × InboundContext
  pub match_limit : InboundContext → Bool × InboundContext
  pub with_address_limit : Bool

abbrev pub default_dns : DefaultRule → DnsRule
default_dns r = record {
  match = match_default_dns r;
  match_limit = match_address_limit r;
  with_address_limit = default_with_address_limit r;
}

-- LogicalDNSRule: the methods Match, MatchAddressLimit and WithAddressLimit.
abbrev pub logical_dns : LogicalRule DnsRule → DnsRule
logical_dns r = record {
  match = match_logical (λ rule. rule.match) r;
  match_limit = match_logical (λ rule. rule.match_limit) r;
  with_address_limit = any (λ rule. rule.with_address_limit) r.rules;
}

pub record FallbackRule : Type 0 where
  pub accept_result : Bool
  pub match_all : Bool
  pub items : List RuleItem
  pub destination_address_items : List RuleItem
  pub invert : Bool

-- The first loop of FallbackRule.Match: whether no condition fails.
unfoldable pub match_every : List RuleItem → InboundContext → Bool × InboundContext
match_every [] m = (true, m)
match_every (item ∷ items) m =
    let (hit, m') = item.matches m in if hit then match_every items m' else (false, m')

-- FallbackRule.Match
unfoldable pub match_fallback : FallbackRule → InboundContext → Bool × InboundContext
unfolding match_every
match_fallback r m =
    if r.match_all
    then (true, m)
    else (let (passed, m') = match_every r.items m in
        if passed
        then (let (hit, m'') = match_any r.destination_address_items m' in
            (if hit then not r.invert else r.invert, m''))
        else (r.invert, m'))
