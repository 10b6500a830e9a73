-- ===== src/Route/DnsRule/Stages.antt =====
-- The two stages of a DNS rule and the formula of a fallback rule (route/rule_dns.go).
use sfa_provider.Prelude.{
  Bool, true, false, not, List, [], ◌∷◌, ◌&&◌, ◌≡◌, refl, any, all, All, if◌then◌else◌, arith,
}
use sfa_provider.Route.Context.{InboundContext, no_flags, with_flags}
use sfa_provider.Route.Item.{RuleItem, Plain, test, match_any_lem}
use sfa_provider.Route.DefaultRule.{DefaultRule}
use sfa_provider.Route.DefaultRule.Meaning.{PlainRule}
use sfa_provider.Route.DefaultRule.Matching.{meaning, match_default_lem}
use sfa_provider.Route.DnsRule.{
  set_ignore, match_default_dns, match_address_limit, FallbackRule, match_every, match_fallback,
}

-- From a reset cache and for plain conditions, Match answers by the meaning of the rule where the
-- conditions on the addresses of the answer do not count, MatchAddressLimit by the meaning where
-- the metadata decides whether they do, and Match leaves them to count.
pub dns_stages :
    (r : DefaultRule) (m : InboundContext)
    → PlainRule r
    → ((match_default_dns r (with_flags no_flags m)).0 ≡ meaning r (set_ignore true m))
      × ((match_address_limit r (with_flags no_flags m)).0 ≡ meaning r m)
      × ((match_default_dns r (with_flags no_flags m)).1.ignore_destination_ip_cidr_match ≡ false)
unfolding match_default_dns match_address_limit
dns_stages r m p = (match_default_lem r (set_ignore true m) p, match_default_lem r m p, refl)

match_every_lem :
    (items : List RuleItem) (m : InboundContext)
    → All Plain items
    → match_every items m ≡ (all (test m) items, m)
unfolding match_every
match_every_lem [] m p = refl
match_every_lem (item ∷ items) m p =
    let s = p.0.steady m in ground (arith, s, match_every_lem items m p.1)

-- The formula of a fallback rule.
abbrev pub fallback_formula : FallbackRule → InboundContext → Bool
fallback_formula r m =
    if r.match_all
    then true
    else if all (test m) r.items && any (test m) r.destination_address_items
    then not r.invert
    else r.invert

-- A fallback rule of plain conditions answers by its formula, and changes nothing.
pub match_fallback_lem :
    (r : FallbackRule) (m : InboundContext)
    → All Plain r.items
    → All Plain r.destination_address_items
    → match_fallback r m ≡ (fallback_formula r m, m)
unfolding match_fallback
match_fallback_lem r m p q =
    let e = match_every_lem r.items m p in
    let f = match_any_lem r.destination_address_items m m.flags q in ground (arith, e, f)
