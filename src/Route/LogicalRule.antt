-- ===== src/Route/LogicalRule.antt =====
-- The logical rules of route/rule_abstract.go and route/rule_headless.go, and the DNS rules of
-- route/rule_dns.go, over rules seen through the interfaces `HeadlessRule` and `DNSRule`.
pub mod Meaning
pub mod RuleSets
use sfa_provider.Prelude.{Bool, true, false, not, List, [], ◌∷◌, ◌||◌, is_empty, any, if◌then◌else◌}
use sfa_provider.Route.Context.{InboundContext, reset_rule_cache}
use sfa_provider.Route.Item.{RuleItem, match_any}
use sfa_provider.Route.DefaultRule.{DefaultRule, match_default, contains_destination_ip_cidr_rule}

-- adapter.HeadlessRule, as far as matching uses it.
pub record HeadlessRule : Type 0 where
  pub match : InboundContext → Bool × InboundContext
  pub contains_ip_cidr : Bool

pub data Mode : Type 0 where
  mode_and mode_or : Mode

pub record LogicalRule (R : Type 0) : Type 0 where
  pub invert : Bool
  pub mode : Mode
  pub rules : List R

-- `common.All` and `common.Any` over the sub-rules, each matched on a reset cache.
module _ {R : Type 0} (match : R → InboundContext → Bool × InboundContext) where
  unfoldable pub all_rules : List R → InboundContext → Bool × InboundContext
  all_rules [] m = (true, m)
  all_rules (rule ∷ rules) m =
      let (hit, m') = match rule (reset_rule_cache m) in
      if hit then all_rules rules m' else (false, m')

  unfoldable pub any_rules : List R → InboundContext → Bool × InboundContext
  any_rules [] m = (false, m)
  any_rules (rule ∷ rules) m =
      let (hit, m') = match rule (reset_rule_cache m) in
      if hit then (true, m') else any_rules rules m'

  -- `!=` on `bool`.
  abbrev pub differs : Bool × InboundContext → Bool → Bool × InboundContext
  differs (hit, m) invert = (if invert then not hit else hit, m)

  -- abstractLogicalRule.Match, and the two Match methods of LogicalDNSRule.
  unfoldable pub match_logical : LogicalRule R → InboundContext → Bool × InboundContext
  unfolding all_rules any_rules
  match_logical r m = elim r.mode [
    | mode_and ↦ differs (all_rules r.rules m) r.invert
    | mode_or ↦ differs (any_rules r.rules m) r.invert
  ]

abbrev pub headless_match : HeadlessRule → InboundContext → Bool × InboundContext
headless_match rule = rule.match

-- DefaultHeadlessRule.Match
unfoldable pub match_default_headless : DefaultRule → InboundContext → Bool × InboundContext
match_default_headless r m =
    if is_empty r.all_items
    then (true, m)
    else if m.dns_fall_back
    then match_any r.destination_ip_cidr_items m
    else if m.fake_ip_filter
    then match_any r.destination_address_items m
    else match_default r m

-- LogicalHeadlessRule.Match
unfoldable pub match_logical_headless :
    LogicalRule HeadlessRule → InboundContext → Bool × InboundContext
match_logical_headless r m =
    if m.dns_fall_back then (false, m) else match_logical headless_match r m

abbrev pub default_headless : DefaultRule → HeadlessRule
default_headless r = record {
  match = match_default_headless r;
  contains_ip_cidr = contains_destination_ip_cidr_rule r;
}

-- abstractLogicalRule.ContainsDestinationIPCIDRRule
abbrev pub logical_contains_ip_cidr : LogicalRule HeadlessRule → Bool
logical_contains_ip_cidr r = any (λ rule. rule.contains_ip_cidr) r.rules

abbrev pub logical_headless : LogicalRule HeadlessRule → HeadlessRule
logical_headless r = record {
  match = match_logical_headless r;
  contains_ip_cidr = logical_contains_ip_cidr r;
}

-- abstractRuleSet of route/rule_set_abstract.go.
pub record RuleSet : Type 0 where
  pub rules : List HeadlessRule
  pub contains_ip_cidr_rule : Bool

-- abstractRuleSet.Match: the rules run on one cache, which nothing resets in between.
unfoldable pub match_set : List HeadlessRule → InboundContext → Bool × InboundContext
match_set [] m = (false, m)
match_set (rule ∷ rules) m =
    let (hit, m') = rule.match m in if hit then (true, m') else match_set rules m'

-- The loop of RuleSetItem.Match.
unfoldable pub match_sets : List RuleSet → InboundContext → Bool × InboundContext
match_sets [] m = (false, m)
match_sets (set ∷ sets) m =
    let (hit, m') = match_set set.rules m in if hit then (true, m') else match_sets sets m'

-- A started RuleSetItem of route/rule_item_rule_set.go.
unfoldable pub rule_set_item : Bool → Bool → List RuleSet → RuleItem
unfolding match_sets match_set
rule_set_item match_source accept_empty sets = record {
  is_rule_set = true;
  matches = λ m.
      match_sets sets
        (record m { ip_cidr_match_source = match_source; ip_cidr_accept_empty = accept_empty });
  contains_ip_cidr = if match_source then false else any (λ set. set.contains_ip_cidr_rule) sets;
}
