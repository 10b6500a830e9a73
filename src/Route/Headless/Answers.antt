-- ===== src/Route/Headless/Answers.antt =====
-- The answers of the rules that NewDefaultHeadlessRule of route/rule_headless.go builds.
use sfa_provider.Prelude.{Bool, true, not, ◌&&◌, is_empty, any, if◌then◌else◌}
use sfa_provider.Route.Context.{InboundContext}
use sfa_provider.Route.Item.{test}
use sfa_provider.Route.DefaultRule.{DefaultRule}
use sfa_provider.Route.DefaultRule.Matching.{has_conditions, conditions_hold}

-- The formula of a rule: its conditions hold, or they do not if it is inverted; and a rule of which
-- no condition counts holds.
abbrev pub default_formula : DefaultRule → InboundContext → Bool
default_formula r m =
    if has_conditions r m then (if conditions_hold r m then not r.invert else r.invert) else true

abbrev pub has_no_condition : DefaultRule → Bool
has_no_condition r =
    is_empty r.items
    && is_empty r.source_address_items
    && is_empty r.source_port_items
    && is_empty r.destination_address_items
    && is_empty r.destination_ip_cidr_items
    && is_empty r.destination_port_items

-- The answer of a rule with these groups: in the check for a DNS fallback only its IP ranges count,
-- and in the check for fake IPs only its domains.
abbrev pub default_answer : DefaultRule → InboundContext → Bool
default_answer r m =
    if has_no_condition r
    then true
    else if m.dns_fall_back
    then any (test m) r.destination_ip_cidr_items
    else if m.fake_ip_filter
    then any (test m) r.destination_address_items
    else default_formula r m
