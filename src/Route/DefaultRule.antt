-- ===== src/Route/DefaultRule.antt =====
-- The default rule of route/rule_abstract.go. A rule's lists are those of `abstractDefaultRule`.
pub mod Meaning
pub mod Matching
use sfa_provider.Prelude.{Bool, true, false, not, List, ◌&&◌, ◌||◌, is_empty, any, if◌then◌else◌}
use sfa_provider.Route.Context.{
  InboundContext, set_did_match, set_source_address, set_source_port, set_destination_address,
  set_destination_port,
}
use sfa_provider.Route.Item.{RuleItem, match_any, match_all}

pub record DefaultRule : Type 0 where
  pub invert : Bool
  pub items : List RuleItem
  pub source_address_items : List RuleItem
  pub source_port_items : List RuleItem
  pub destination_address_items : List RuleItem
  pub destination_ip_cidr_items : List RuleItem
  pub destination_port_items : List RuleItem
  pub all_items : List RuleItem
  pub rule_set_items : List RuleItem

-- ContainsDestinationIPCIDRRule
unfoldable pub contains_destination_ip_cidr_rule : DefaultRule → Bool
contains_destination_ip_cidr_rule r =
    not (is_empty r.destination_ip_cidr_items) || any (λ it. it.contains_ip_cidr) r.rule_set_items

-- One of the five blocks that try a list of items: `active` is its test, `found` the flag that it
-- sets.
unfoldable pub try_group :
    Bool → (InboundContext → InboundContext) → List RuleItem → InboundContext → InboundContext
try_group active found items m =
    if active
    then (let (hit, m') = match_any items (set_did_match m) in if hit then found m' else m')
    else m

unfoldable pub try_source_address : DefaultRule → InboundContext → InboundContext
try_source_address r m =
    try_group (not (is_empty r.source_address_items) && not m.source_address_match)
      set_source_address r.source_address_items m

unfoldable pub try_source_port : DefaultRule → InboundContext → InboundContext
try_source_port r m =
    try_group (not (is_empty r.source_port_items) && not m.source_port_match) set_source_port
      r.source_port_items m

unfoldable pub try_destination_address : DefaultRule → InboundContext → InboundContext
try_destination_address r m =
    try_group (not (is_empty r.destination_address_items) && not m.destination_address_match)
      set_destination_address r.destination_address_items m

unfoldable pub try_destination_ip_cidr : DefaultRule → InboundContext → InboundContext
try_destination_ip_cidr r m =
    try_group
      (not m.ignore_destination_ip_cidr_match
        && not (is_empty r.destination_ip_cidr_items)
        && not m.destination_address_match)
      set_destination_address r.destination_ip_cidr_items m

unfoldable pub try_destination_port : DefaultRule → InboundContext → InboundContext
try_destination_port r m =
    try_group (not (is_empty r.destination_port_items) && not m.destination_port_match)
      set_destination_port r.destination_port_items m

-- The five blocks, in the order of the source.
unfoldable pub try_groups : DefaultRule → InboundContext → InboundContext
try_groups r m = try_destination_port r (
    try_destination_ip_cidr r
      (try_destination_address r (try_source_port r (try_source_address r m))))

-- The tests after the loop over `items`.
unfoldable pub conclude : DefaultRule → InboundContext → Bool
conclude r m =
    if not (is_empty r.source_address_items) && not m.source_address_match
    then r.invert
    else if not (is_empty r.source_port_items) && not m.source_port_match
    then r.invert
    else if ((not m.ignore_destination_ip_cidr_match && not (is_empty r.destination_ip_cidr_items))
          || not (is_empty r.destination_address_items))
        && not m.destination_address_match
    then r.invert
    else if not (is_empty r.destination_port_items) && not m.destination_port_match
    then r.invert
    else if not m.did_match
    then true
    else not r.invert

-- abstractDefaultRule.Match
unfoldable pub match_default : DefaultRule → InboundContext → Bool × InboundContext
match_default r m =
    if is_empty r.all_items
    then (true, m)
    else (let (passed, m') = match_all r.items (try_groups r m) in
        if passed then (conclude r m', m') else (r.invert, m'))
