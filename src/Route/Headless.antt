-- ===== src/Route/Headless.antt =====
-- How the rules of a rule set are built from their options: NewHeadlessRule,
-- NewDefaultHeadlessRule and NewLogicalHeadlessRule of route/rule_headless.go. An absent and an
-- empty list are one.
pub mod Compiled
pub mod Files
pub mod Appending
pub mod Grouped
pub mod Described
pub mod Filing
pub mod Filed
pub mod Answers
pub mod QueryType
mod Tests
use sfa_provider.Prelude.{
  ℕ, String, Option, none, some, Bool, true, false, not, List, [], ◌∷◌, ◌++◌, ◌&&◌, ◌||◌, ◌==◌,
  ℕ_key, string_key, ltb, is_empty, length, ◌+◌, Result, ok, err, ◌>>=◌, if◌then◌else◌,
}
use sfa_provider.FakeIp.Addr.{Addr}
use sfa_provider.Srs.Wire.{IpSet, Wire}
use sfa_provider.Srs.Options
use sfa_provider.Srs.Options.{DefaultOptions, HeadlessRules, nil, cons, default_rule, logical_rule}
use sfa_provider.Srs.Writing.{WriteError, set_of}
use sfa_provider.Route.Context.{InboundContext}
use sfa_provider.Route.Item.{RuleItem}
use sfa_provider.Route.Items.{
  RangeItem, network_item, port_item, port_range_item, domain_item, domain_keyword_item,
  domain_regex_item, adguard_item, ip_cidr_item,
}
use sfa_provider.Route.Items.Host.{
  process_item, process_path_item, package_name_item, wifi_ssid_item, wifi_bssid_item,
}
use sfa_provider.Route.DefaultRule.{DefaultRule}
use sfa_provider.Route.LogicalRule
use sfa_provider.Route.LogicalRule.{
  LogicalRule, mode_and, mode_or, default_headless, logical_headless,
}
use sfa_provider.Route.Builder.{
  Libraries, BuildError, missing_conditions, building, no_conditions, add_item, add_source_address,
  add_source_port, add_destination_address, add_ip_cidr, add_destination_port, with_list,
  with_domain, compile_all, with_regex, with_cidr, bound, parse_range, parse_port_ranges,
  with_port_range, with_wifi, with_adguard,
}

module _ {M A R : Type 0} (l : Libraries M A R) where
  -- The blocks on names: the network, the domains, the keywords and the expressions.
  unfoldable pub with_names : DefaultOptions M A R → DefaultRule → Result BuildError DefaultRule
  with_names o r = with_regex l o.domain_regex (
      with_list l o.domain_keyword (domain_keyword_item l.to_lower l.contains)
        add_destination_address
        (with_domain l o.domain o.domain_suffix o.domain_matcher
          (with_list l o.network network_item add_item r)))

  -- The blocks on ports.
  unfoldable pub with_ports : DefaultOptions M A R → DefaultRule → Result BuildError DefaultRule
  with_ports o r =
      with_port_range l true add_source_port o.source_port_range
        (with_list l o.source_port (port_item true) add_source_port r)
      >>= λ r'.
          with_port_range l false add_destination_port o.port_range
            (with_list l o.port (port_item false) add_destination_port r')

  -- The blocks on the process and on the host.
  unfoldable pub with_host : DefaultOptions M A R → DefaultRule → DefaultRule
  with_host o r = with_wifi l o.wifi_ssid o.wifi_bssid (
      with_list l o.package_name package_name_item add_item (
        with_list l o.process_path process_path_item add_item
          (with_list l o.process_name (process_item l.base) add_item r)))

  -- NewDefaultHeadlessRule
  unfoldable pub new_default_headless_rule : DefaultOptions M A R → Result BuildError DefaultRule
  new_default_headless_rule o = with_names o (no_conditions o.invert) >>= λ r1.
      with_cidr l true add_source_address o.source_ip_cidr o.source_ip_set r1 >>= λ r2.
      with_cidr l false add_ip_cidr o.ip_cidr o.ip_set r2 >>= λ r3. with_ports o r3 >>= λ r4.
      ok (with_adguard l o.adguard_domain o.adguard_domain_matcher (with_host o r4))

-- The switch of NewDefaultHeadlessRule that sets ruleCount, by the lengths of the groups.
unfoldable pub rule_count : DefaultRule → ℕ
rule_count r =
    let all = length r.all_items in
    let destinations = length r.destination_address_items + length r.destination_ip_cidr_items in
    if all == destinations
    then destinations
    else if all == length r.source_address_items
    then length r.source_address_items
    else if all == length r.source_port_items
    then length r.source_port_items
    else if all == length r.destination_port_items
    then length r.destination_port_items
    else 1

abbrev pub is_none : {V : Type 0} → Option V → Bool
is_none none = true
is_none (some v) = false

-- DefaultHeadlessRule.IsValid: something but `invert` is set.
unfoldable pub is_valid_default : {M A R : Type 0} → DefaultOptions M A R → Bool
is_valid_default o = not (
    ((is_empty o.domain && is_empty o.domain_suffix) && is_none o.domain_matcher)
    && (is_empty o.source_ip_cidr && is_none o.source_ip_set)
    && (is_empty o.ip_cidr && is_none o.ip_set)
    && (is_empty o.adguard_domain && is_none o.adguard_domain_matcher)
    && is_empty o.query_type
    && is_empty o.network
    && is_empty o.domain_keyword
    && is_empty o.domain_regex
    && is_empty o.source_port
    && is_empty o.source_port_range
    && is_empty o.port
    && is_empty o.port_range
    && is_empty o.process_name
    && is_empty o.process_path
    && is_empty o.package_name
    && is_empty o.wifi_ssid
    && is_empty o.wifi_bssid)

abbrev pub has_rules : {M A R : Type 0} → HeadlessRules M A R → Bool
has_rules nil = false
has_rules (cons rule rules) = true

-- HeadlessRule.IsValid and LogicalHeadlessRule.IsValid
unfoldable mutual
  pub is_valid : {M A R : Type 0} → Options.HeadlessRule M A R → Bool
  is_valid (default_rule o) = is_valid_default o
  is_valid (logical_rule mode rules invert) = has_rules rules && all_valid rules

  pub all_valid : {M A R : Type 0} → HeadlessRules M A R → Bool
  all_valid nil = true
  all_valid (cons rule rules) = is_valid rule && all_valid rules

abbrev pub mode_of : Options.Mode → LogicalRule.Mode
mode_of Options.mode_and = mode_and
mode_of Options.mode_or = mode_or

-- NewHeadlessRule, NewLogicalHeadlessRule and the loop over the rules.
unfoldable mutual
  pub new_headless_rule :
      {M A R : Type 0}
      → Libraries M A R
      → Options.HeadlessRule M A R
      → Result BuildError LogicalRule.HeadlessRule
  new_headless_rule l (default_rule o) =
      if not (is_valid_default o)
      then err missing_conditions
      else (new_default_headless_rule l o >>= λ r. ok (default_headless r))
  new_headless_rule l (logical_rule mode rules invert) =
      let subs = new_headless_rules l rules in
      if not (has_rules rules && all_valid rules)
      then err missing_conditions
      else (subs >>= λ rs.
          ok (logical_headless (record { invert = invert; mode = mode_of mode; rules = rs })))

  pub new_headless_rules :
      {M A R : Type 0}
      → Libraries M A R
      → HeadlessRules M A R
      → Result BuildError (List LogicalRule.HeadlessRule)
  new_headless_rules l nil = ok []
  new_headless_rules l (cons rule rules) =
      new_headless_rule l rule >>= λ r. new_headless_rules l rules >>= λ rs. ok (r ∷ rs)
