-- ===== src/Route/Headless/Tests.antt =====
-- The rules of the sample rule set, built from the source and from the compiled file.
use sfa_provider.Prelude.{
  ℕ, String, none, true, false, List, [], ◌∷◌, ◌≡◌, refl, ok, ◌==◌, string_key, any, arith,
}
use sfa_provider.Srs.Options.{HeadlessRules, no_options, default_rule}
use sfa_provider.Srs.Reading.{read}
use sfa_provider.Srs.Tests.Format.{wire, wire-WireLaws}
use sfa_provider.Srs.Tests.{tool, rules, rules-FitsRules, written, write_example}
use sfa_provider.Dns.Servers.{new_context}
use sfa_provider.Route.Context.{InboundContext}
use sfa_provider.Route.DefaultRule.{DefaultRule}
use sfa_provider.Route.LogicalRule
use sfa_provider.Route.Items.{network_item}
use sfa_provider.Route.Items.Host.{process_item}
use sfa_provider.Route.Builder.{
  Libraries, no_conditions, add_item, with_domain, with_regex, with_cidr, with_port_range,
  with_wifi, with_adguard,
}
use sfa_provider.Route.Headless.{
  new_headless_rule, new_headless_rules, new_default_headless_rule, with_names, with_ports,
  with_host,
}
use sfa_provider.Route.Headless.Compiled.{IsSource, SameMatches}
use sfa_provider.Route.Headless.Files.{IsSourceRules, compiled_rules_same}
use sfa_provider.Route.Headless.Appending.{IsGrouped}
use sfa_provider.Route.Headless.Grouped.{built-IsGrouped}
use sfa_provider.Route.Headless.QueryType.{query_type_ignored}

abbrev libraries : Libraries (List String) (List String) ℕ
libraries = record {
  wire = wire;
  to_lower = λ s. s;
  contains = λ s t. s == t;
  base = λ s. s;
  matches = λ names host. any (λ n. n == host) names;
  adguard_matches = λ names host. false;
  in_set = λ set a. false;
  compile = λ s. none;
  parse_uint = λ s. none;
  cut = λ s. none;
  wifi_state = none;
}

libraries-SameMatches : SameMatches libraries
libraries-SameMatches domain domain_suffix legacy host = refl

rules-IsSourceRules : IsSourceRules rules
unfolding IsSourceRules
rules-IsSourceRules = (
  (
    record {
      domain_matcher = refl;
      source_ip_set = refl;
      ip_set = refl;
      adguard_domain_matcher = refl;
    },
    (tool_source, tt),
  ),
  (tool_source, tt),
)
  where
    tool_source : IsSource tool
    tool_source = record {
      domain_matcher = refl;
      source_ip_set = refl;
      ip_set = refl;
      adguard_domain_matcher = refl;
    }

abbrev built_tool : DefaultRule
built_tool =
    add_item (process_item libraries.base ("curl" ∷ []))
      (add_item (network_item ("tcp" ∷ [])) (no_conditions false))

new_tool : new_default_headless_rule libraries tool ≡ ok built_tool
unfolding new_default_headless_rule with_names with_domain with_regex with_cidr with_ports
    with_port_range with_host with_wifi with_adguard
new_tool = refl

compiled_rules_same_example :
    (loaded : HeadlessRules (List String) (List String) ℕ) × (read wire false written ≡ ok loaded)
    × (new_headless_rules libraries loaded ≡ new_headless_rules libraries rules)
compiled_rules_same_example =
    compiled_rules_same libraries wire-WireLaws libraries-SameMatches true rules written
      rules-IsSourceRules (omega arith) (rules-FitsRules false) write_example

built-IsGrouped_example : IsGrouped built_tool
built-IsGrouped_example = built-IsGrouped libraries tool built_tool new_tool

-- A connection over TCP of another process.
abbrev connection : InboundContext
connection = record new_context { network = "tcp" }

query_type_ignored_example :
    (r : LogicalRule.HeadlessRule) × (new_headless_rule libraries
        (default_rule (record no_options { query_type = 28 ∷ []; invert = true }))
      ≡ ok r)
    × ((m : InboundContext) → r.match m ≡ (true, m))
query_type_ignored_example = query_type_ignored libraries 28 [] true
