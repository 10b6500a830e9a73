-- ===== src/Route/Headless/Described.antt =====
-- The rules that NewDefaultHeadlessRule of route/rule_headless.go builds, described from the options
-- of a rule set: for each group of a rule, the options whose conditions it holds.
use sfa_provider.Prelude.{
  String, Option, none, some, Bool, true, false, List, [], ◌∷◌, ◌++◌, ◌&&◌, is_empty, Result, ok,
  ◌>>=◌, if◌then◌else◌,
}
use sfa_provider.Srs.Wire.{IpSet}
use sfa_provider.Srs.Writing.{set_of}
use sfa_provider.Srs.Options.{DefaultOptions}
use sfa_provider.Route.Item.{RuleItem}
use sfa_provider.Route.Items.{
  network_item, port_item, port_range_item, domain_item, domain_keyword_item, domain_regex_item,
  adguard_item, ip_cidr_item,
}
use sfa_provider.Route.Items.Host.{
  process_item, process_path_item, package_name_item, wifi_ssid_item, wifi_bssid_item,
}
use sfa_provider.Route.DefaultRule.{DefaultRule}
use sfa_provider.Route.Builder.{
  Libraries, BuildError, building, no_conditions, compile_all, parse_port_ranges,
}

-- The condition of an option that is a list, where there is one.
abbrev pub listed : {V : Type 0} → List V → (List V → RuleItem) → List RuleItem
listed [] item = []
listed (v ∷ vs) item = item (v ∷ vs) ∷ []

module _ {M A R : Type 0} (l : Libraries M A R) where
  abbrev pub domains : DefaultOptions M A R → List RuleItem
  domains o =
      if is_empty o.domain && is_empty o.domain_suffix
      then elim o.domain_matcher [ none ↦ [] | some m ↦ domain_item l.to_lower (l.matches m) ∷ [] ]
      else domain_item l.to_lower (l.matches (l.wire.new_matcher o.domain o.domain_suffix false))
        ∷ []

  abbrev pub regexes : List String → Result BuildError (List RuleItem)
  regexes [] = ok []
  regexes (e ∷ es) =
      compile_all l (e ∷ es) >>= λ matchers. ok (domain_regex_item l.to_lower matchers ∷ [])

  abbrev pub addresses : Bool → List String → Option (IpSet R) → Result BuildError (List RuleItem)
  addresses is_source [] none = ok []
  addresses is_source [] (some set) = ok (ip_cidr_item is_source (l.in_set set) ∷ [])
  addresses is_source (v ∷ vs) o =
      building (set_of l.wire (v ∷ vs)) >>= λ set. ok (ip_cidr_item is_source (l.in_set set) ∷ [])

  abbrev pub ranges : Bool → List String → Result BuildError (List RuleItem)
  ranges is_source [] = ok []
  ranges is_source (s ∷ ss) =
      parse_port_ranges l (s ∷ ss) >>= λ found. ok (port_range_item is_source found ∷ [])

  -- The condition on the wireless network, for a router that has one.
  abbrev pub on_wifi : List String → (String × String → List String → RuleItem) → List RuleItem
  on_wifi values item = elim l.wifi_state [ none ↦ [] | some state ↦ listed values (item state) ]

  abbrev pub adguard : List String → Option A → List RuleItem
  adguard [] none = []
  adguard [] (some matcher) = adguard_item l.to_lower (l.adguard_matches matcher) ∷ []
  adguard (d ∷ ds) o =
      adguard_item l.to_lower (l.adguard_matches (l.wire.new_adguard (d ∷ ds))) ∷ []

  -- The groups of the rule, where every option that can fail is valid; the list of all conditions is
  -- left out.
  abbrev pub described : DefaultOptions M A R → Result BuildError DefaultRule
  described o = regexes o.domain_regex >>= λ expressions.
      addresses true o.source_ip_cidr o.source_ip_set >>= λ sources.
      addresses false o.ip_cidr o.ip_set >>= λ destinations.
      ranges true o.source_port_range >>= λ source_ranges.
      ranges false o.port_range >>= λ destination_ranges. ok (record (no_conditions o.invert) {
        items =
            ((((listed o.network network_item ++ listed o.process_name (process_item l.base))
                  ++ listed o.process_path process_path_item)
                ++ listed o.package_name package_name_item)
              ++ on_wifi o.wifi_ssid (λ state. wifi_ssid_item state.0))
            ++ on_wifi o.wifi_bssid (λ state. wifi_bssid_item state.1);
        source_address_items = sources;
        source_port_items = listed o.source_port (port_item true) ++ source_ranges;
        destination_address_items =
            ((domains o ++ listed o.domain_keyword (domain_keyword_item l.to_lower l.contains))
              ++ expressions)
            ++ adguard o.adguard_domain o.adguard_domain_matcher;
        destination_ip_cidr_items = destinations;
        destination_port_items = listed o.port (port_item false) ++ destination_ranges;
      })
