-- ===== src/Route/Headless/Filed.antt =====
-- NewDefaultHeadlessRule of route/rule_headless.go files every condition in its group.
use mathlib.Core.Path.{subst}
use sfa_provider.Prelude.{
  String, Option, none, some, true, false, List, [], ◌≡◌, refl, ap, ◌∙◌, Result, ok, err, ◌>>=◌,
}
use sfa_provider.Srs.Options.{DefaultOptions}
use sfa_provider.Route.Item.{RuleItem}
use sfa_provider.Route.Items.{network_item, port_item, domain_keyword_item}
use sfa_provider.Route.Items.Host.{
  process_item, process_path_item, package_name_item, wifi_ssid_item, wifi_bssid_item,
}
use sfa_provider.Route.DefaultRule.{DefaultRule}
use sfa_provider.Route.Builder.{
  Libraries, BuildError, no_conditions, add_item, add_source_address, add_source_port,
  add_destination_address, add_ip_cidr, add_destination_port, with_list, with_port_range, with_wifi,
}
use sfa_provider.Route.Headless.{with_names, with_ports, with_host, new_default_headless_rule}
use sfa_provider.Route.Headless.Described.{
  listed, domains, regexes, addresses, ranges, on_wifi, adguard, described,
}
use sfa_provider.Route.Headless.Filing.{
  forget, put_item, put_source_address, put_source_port, put_destination_address, put_ip_cidr,
  put_destination_port, Follows, item-Files, source_address-Files, source_port-Files,
  destination_address-Files, ip_cidr-Files, destination_port-Files, then-Follows, with_list-files,
  with_cidr-Follows, with_port_range-Follows, with_regex-Follows, with_domain-files,
  with_adguard-files,
}

module _ {M A R : Type 0} (l : Libraries M A R) where
  with_wifi-files :
      (ssids bssids : List String) (r : DefaultRule)
      → forget (with_wifi l ssids bssids r)
        ≡ put_item
            (on_wifi l bssids (λ state. wifi_bssid_item state.1))
            (put_item (on_wifi l ssids (λ state. wifi_ssid_item state.0)) (forget r))
  unfolding with_wifi
  with_wifi-files ssids bssids r = at l.wifi_state
    where
      at :
          (network : Option (String × String))
          → forget (elim network as (λ x. DefaultRule) [
            | none ↦ r
            | some state ↦
                with_list l bssids
                  (wifi_bssid_item state.1)
                  add_item
                  (with_list l ssids (wifi_ssid_item state.0) add_item r)
          ])
            ≡ put_item
                (elim network as (λ x. List RuleItem) [
                  | none ↦ []
                  | some state ↦ listed bssids (wifi_bssid_item state.1)
                ])
                (put_item
                  (elim network as (λ x. List RuleItem) [
                    | none ↦ []
                    | some state ↦ listed ssids (wifi_ssid_item state.0)
                  ])
                  (forget r))
      at none = item-Files.none_put (forget r) ∙ ap (put_item []) (item-Files.none_put (forget r))
      at (some state) =
          with_list-files l add_item put_item item-Files bssids (wifi_bssid_item state.1) _
          ∙ ap (put_item (listed bssids (wifi_bssid_item state.1)))
              (with_list-files l add_item put_item item-Files ssids (wifi_ssid_item state.0) r)

  module _ (o : DefaultOptions M A R) where
    abbrev put_host : DefaultRule → DefaultRule
    put_host r = put_item (on_wifi l o.wifi_bssid (λ state. wifi_bssid_item state.1)) (
        put_item (on_wifi l o.wifi_ssid (λ state. wifi_ssid_item state.0)) (
          put_item (listed o.package_name package_name_item) (
            put_item (listed o.process_path process_path_item)
              (put_item (listed o.process_name (process_item l.base)) r))))

    with_host-files : (r : DefaultRule) → forget (with_host l o r) ≡ put_host (forget r)
    unfolding with_host
    with_host-files r =
        with_wifi-files o.wifi_ssid o.wifi_bssid _
        ∙ ap
            (λ x.
              put_item (on_wifi l o.wifi_bssid (λ state. wifi_bssid_item state.1))
                (put_item (on_wifi l o.wifi_ssid (λ state. wifi_ssid_item state.0)) x))
            (with_list-files l add_item put_item item-Files o.package_name package_name_item _
              ∙ ap (put_item (listed o.package_name package_name_item)) (
                  with_list-files l add_item put_item item-Files o.process_path process_path_item _
                  ∙ ap (put_item (listed o.process_path process_path_item)) (
                      with_list-files l add_item put_item item-Files o.process_name
                        (process_item l.base) r)))

    abbrev put_names : List RuleItem → DefaultRule → DefaultRule
    put_names expressions r = put_destination_address expressions (
        put_destination_address
          (listed o.domain_keyword (domain_keyword_item l.to_lower l.contains))
          (put_destination_address (domains l o) (put_item (listed o.network network_item) r)))

    with_names-Follows :
        (r : DefaultRule)
        → Follows
            (with_names l o r)
            (regexes l o.domain_regex >>= λ xs. ok (put_names xs (forget r)))
    unfolding with_names
    with_names-Follows r =
        subst
          (λ x.
            Follows (with_names l o r)
              (regexes l o.domain_regex >>= λ xs. ok (put_destination_address xs x)))
          (with_list-files l add_destination_address put_destination_address
              destination_address-Files o.domain_keyword (domain_keyword_item l.to_lower l.contains)
              _
            ∙ ap
                (put_destination_address
                  (listed o.domain_keyword (domain_keyword_item l.to_lower l.contains)))
                (with_domain-files l o _
                  ∙ ap (put_destination_address (domains l o))
                      (with_list-files l add_item put_item item-Files o.network network_item r)))
          (with_regex-Follows l o.domain_regex _)

    with_ports-Follows :
        (r : DefaultRule)
        → Follows (with_ports l o r) (
            (ranges l true o.source_port_range >>= λ xs. ok (
              put_source_port xs
                (put_source_port (listed o.source_port (port_item true)) (forget r))))
            >>= λ r'. ranges l false o.port_range >>= λ xs. ok (
                put_destination_port xs
                  (put_destination_port (listed o.port (port_item false)) r')))
    unfolding with_ports
    with_ports-Follows r =
        then-Follows _ _ _ _
          (subst
            (λ x.
              Follows
                (with_port_range l true add_source_port o.source_port_range
                  (with_list l o.source_port (port_item true) add_source_port r))
                (ranges l true o.source_port_range >>= λ xs. ok (put_source_port xs x)))
            (with_list-files l add_source_port put_source_port source_port-Files o.source_port
              (port_item true) r)
            (with_port_range-Follows l add_source_port put_source_port source_port-Files true
              o.source_port_range _))
          (λ r'.
            subst
              (λ x.
                Follows
                  (with_port_range l false add_destination_port o.port_range
                    (with_list l o.port (port_item false) add_destination_port r'))
                  (ranges l false o.port_range >>= λ xs. ok (put_destination_port xs x)))
              (with_list-files l add_destination_port put_destination_port destination_port-Files
                o.port (port_item false) r')
              (with_port_range-Follows l add_destination_port put_destination_port
                destination_port-Files false o.port_range _))

    -- The blocks in the order of the source.
    abbrev chained :
        (expressions sources destinations source_ranges destination_ranges : Result BuildError
          (List RuleItem))
        → Result BuildError DefaultRule
    chained expressions sources destinations source_ranges destination_ranges =
        (expressions >>= λ xs. ok (put_names xs (no_conditions o.invert))) >>= λ r1.
        (sources >>= λ xs. ok (put_source_address xs r1)) >>= λ r2.
        (destinations >>= λ xs. ok (put_ip_cidr xs r2)) >>= λ r3.
        ((source_ranges >>= λ xs.
        ok (put_source_port xs (put_source_port (listed o.source_port (port_item true)) r3)))
          >>= λ r'. destination_ranges >>= λ xs.
              ok (
                put_destination_port xs
                  (put_destination_port (listed o.port (port_item false)) r')))
        >>= λ r4. ok (
            put_destination_address (adguard l o.adguard_domain o.adguard_domain_matcher)
              (put_host r4))

    new_default_headless_rule-Follows : Follows (new_default_headless_rule l o) (
        chained
          (regexes l o.domain_regex)
          (addresses l true o.source_ip_cidr o.source_ip_set)
          (addresses l false o.ip_cidr o.ip_set)
          (ranges l true o.source_port_range)
          (ranges l false o.port_range))
    unfolding new_default_headless_rule
    new_default_headless_rule-Follows =
        then-Follows _ _ _ _ (with_names-Follows (no_conditions o.invert)) (λ r1.
          then-Follows _ _ _ _
            (with_cidr-Follows l add_source_address put_source_address source_address-Files true
              o.source_ip_cidr o.source_ip_set r1)
            (λ r2.
              then-Follows _ _ _ _
                (with_cidr-Follows l add_ip_cidr put_ip_cidr ip_cidr-Files false o.ip_cidr o.ip_set
                  r2)
                (λ r3. then-Follows _ _ _ _ (with_ports-Follows r3) (λ r4. ap ok (
                  with_adguard-files l o.adguard_domain o.adguard_domain_matcher _
                  ∙ ap
                      (put_destination_address
                        (adguard l o.adguard_domain o.adguard_domain_matcher))
                      (with_host-files r4))))))

    abbrev flat :
        (expressions sources destinations source_ranges destination_ranges : Result BuildError
          (List RuleItem))
        → Result BuildError DefaultRule
    flat expressions sources destinations source_ranges destination_ranges = expressions >>= λ es.
        sources >>= λ ss. destinations >>= λ ds. source_ranges >>= λ srs.
        destination_ranges >>= λ drs. ok (
          put_destination_address (adguard l o.adguard_domain o.adguard_domain_matcher) (
            put_host (
              put_destination_port drs (
                put_destination_port (listed o.port (port_item false)) (
                  put_source_port srs (
                    put_source_port (listed o.source_port (port_item true)) (
                      put_ip_cidr ds
                        (put_source_address ss (put_names es (no_conditions o.invert))))))))))

    chained-flat :
        (es ss ds srs drs : Result BuildError (List RuleItem))
        → chained es ss ds srs drs ≡ flat es ss ds srs drs
    chained-flat (err e) ss ds srs drs = refl
    chained-flat (ok x1) (err e) ds srs drs = refl
    chained-flat (ok x1) (ok x2) (err e) srs drs = refl
    chained-flat (ok x1) (ok x2) (ok x3) (err e) drs = refl
    chained-flat (ok x1) (ok x2) (ok x3) (ok x4) (err e) = refl
    chained-flat (ok x1) (ok x2) (ok x3) (ok x4) (ok x5) = refl

    -- What is built has the described groups, or the described error.
    pub new_default_headless_rule-described :
        Follows (new_default_headless_rule l o) (described l o)
    new_default_headless_rule-described =
        new_default_headless_rule-Follows
        ∙ chained-flat (regexes l o.domain_regex)
            (addresses l true o.source_ip_cidr o.source_ip_set)
            (addresses l false o.ip_cidr o.ip_set) (ranges l true o.source_port_range)
            (ranges l false o.port_range)
