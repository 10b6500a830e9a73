-- ===== src/Route/Headless/Grouped.antt =====
-- What NewDefaultHeadlessRule of route/rule_headless.go builds: conditions of the connection alone,
-- each in one group and in the list of all.
use sfa_provider.Prelude.{
  String, Option, none, some, Bool, true, false, List, [], ◌∷◌, ◌&&◌, ◌≡◌, refl, is_empty, Result,
  ok, err, ◌>>=◌, if◌then◌else◌, arith,
}
use mathlib.Core.Path.{subst}
use sfa_provider.Srs.Wire.{IpSet}
use sfa_provider.Srs.Writing.{set_of}
use sfa_provider.Srs.Options.{DefaultOptions}
use sfa_provider.Route.Item.{RuleItem, Plain}
use sfa_provider.Route.Items.{
  reading-Plain, network-Plain, port-Plain, port_range-Plain, ip_cidr-Plain, domain-Plain,
  domain_item, domain_keyword_item, domain_regex_item, adguard_item, network_item, port_item,
}
use sfa_provider.Route.Items.Host.{
  process_item, process_path_item, package_name_item, wifi_ssid_item, wifi_bssid_item,
}
use sfa_provider.Route.DefaultRule.{DefaultRule}
use sfa_provider.Route.Headless.Compiled.{ok_inj}
use sfa_provider.Route.Builder.{
  Libraries, BuildError, building, add_item, add_source_address, add_source_port,
  add_destination_address, add_ip_cidr, add_destination_port, with_list, with_domain, compile_all,
  with_regex, with_cidr, parse_port_ranges, with_port_range, with_wifi, with_adguard,
}
use sfa_provider.Route.Headless.{with_names, with_ports, with_host, new_default_headless_rule}
use sfa_provider.Route.Headless.Appending.{
  IsGrouped, Adds, add_item-Adds, add_source_address-Adds, add_source_port-Adds,
  add_destination_address-Adds, add_ip_cidr-Adds, add_destination_port-Adds,
  no_conditions-IsGrouped,
}

-- The rule of a result is grouped, where there is one.
abbrev Grouped : Result BuildError DefaultRule → Type 0
Grouped (ok r) = IsGrouped r
Grouped (err e) = Unit

then-Grouped :
    (x : Result BuildError DefaultRule) (f : DefaultRule → Result BuildError DefaultRule)
    → Grouped x
    → ((r : DefaultRule) → IsGrouped r → Grouped (f r))
    → Grouped (x >>= f)
then-Grouped (ok r) f g h = h r g
then-Grouped (err e) f g h = tt

made-Grouped :
    {V : Type 0} (x : Result BuildError V) (f : V → DefaultRule)
    → ((v : V) → IsGrouped (f v))
    → Grouped (x >>= λ v. ok (f v))
made-Grouped (ok v) f h = h v
made-Grouped (err e) f h = tt

module _ {M A R : Type 0} (l : Libraries M A R) where
  with_list-IsGrouped :
      {V : Type 0} (values : List V) (item : List V → RuleItem)
      (add : RuleItem → DefaultRule → DefaultRule) (r : DefaultRule)
      → ((vs : List V) → Plain (item vs))
      → Adds add
      → IsGrouped r
      → IsGrouped (with_list l values item add r)
  with_list-IsGrouped [] item add r p h g = g
  with_list-IsGrouped (v ∷ vs) item add r p h g = h (item (v ∷ vs)) r (p (v ∷ vs)) g

  with_domain-IsGrouped :
      (domain domain_suffix : List String) (matcher : Option M) (r : DefaultRule)
      → IsGrouped r
      → IsGrouped (with_domain l domain domain_suffix matcher r)
  unfolding with_domain
  with_domain-IsGrouped domain domain_suffix matcher r g =
      at (is_empty domain && is_empty domain_suffix) matcher
    where
      at :
          (b : Bool) (o : Option M)
          → IsGrouped (
              if b
              then elim o [
                | none ↦ r
                | some m ↦ add_destination_address (domain_item l.to_lower (l.matches m)) r
              ]
              else add_destination_address
                  (domain_item l.to_lower
                    (l.matches (l.wire.new_matcher domain domain_suffix false)))
                  r)
      at true none = g
      at true (some m) = add_destination_address-Adds _ r (domain-Plain l.to_lower (l.matches m)) g
      at false o = add_destination_address-Adds _ r (domain-Plain l.to_lower _) g

  with_regex-Grouped :
      (expressions : List String) (r : DefaultRule)
      → IsGrouped r
      → Grouped (with_regex l expressions r)
  unfolding with_regex domain_regex_item
  with_regex-Grouped [] r g = g
  with_regex-Grouped (e ∷ es) r g =
      made-Grouped (compile_all l (e ∷ es)) _
        (λ fs. add_destination_address-Adds _ r (reading-Plain _ (λ m f. refl)) g)

  with_cidr-Grouped :
      (is_source : Bool) (add : RuleItem → DefaultRule → DefaultRule) (values : List String)
      (o : Option (IpSet R)) (r : DefaultRule)
      → Adds add
      → IsGrouped r
      → Grouped (with_cidr l is_source add values o r)
  unfolding with_cidr
  with_cidr-Grouped is_source add [] none r h g = g
  with_cidr-Grouped is_source add [] (some set) r h g =
      h _ r (ip_cidr-Plain is_source (l.in_set set)) g
  with_cidr-Grouped is_source add (v ∷ vs) o r h g =
      made-Grouped (building (set_of l.wire (v ∷ vs))) _
        (λ set. h _ r (ip_cidr-Plain is_source (l.in_set set)) g)

  with_port_range-Grouped :
      (is_source : Bool) (add : RuleItem → DefaultRule → DefaultRule) (values : List String)
      (r : DefaultRule)
      → Adds add
      → IsGrouped r
      → Grouped (with_port_range l is_source add values r)
  unfolding with_port_range
  with_port_range-Grouped is_source add [] r h g = g
  with_port_range-Grouped is_source add (s ∷ ss) r h g =
      made-Grouped (parse_port_ranges l (s ∷ ss)) _
        (λ ranges. h _ r (port_range-Plain is_source ranges) g)

  with_adguard-IsGrouped :
      (domains : List String) (o : Option A) (r : DefaultRule)
      → IsGrouped r
      → IsGrouped (with_adguard l domains o r)
  unfolding with_adguard adguard_item
  with_adguard-IsGrouped [] none r g = g
  with_adguard-IsGrouped [] (some m) r g =
      add_destination_address-Adds _ r (reading-Plain _ (λ m f. refl)) g
  with_adguard-IsGrouped (d ∷ ds) o r g =
      add_destination_address-Adds _ r (reading-Plain _ (λ m f. refl)) g

  with_host-IsGrouped :
      (o : DefaultOptions M A R) (r : DefaultRule) → IsGrouped r → IsGrouped (with_host l o r)
  unfolding with_host with_wifi process_item process_path_item package_name_item wifi_ssid_item
      wifi_bssid_item
  with_host-IsGrouped o r g = at l.wifi_state
    where
      on_process : IsGrouped (
          with_list l o.package_name package_name_item add_item (
            with_list l o.process_path process_path_item add_item
              (with_list l o.process_name (process_item l.base) add_item r)))
      on_process =
          with_list-IsGrouped o.package_name package_name_item add_item _
            (λ vs. reading-Plain _ (λ m f. refl)) add_item-Adds
            (with_list-IsGrouped o.process_path process_path_item add_item _
              (λ vs. reading-Plain _ (λ m f. refl)) add_item-Adds
              (with_list-IsGrouped o.process_name (process_item l.base) add_item r
                (λ vs. reading-Plain _ (λ m f. refl)) add_item-Adds g))

      at :
          (state : Option (String × String))
          → IsGrouped (elim state [
            | none ↦ with_list l o.package_name package_name_item add_item (
                with_list l o.process_path process_path_item add_item
                  (with_list l o.process_name (process_item l.base) add_item r))
            | some state ↦ with_list l o.wifi_bssid (wifi_bssid_item state.1) add_item (
                with_list l o.wifi_ssid (wifi_ssid_item state.0) add_item (
                  with_list l o.package_name package_name_item add_item (
                    with_list l o.process_path process_path_item add_item
                      (with_list l o.process_name (process_item l.base) add_item r))))
          ])
      at none = on_process
      at (some state) =
          with_list-IsGrouped o.wifi_bssid (wifi_bssid_item state.1) add_item _
            (λ vs. reading-Plain _ (λ m f. refl)) add_item-Adds
            (with_list-IsGrouped o.wifi_ssid (wifi_ssid_item state.0) add_item _
              (λ vs. reading-Plain _ (λ m f. refl)) add_item-Adds on_process)

  with_names-Grouped :
      (o : DefaultOptions M A R) (r : DefaultRule) → IsGrouped r → Grouped (with_names l o r)
  unfolding with_names domain_keyword_item
  with_names-Grouped o r g = with_regex-Grouped o.domain_regex _ (
      with_list-IsGrouped o.domain_keyword (domain_keyword_item l.to_lower l.contains)
        add_destination_address _ (λ vs. reading-Plain _ (λ m f. refl)) add_destination_address-Adds
        (with_domain-IsGrouped o.domain o.domain_suffix o.domain_matcher _
          (with_list-IsGrouped o.network network_item add_item r network-Plain add_item-Adds g)))

  with_ports-Grouped :
      (o : DefaultOptions M A R) (r : DefaultRule) → IsGrouped r → Grouped (with_ports l o r)
  unfolding with_ports
  with_ports-Grouped o r g =
      then-Grouped _ _
        (with_port_range-Grouped true add_source_port o.source_port_range _ add_source_port-Adds (
          with_list-IsGrouped o.source_port (port_item true) add_source_port r (port-Plain true)
            add_source_port-Adds g))
        (λ r' g'.
          with_port_range-Grouped false add_destination_port o.port_range _
            add_destination_port-Adds
            (with_list-IsGrouped o.port (port_item false) add_destination_port r' (port-Plain false)
              add_destination_port-Adds g'))

  new_default_headless_rule-Grouped :
      (o : DefaultOptions M A R) → Grouped (new_default_headless_rule l o)
  unfolding new_default_headless_rule
  new_default_headless_rule-Grouped o =
      then-Grouped _ _ (with_names-Grouped o _ (no_conditions-IsGrouped o.invert)) (λ r1 g1.
        then-Grouped _ _
          (with_cidr-Grouped true add_source_address o.source_ip_cidr o.source_ip_set r1
            add_source_address-Adds g1)
          (λ r2 g2.
            then-Grouped _ _
              (with_cidr-Grouped false add_ip_cidr o.ip_cidr o.ip_set r2 add_ip_cidr-Adds g2)
              (λ r3 g3. then-Grouped _ _ (with_ports-Grouped o r3 g3) (λ r4 g4.
                with_adguard-IsGrouped o.adguard_domain o.adguard_domain_matcher _
                  (with_host-IsGrouped o r4 g4)))))

  -- A default rule of a rule set that is built holds only conditions of the connection alone, and
  -- as many in its groups as in the list of all.
  pub built-IsGrouped :
      (o : DefaultOptions M A R) (r : DefaultRule)
      → new_default_headless_rule l o ≡ ok r
      → IsGrouped r
  built-IsGrouped o r e = at (new_default_headless_rule l o) e (new_default_headless_rule-Grouped o)
    where
      at : (x : Result BuildError DefaultRule) → x ≡ ok r → Grouped x → IsGrouped r
      at (ok y) e g = subst IsGrouped (ok_inj e) g
      at (err y) e g = ground (arith, e)
