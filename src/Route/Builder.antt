-- ===== src/Route/Builder.antt =====
-- The blocks of the rule builders of route/rule_headless.go, one for an option or for the options that
-- make one condition, and the constructors of conditions that can fail (route/rule_item_*.go).
use sfa_provider.Prelude.{
  ℕ, String, Option, none, some, Bool, false, List, [], ◌∷◌, ◌++◌, ◌&&◌, ◌==◌, ℕ_key, string_key,
  is_empty, Result, ok, err, ◌>>=◌, if◌then◌else◌,
}
use sfa_provider.FakeIp.Addr.{Addr}
use sfa_provider.Srs.Wire.{IpSet, Wire}
use sfa_provider.Srs.Writing.{WriteError, set_of}
use sfa_provider.Route.Item.{RuleItem}
use sfa_provider.Route.Items.{
  RangeItem, port_range_item, domain_item, domain_regex_item, adguard_item, ip_cidr_item,
}
use sfa_provider.Route.Items.Host.{wifi_ssid_item, wifi_bssid_item}
use sfa_provider.Route.DefaultRule.{DefaultRule}

-- What the conditions take from libraries: the matchers of sing's domain package and of netipx,
-- strings, filepath.Base, regexp.Compile, strconv.ParseUint to 16 bits, the cut of a string at its
-- first colon, and the wireless network of the router, if there is one.
pub record Libraries (M A R : Type 0) : Type 0 where
  pub wire : Wire M A R
  pub to_lower : String → String
  pub contains : String → String → Bool
  pub base : String → String
  pub matches : M → String → Bool
  pub adguard_matches : A → String → Bool
  pub in_set : IpSet R → Addr → Bool
  pub compile : String → Option (String → Bool)
  pub parse_uint : String → Option ℕ
  pub cut : String → Option (String × String)
  pub wifi_state : Option (String × String)

pub data BuildError : Type 0 where
  missing_conditions : BuildError
  bad_regex bad_port_range : String → BuildError
  bad_set : WriteError → BuildError

abbrev pub building : {V : Type 0} → Result WriteError V → Result BuildError V
building (ok v) = ok v
building (err e) = err (bad_set e)

-- A rule without conditions.
abbrev pub no_conditions : Bool → DefaultRule
no_conditions invert = record {
  invert = invert;
  items = [];
  source_address_items = [];
  source_port_items = [];
  destination_address_items = [];
  destination_ip_cidr_items = [];
  destination_port_items = [];
  all_items = [];
  rule_set_items = [];
}

-- The two calls of append for a condition, for each of its groups.
module _ (item : RuleItem) (r : DefaultRule) where
  abbrev pub add_item : DefaultRule
  add_item = record r { items = r.items ++ (item ∷ []); all_items = r.all_items ++ (item ∷ []) }

  abbrev pub add_source_address : DefaultRule
  add_source_address = record r {
    source_address_items = r.source_address_items ++ (item ∷ []);
    all_items = r.all_items ++ (item ∷ []);
  }

  abbrev pub add_source_port : DefaultRule
  add_source_port = record r {
    source_port_items = r.source_port_items ++ (item ∷ []);
    all_items = r.all_items ++ (item ∷ []);
  }

  abbrev pub add_destination_address : DefaultRule
  add_destination_address = record r {
    destination_address_items = r.destination_address_items ++ (item ∷ []);
    all_items = r.all_items ++ (item ∷ []);
  }

  abbrev pub add_ip_cidr : DefaultRule
  add_ip_cidr = record r {
    destination_ip_cidr_items = r.destination_ip_cidr_items ++ (item ∷ []);
    all_items = r.all_items ++ (item ∷ []);
  }

  abbrev pub add_destination_port : DefaultRule
  add_destination_port = record r {
    destination_port_items = r.destination_port_items ++ (item ∷ []);
    all_items = r.all_items ++ (item ∷ []);
  }

module _ {M A R : Type 0} (l : Libraries M A R) where
  -- The block of an option that makes a condition of a list that is not empty.
  abbrev pub with_list :
      {V : Type 0}
      → List V
      → (List V → RuleItem)
      → (RuleItem → DefaultRule → DefaultRule)
      → DefaultRule
      → DefaultRule
  with_list [] item add r = r
  with_list (v ∷ vs) item add r = add (item (v ∷ vs)) r

  -- The block of the domains: a list, or else a matcher that was read.
  unfoldable pub with_domain : List String → List String → Option M → DefaultRule → DefaultRule
  with_domain domain domain_suffix matcher r =
      if is_empty domain && is_empty domain_suffix
      then elim matcher [
        | none ↦ r
        | some m ↦ add_destination_address (domain_item l.to_lower (l.matches m)) r
      ]
      else add_destination_address
          (domain_item l.to_lower (l.matches (l.wire.new_matcher domain domain_suffix false))) r

  -- NewDomainRegexItem
  unfoldable pub compile_all : List String → Result BuildError (List (String → Bool))
  compile_all [] = ok []
  compile_all (e ∷ es) =
      let rest = compile_all es in
      elim (l.compile e) [ none ↦ err (bad_regex e) | some f ↦ rest >>= λ fs. ok (f ∷ fs) ]

  unfoldable pub with_regex : List String → DefaultRule → Result BuildError DefaultRule
  with_regex [] r = ok r
  with_regex (e ∷ es) r = compile_all (e ∷ es) >>= λ matchers.
      ok (add_destination_address (domain_regex_item l.to_lower matchers) r)

  -- The block of a list of addresses, or else of a set that was read. NewIPCIDRItem builds its set
  -- as writeRuleItemCIDR does.
  unfoldable pub with_cidr :
      Bool
      → (RuleItem → DefaultRule → DefaultRule)
      → List String
      → Option (IpSet R)
      → DefaultRule
      → Result BuildError DefaultRule
  with_cidr is_source add [] none r = ok r
  with_cidr is_source add [] (some set) r = ok (add (ip_cidr_item is_source (l.in_set set)) r)
  with_cidr is_source add (v ∷ vs) o r = building (set_of l.wire (v ∷ vs)) >>= λ set.
      ok (add (ip_cidr_item is_source (l.in_set set)) r)

  -- A bound of a port range, or what stands for one that is left out.
  abbrev pub bound : ℕ → String → Option ℕ
  bound missing s = if s == "" then some missing else l.parse_uint s

  -- A round of the loop of NewPortRangeItem.
  unfoldable pub parse_range : String → Result BuildError RangeItem
  parse_range s = elim (l.cut s) [
    | none ↦ err (bad_port_range s)
    | some p ↦ elim (bound 0 p.0) [
      | none ↦ err (bad_port_range s)
      | some start ↦ elim (bound 0xFFFF p.1) [
        | none ↦ err (bad_port_range s)
        | some end ↦ ok (record { start = start; end = end })
      ]
    ]
  ]

  unfoldable pub parse_port_ranges : List String → Result BuildError (List RangeItem)
  parse_port_ranges [] = ok []
  parse_port_ranges (s ∷ ss) =
      let rest = parse_port_ranges ss in
      parse_range s >>= λ range. rest >>= λ ranges. ok (range ∷ ranges)

  unfoldable pub with_port_range :
      Bool
      → (RuleItem → DefaultRule → DefaultRule)
      → List String
      → DefaultRule
      → Result BuildError DefaultRule
  with_port_range is_source add [] r = ok r
  with_port_range is_source add (s ∷ ss) r =
      parse_port_ranges (s ∷ ss) >>= λ ranges. ok (add (port_range_item is_source ranges) r)

  -- The blocks of the wireless network, which need a router.
  unfoldable pub with_wifi : List String → List String → DefaultRule → DefaultRule
  with_wifi ssids bssids r = elim l.wifi_state [
    | none ↦ r
    | some state ↦
        with_list bssids (wifi_bssid_item state.1) add_item
          (with_list ssids (wifi_ssid_item state.0) add_item r)
  ]

  unfoldable pub with_adguard : List String → Option A → DefaultRule → DefaultRule
  with_adguard [] none r = r
  with_adguard [] (some matcher) r =
      add_destination_address (adguard_item l.to_lower (l.adguard_matches matcher)) r
  with_adguard (d ∷ ds) o r =
      add_destination_address
        (adguard_item l.to_lower (l.adguard_matches (l.wire.new_adguard (d ∷ ds)))) r
