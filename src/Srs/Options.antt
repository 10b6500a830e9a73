-- ===== src/Srs/Options.antt =====
-- The rules of a rule set as options (option/rule_set.go): a default rule is a record of lists, and
-- a matcher or an address set that was read from a binary file stands beside the lists.
use sfa_provider.Prelude.{ℕ, suc, String, Option, none, Bool, false, List, []}
use sfa_provider.Srs.Wire.{IpSet}

-- option.DefaultHeadlessRule
pub record DefaultOptions (M A R : Type 0) : Type 0 where
  pub query_type : List ℕ
  pub network : List String
  pub domain : List String
  pub domain_suffix : List String
  pub domain_keyword : List String
  pub domain_regex : List String
  pub source_ip_cidr : List String
  pub ip_cidr : List String
  pub source_port : List ℕ
  pub source_port_range : List String
  pub port : List ℕ
  pub port_range : List String
  pub process_name : List String
  pub process_path : List String
  pub package_name : List String
  pub wifi_ssid : List String
  pub wifi_bssid : List String
  pub adguard_domain : List String
  pub invert : Bool
  pub domain_matcher : Option M
  pub source_ip_set : Option (IpSet R)
  pub ip_set : Option (IpSet R)
  pub adguard_domain_matcher : Option A

pub data Mode : Type 0 where
  mode_and mode_or : Mode

-- option.HeadlessRule, by its type, and the lists of them.
mutual
  pub data HeadlessRule (M A R : Type 0) : Type 0 where
    default_rule : DefaultOptions M A R → HeadlessRule M A R
    logical_rule : Mode → HeadlessRules M A R → Bool → HeadlessRule M A R

  pub data HeadlessRules (M A R : Type 0) : Type 0 where
    nil : HeadlessRules M A R
    cons : HeadlessRule M A R → HeadlessRules M A R → HeadlessRules M A R

abbrev pub count : {M A R : Type 0} → HeadlessRules M A R → ℕ
count nil = 0
count (cons rule rules) = suc (count rules)

-- The zero value.
abbrev pub no_options : {M A R : Type 0} → DefaultOptions M A R
no_options = record {
  query_type = [];
  network = [];
  domain = [];
  domain_suffix = [];
  domain_keyword = [];
  domain_regex = [];
  source_ip_cidr = [];
  ip_cidr = [];
  source_port = [];
  source_port_range = [];
  port = [];
  port_range = [];
  process_name = [];
  process_path = [];
  package_name = [];
  wifi_ssid = [];
  wifi_bssid = [];
  adguard_domain = [];
  invert = false;
  domain_matcher = none;
  source_ip_set = none;
  ip_set = none;
  adguard_domain_matcher = none;
}
