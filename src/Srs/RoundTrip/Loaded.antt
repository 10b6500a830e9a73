-- ===== src/Srs/RoundTrip/Loaded.antt =====
-- What reading a written rule set yields: the lists of domains and addresses of common/srs/binary.go
-- are replaced by matchers, and come back, as the libraries print them, if they are recovered.
use sfa_provider.Prelude.{
  ℕ, String, Option, none, some, Bool, List, [], ◌∷◌, ◌≡◌, refl, Result, ok, err, ◌>>=◌,
}
use sfa_provider.Srs.Wire.{IpSet, Wire}
use sfa_provider.Srs.Options.{
  DefaultOptions, HeadlessRule, default_rule, logical_rule, HeadlessRules, nil, cons,
}
use sfa_provider.Srs.Writing.{WriteError, set_of, write_cidr, write_ip_set}
use sfa_provider.Srs.RoundTrip.Items.{matcher_of, dumped, printed, adguard_of, set_bytes}

module _ {M A R : Type 0} (w : Wire M A R) (unstable recover : Bool) where
  abbrev pub loaded_set : List String → Result WriteError (Option (IpSet R))
  loaded_set [] = ok none
  loaded_set (v ∷ vs) = set_of w (v ∷ vs) >>= λ set. ok (some set)

  -- The rule, given its two address sets.
  abbrev pub loaded :
      DefaultOptions M A R → Option (IpSet R) → Option (IpSet R) → DefaultOptions M A R
  loaded r source ips = record {
    query_type = r.query_type;
    network = r.network;
    domain = (dumped w recover (matcher_of w recover unstable r.domain r.domain_suffix)).0;
    domain_suffix = (dumped w recover (matcher_of w recover unstable r.domain r.domain_suffix)).1;
    domain_keyword = r.domain_keyword;
    domain_regex = r.domain_regex;
    source_ip_cidr = printed w recover source;
    ip_cidr = printed w recover ips;
    source_port = r.source_port;
    source_port_range = r.source_port_range;
    port = r.port;
    port_range = r.port_range;
    process_name = r.process_name;
    process_path = r.process_path;
    package_name = r.package_name;
    wifi_ssid = r.wifi_ssid;
    wifi_bssid = r.wifi_bssid;
    adguard_domain = [];
    invert = r.invert;
    domain_matcher = matcher_of w recover unstable r.domain r.domain_suffix;
    source_ip_set = source;
    ip_set = ips;
    adguard_domain_matcher = adguard_of w recover r.adguard_domain;
  }

unfoldable mutual
  pub loaded_rule :
      {M A R : Type 0}
      → Wire M A R
      → Bool
      → Bool
      → HeadlessRule M A R
      → Result WriteError (HeadlessRule M A R)
  loaded_rule w unstable recover (default_rule r) =
      loaded_set w unstable recover r.source_ip_cidr >>= λ source.
      loaded_set w unstable recover r.ip_cidr >>= λ ips.
      ok (default_rule (loaded w unstable recover r source ips))
  loaded_rule w unstable recover (logical_rule mode rules invert) =
      loaded_rules w unstable recover rules >>= λ rs. ok (logical_rule mode rs invert)

  pub loaded_rules :
      {M A R : Type 0}
      → Wire M A R
      → Bool
      → Bool
      → HeadlessRules M A R
      → Result WriteError (HeadlessRules M A R)
  loaded_rules w unstable recover nil = ok nil
  loaded_rules w unstable recover (cons rule rules) = loaded_rule w unstable recover rule >>= λ r.
      loaded_rules w unstable recover rules >>= λ rs. ok (cons r rs)

module _ {M A R : Type 0} (w : Wire M A R) (unstable recover : Bool) where
  -- The bytes of a list of addresses are those of its set.
  pub write_cidr-loaded_set :
      (item_type : ℕ) (values : List String)
      → write_cidr w item_type values
        ≡ (loaded_set w unstable recover values >>= λ o. ok (set_bytes w recover item_type o))
  unfolding write_cidr
  write_cidr-loaded_set item_type [] = refl
  write_cidr-loaded_set item_type (v ∷ vs) = at (set_of w (v ∷ vs))
    where
      at :
          (x : Result WriteError (IpSet R))
          → (x >>= λ set. ok (item_type ∷ write_ip_set w set))
            ≡ ((x >>= λ set. ok (some set)) >>= λ o. ok (set_bytes w recover item_type o))
      at (ok set) = refl
      at (err e) = refl
