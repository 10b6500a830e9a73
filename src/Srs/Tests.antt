-- ===== src/Srs/Tests.antt =====
-- A rule set of two levels, written and read in a small format (common/srs).
use sfa_provider.Prelude.{
  ◌&&◌, Bool, ℕ, zero, suc, String, Option, none, some, Bool, true, false, not, List, [], ◌∷◌, ◌++◌,
  ◌≡◌, refl, sym, ap, ◌∙◌, Result, ok, err, length, length-append, ◌+◌, ◌≤◌, ◌==◌, ℕ_key,
  string_key, if◌then◌else◌, arith,
}
use mathlib.Core.List.{map, append_assoc}
use sfa_provider.Srs.Wire.{Codec, CodecLaws, IpSet, Wire, WireLaws, concat_map}
use sfa_provider.Srs.Options.{
  DefaultOptions, Mode, mode_and, mode_or, HeadlessRule, default_rule, logical_rule, HeadlessRules,
  nil, cons, count, no_options,
}
use sfa_provider.Srs.Writing.{
  write, write_rules, write_default_rule, write_cidr, set_of, parse_ranges, write_item,
  write_domains, write_ip_set, write_adguard,
}
use sfa_provider.Srs.Reading.{read, stuck}
use sfa_provider.Srs.RoundTrip.Loaded.{loaded_rules}
use sfa_provider.Srs.RoundTrip.Rules.{Both, FitsRules}
use sfa_provider.Srs.RoundTrip.Default.{FitsDefault}
use sfa_provider.Srs.RoundTrip.Files.{read-write}
use sfa_provider.Srs.Termination.{read_returns}
use sfa_provider.Srs.Tests.Format.{wire, wire-WireLaws}
pub mod Format

-- One rule for a domain and a network of addresses, one that holds it in an or.
abbrev pub site : DefaultOptions (List String) (List String) ℕ
site = record no_options {
  domain = "example.org" ∷ [];
  ip_cidr = "10.0.0.0/8" ∷ [];
  port = 53 ∷ 80 ∷ [];
  invert = true;
}

abbrev pub tool : DefaultOptions (List String) (List String) ℕ
tool = record no_options { network = "tcp" ∷ []; process_name = "curl" ∷ [] }

abbrev pub rules : HeadlessRules (List String) (List String) ℕ
rules =
    cons (logical_rule mode_or (cons (default_rule site) (cons (default_rule tool) nil)) false)
      (cons (default_rule tool) nil)

abbrev pub written : List ℕ
written =
    0x53 ∷ 0x52 ∷ 0x53 ∷ 2 ∷ 2 ∷ 1 ∷ 1 ∷ 2 ∷ 0 ∷ 2 ∷ 1 ∷ 2 ∷ 6 ∷ 1 ∷ 1 ∷ 3 ∷ 9 ∷ 2 ∷ 53 ∷ 80 ∷ 255
    ∷ 1 ∷ 0 ∷ 1 ∷ 1 ∷ 1 ∷ 11 ∷ 1 ∷ 0 ∷ 255 ∷ 0 ∷ 0 ∷ 0 ∷ 1 ∷ 1 ∷ 1 ∷ 11 ∷ 1 ∷ 0 ∷ 255 ∷ 0 ∷ []

pub write_example : write wire true rules ≡ ok written
unfolding write write_rules write_default_rule write_cidr set_of parse_ranges write_item
    write_domains write_ip_set write_adguard
write_example = refl

nothing_lost : (recover : Bool) → (recover && false) ≡ false
nothing_lost true = refl
nothing_lost false = refl

site-FitsDefault : (recover : Bool) → FitsDefault wire-WireLaws true recover site
unfolding set_of parse_ranges
site-FitsDefault recover = record {
  query_type = refl;
  network = refl;
  matcher = refl;
  domain_keyword = refl;
  domain_regex = refl;
  source_ip_set = λ set e. (ground (arith, e), tt);
  ip_set = λ set e. (ground (arith, e), tt);
  source_port = refl;
  source_port_range = refl;
  port = refl;
  port_range = refl;
  process_name = refl;
  process_path = refl;
  package_name = refl;
  wifi_ssid = refl;
  wifi_bssid = refl;
  adguard = refl;
  recoverable = nothing_lost recover;
}

tool-FitsDefault : (recover : Bool) → FitsDefault wire-WireLaws true recover tool
unfolding set_of parse_ranges
tool-FitsDefault recover = record {
  query_type = refl;
  network = refl;
  matcher = refl;
  domain_keyword = refl;
  domain_regex = refl;
  source_ip_set = λ set e. (ground (arith, e), tt);
  ip_set = λ set e. (ground (arith, e), tt);
  source_port = refl;
  source_port_range = refl;
  port = refl;
  port_range = refl;
  process_name = refl;
  process_path = refl;
  package_name = refl;
  wifi_ssid = refl;
  wifi_bssid = refl;
  adguard = refl;
  recoverable = nothing_lost recover;
}

pub rules-FitsRules : (recover : Bool) → FitsRules wire-WireLaws true recover rules
unfolding FitsRules
rules-FitsRules recover = (
  (omega arith, (site-FitsDefault recover, (tool-FitsDefault recover, tt))),
  (tool-FitsDefault recover, tt),
)

-- The rules as they are read: the lists of domains and addresses beside their matchers.
abbrev loaded_site : DefaultOptions (List String) (List String) ℕ
loaded_site = record site {
  domain_matcher = some ("example.org" ∷ []);
  ip_set = some (record { rr = 3 ∷ [] });
}

abbrev loaded : HeadlessRules (List String) (List String) ℕ
loaded =
    cons
      (logical_rule mode_or (cons (default_rule loaded_site) (cons (default_rule tool) nil)) false)
      (cons (default_rule tool) nil)

read-write_example : read wire true written ≡ ok loaded
unfolding loaded_rules write write_rules write_default_rule write_cidr set_of parse_ranges
    write_item write_domains write_ip_set write_adguard
read-write_example =
    read-write wire wire-WireLaws true true rules (omega arith) (rules-FitsRules true)

-- A file that is cut off.
read_returns_example : ¬ (read wire false (0x53 ∷ 0x52 ∷ 0x53 ∷ 1 ∷ 200 ∷ 1 ∷ 0 ∷ []) ≡ err stuck)
read_returns_example =
    read_returns wire wire-WireLaws false (0x53 ∷ 0x52 ∷ 0x53 ∷ 1 ∷ 200 ∷ 1 ∷ 0 ∷ [])
