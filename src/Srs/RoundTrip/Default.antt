-- ===== src/Srs/RoundTrip/Default.antt =====
-- The round trip of a default rule: writeDefaultRule, then readDefaultRule.
use sfa_provider.Prelude.{
  ℕ, zero, suc, String, Option, Bool, true, false, not, List, [], ◌∷◌, ◌&&◌, ◌==◌, ℕ_key, ◌≡◌, refl,
  Result, ok, err, ◌>>=◌, is_empty, length, ◌≤◌, if◌then◌else◌, arith,
}
use sfa_provider.Srs.Wire.{IpSet, Wire, WireLaws}
use sfa_provider.Srs.Options.{DefaultOptions, no_options}
use sfa_provider.Srs.Writing.{write_items, set_of}
use sfa_provider.Srs.Reading.{read_item, read_default_rule}
use sfa_provider.Srs.RoundTrip.Segments.{Whole, ◌▸◌, listed, ended}
use sfa_provider.Srs.RoundTrip.Items.{
  domains-Segment, set-Segment, adguard-Segment, set_bytes, FitsSet, dumped, matcher_of, printed,
  adguard_of,
}
use sfa_provider.Srs.RoundTrip.Loaded.{loaded}

-- The values of a rule are ones that the format can hold.
pub record FitsDefault {M A R : Type 0} {w : Wire M A R} (laws : WireLaws w)
    (unstable recover : Bool) (r : DefaultOptions M A R) : Type 0 where
  pub query_type : laws.uint16s.Fits r.query_type
  pub network : laws.strings.Fits r.network
  pub matcher : laws.matcher.Fits (w.new_matcher r.domain r.domain_suffix (not unstable))
  pub domain_keyword : laws.strings.Fits r.domain_keyword
  pub domain_regex : laws.strings.Fits r.domain_regex
  pub source_ip_set :
      (set : IpSet R)
      → set_of w r.source_ip_cidr ≡ ok set
      → laws.uint64.Fits (length set.rr) × laws.FitsRanges set.rr
  pub ip_set :
      (set : IpSet R)
      → set_of w r.ip_cidr ≡ ok set
      → laws.uint64.Fits (length set.rr) × laws.FitsRanges set.rr
  pub source_port : laws.uint16s.Fits r.source_port
  pub source_port_range : laws.strings.Fits r.source_port_range
  pub port : laws.uint16s.Fits r.port
  pub port_range : laws.strings.Fits r.port_range
  pub process_name : laws.strings.Fits r.process_name
  pub process_path : laws.strings.Fits r.process_path
  pub package_name : laws.strings.Fits r.package_name
  pub wifi_ssid : laws.strings.Fits r.wifi_ssid
  pub wifi_bssid : laws.strings.Fits r.wifi_bssid
  pub adguard : laws.adguard.Fits (w.new_adguard r.adguard_domain)
  -- A rule for AdGuard domains cannot be recovered.
  pub recoverable : (recover && not (is_empty r.adguard_domain)) ≡ false

module _ {M A R : Type 0} (w : Wire M A R) (laws : WireLaws w) (unstable recover : Bool) where
  pub default-Whole :
      (r : DefaultOptions M A R) (source ips : Option (IpSet R))
      → FitsDefault laws unstable recover r
      → FitsSet w recover laws source
      → FitsSet w recover laws ips
      → Whole w recover
          (write_items w unstable r (set_bytes w recover 5 source) (set_bytes w recover 6 ips))
          no_options
          (loaded w unstable recover r source ips)
  unfolding write_items read_item
  default-Whole r source ips fits fits_source fits_ips =
      listed w recover w.uint16s laws.uint16s 0 at_query_type r.query_type fits.query_type refl
        (λ b. refl)
      ▸ (listed w recover w.strings laws.strings 1 at_network r.network fits.network refl
            (λ b. refl)
          ▸ (domains-Segment w recover laws unstable r.domain r.domain_suffix at_domains
                fits.matcher (λ b. refl)
              ▸ (listed w recover w.strings laws.strings 3 at_keyword r.domain_keyword
                    fits.domain_keyword refl (λ b. refl)
                  ▸ (listed w recover w.strings laws.strings 4 at_regex r.domain_regex
                        fits.domain_regex refl (λ b. refl)
                      ▸ (set-Segment w recover laws 5 source at_source fits_source refl (λ b. refl)
                          ▸ (set-Segment w recover laws 6 ips at_ips fits_ips refl (λ b. refl)
                              ▸ (listed w recover w.uint16s laws.uint16s 7 at_source_port
                                    r.source_port fits.source_port refl (λ b. refl)
                                  ▸ (listed w recover w.strings laws.strings 8 at_source_range
                                        r.source_port_range fits.source_port_range refl (λ b. refl)
                                      ▸ (listed w recover w.uint16s laws.uint16s 9 at_port r.port
                                            fits.port refl (λ b. refl)
                                          ▸ (listed w recover w.strings laws.strings 10 at_range
                                                r.port_range fits.port_range refl (λ b. refl)
                                              ▸ (listed w recover w.strings laws.strings 11
                                                    at_process r.process_name fits.process_name refl
                                                    (λ b. refl)
                                                  ▸ (listed w recover w.strings laws.strings 12
                                                        at_path r.process_path fits.process_path
                                                        refl (λ b. refl)
                                                      ▸ (listed w recover w.strings laws.strings 13
                                                            at_package r.package_name
                                                            fits.package_name refl (λ b. refl)
                                                          ▸ (listed w recover w.strings laws.strings
                                                            14 at_ssid r.wifi_ssid fits.wifi_ssid
                                                            refl (λ b. refl)
                                                            ▸ (listed w recover w.strings
                                                            laws.strings 15 at_bssid r.wifi_bssid
                                                            fits.wifi_bssid refl (λ b. refl)
                                                            ▸ (adguard-Segment w recover laws
                                                            r.adguard_domain at_adguard fits.adguard
                                                            fits.recoverable (λ b. refl)
                                                            ▸ ended w recover
                                                            (at_adguard
                                                            (adguard_of w recover r.adguard_domain))
                                                            r.invert))))))))))))))))
    where
      at_query_type : List ℕ → DefaultOptions M A R
      at_query_type v = record no_options { query_type = v }

      at_network : List String → DefaultOptions M A R
      at_network v = record (at_query_type r.query_type) { network = v }

      at_domains : Option M → List String → List String → DefaultOptions M A R
      at_domains m d s = record (at_network r.network) {
        domain_matcher = m;
        domain = d;
        domain_suffix = s;
      }

      matcher : Option M
      matcher = matcher_of w recover unstable r.domain r.domain_suffix

      at_keyword : List String → DefaultOptions M A R
      at_keyword v =
          record (at_domains matcher (dumped w recover matcher).0 (dumped w recover matcher).1) {
            domain_keyword = v;
          }

      at_regex : List String → DefaultOptions M A R
      at_regex v = record (at_keyword r.domain_keyword) { domain_regex = v }

      at_source : Option (IpSet R) → List String → DefaultOptions M A R
      at_source o v = record (at_regex r.domain_regex) { source_ip_set = o; source_ip_cidr = v }

      at_ips : Option (IpSet R) → List String → DefaultOptions M A R
      at_ips o v = record (at_source source (printed w recover source)) { ip_set = o; ip_cidr = v }

      at_source_port : List ℕ → DefaultOptions M A R
      at_source_port v = record (at_ips ips (printed w recover ips)) { source_port = v }

      at_source_range : List String → DefaultOptions M A R
      at_source_range v = record (at_source_port r.source_port) { source_port_range = v }

      at_port : List ℕ → DefaultOptions M A R
      at_port v = record (at_source_range r.source_port_range) { port = v }

      at_range : List String → DefaultOptions M A R
      at_range v = record (at_port r.port) { port_range = v }

      at_process : List String → DefaultOptions M A R
      at_process v = record (at_range r.port_range) { process_name = v }

      at_path : List String → DefaultOptions M A R
      at_path v = record (at_process r.process_name) { process_path = v }

      at_package : List String → DefaultOptions M A R
      at_package v = record (at_path r.process_path) { package_name = v }

      at_ssid : List String → DefaultOptions M A R
      at_ssid v = record (at_package r.package_name) { wifi_ssid = v }

      at_bssid : List String → DefaultOptions M A R
      at_bssid v = record (at_ssid r.wifi_ssid) { wifi_bssid = v }

      at_adguard : Option A → DefaultOptions M A R
      at_adguard v = record (at_bssid r.wifi_bssid) { adguard_domain_matcher = v }

if_same :
    {V : Type 0} (b : Bool) (p : V) {q q' x : V}
    → (q ≡ x → q' ≡ x)
    → (if b then p else q) ≡ x
    → (if b then p else q') ≡ x
if_same true p f h = h
if_same false p f h = f h

bind_ok :
    {E V W : Type 0} (y : Result E V) {f g : V → Result E W} {x : W}
    → ((v : V) → f v ≡ ok x → g v ≡ ok x)
    → (y >>= f) ≡ ok x
    → (y >>= g) ≡ ok x
bind_ok (ok v) f h = f v h
bind_ok (err e) f h = ground (arith, h)

-- More fuel gives the same rule.
module _ {M A R : Type 0} (w : Wire M A R) (recover : Bool) where
  pub more_fuel :
      (fuel more : ℕ) (r : DefaultOptions M A R) (bytes : List ℕ)
      (x : DefaultOptions M A R × List ℕ)
      → read_default_rule w recover fuel r bytes ≡ ok x
      → fuel ≤ more
      → read_default_rule w recover more r bytes ≡ ok x
  unfolding read_default_rule
  more_fuel zero more r bytes x h l = ground (arith, h)
  more_fuel (suc fuel) zero r bytes x h l = ground (arith, l)
  more_fuel (suc fuel) (suc more) r [] x h l = h
  more_fuel (suc fuel) (suc more) r (b ∷ bytes) x h l =
      if_same (b == 255) _
        (bind_ok (read_item w recover b r bytes)
          (λ next e. more_fuel fuel more next.0 next.1 x e (omega (arith, l))))
        h
