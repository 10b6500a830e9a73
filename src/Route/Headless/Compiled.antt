-- ===== src/Route/Headless/Compiled.antt =====
-- A rule set that was compiled to the binary format gives the rules of its source
-- (route/rule_headless.go after common/srs/binary.go).
use sfa_provider.Prelude.{
  String, Option, none, some, Bool, true, false, not, List, [], ◌∷◌, ◌&&◌, ◌≡◌, refl, sym, ap, ◌∙◌,
  is_empty, Result, ok, err, ◌>>=◌, if◌then◌else◌, arith,
}
use std.Path.{fun_ext}
use sfa_provider.Srs.Wire.{IpSet, Wire}
use sfa_provider.Srs.Options.{DefaultOptions}
use sfa_provider.Srs.Writing.{WriteError, set_of}
use sfa_provider.Srs.RoundTrip.Items.{matcher_of, dumped, printed, adguard_of}
use sfa_provider.Srs.RoundTrip.Loaded.{loaded_set, loaded}
use sfa_provider.Route.Items.{domain_item, domain_keyword_item, ip_cidr_item, network_item}
use sfa_provider.Route.Item.{RuleItem}
use sfa_provider.Route.DefaultRule.{DefaultRule}
use sfa_provider.Route.Builder.{
  Libraries, building, no_conditions, add_item, with_domain, with_cidr, with_adguard,
  add_destination_address, add_source_address, add_ip_cidr, with_regex, with_list,
}
use sfa_provider.Route.Headless.{
  is_none, with_names, with_ports, with_host, new_default_headless_rule, is_valid_default,
}

-- Options as they come from a source file: no matcher, no set.
pub record IsSource {M A R : Type 0} (o : DefaultOptions M A R) : Type 0 where
  pub domain_matcher : o.domain_matcher ≡ none
  pub source_ip_set : o.source_ip_set ≡ none
  pub ip_set : o.ip_set ≡ none
  pub adguard_domain_matcher : o.adguard_domain_matcher ≡ none

-- The legacy form of a domain matcher matches what the new form does.
abbrev pub SameMatches : {M A R : Type 0} → Libraries M A R → Type 0
SameMatches l =
    (domain domain_suffix : List String) (legacy : Bool) (host : String)
    → l.matches (l.wire.new_matcher domain domain_suffix legacy) host
      ≡ l.matches (l.wire.new_matcher domain domain_suffix false) host

pub ok_inj : {E V : Type 0} {a b : V} → ◌≡◌ {A = Result E V} (ok a) (ok b) → a ≡ b
ok_inj e = ground (arith, e)

four :
    {A B C D V : Type 0} (f : A → B → C → D → V) {a a' : A} {b b' : B} {c c' : C} {d d' : D}
    → a ≡ a'
    → b ≡ b'
    → c ≡ c'
    → d ≡ d'
    → f a b c d ≡ f a' b' c' d'
four f p q r s = cc

module _ {M A R : Type 0} (w : Wire M A R) (unstable : Bool) where
  dumped-none : (o : Option M) → dumped w false o ≡ ([], [])
  dumped-none none = refl
  dumped-none (some m) = refl

  printed-none : (o : Option (IpSet R)) → printed w false o ≡ []
  printed-none none = refl
  printed-none (some set) = refl

  is_none-loaded_set :
      (values : List String) (o : Option (IpSet R))
      → loaded_set w unstable false values ≡ ok o
      → is_none o ≡ is_empty values
  is_none-loaded_set [] o h = ground (arith, h)
  is_none-loaded_set (v ∷ vs) o h = at (set_of w (v ∷ vs)) h
    where
      at :
          (x : Result WriteError (IpSet R))
          → (x >>= λ set. ok (some set)) ≡ ok o
          → is_none o ≡ false
      at (ok s) e = ground (arith, e)
      at (err e') e = ground (arith, e)

  is_none-adguard_of :
      (domains : List String) → is_none (adguard_of w false domains) ≡ is_empty domains
  is_none-adguard_of [] = refl
  is_none-adguard_of (d ∷ ds) = refl

  absent_domains :
      (domain domain_suffix : List String) (m : Option M)
      → m ≡ none
      → ((is_empty (dumped w false (matcher_of w false unstable domain domain_suffix)).0
            && is_empty (dumped w false (matcher_of w false unstable domain domain_suffix)).1)
          && is_none (matcher_of w false unstable domain domain_suffix))
        ≡ ((is_empty domain && is_empty domain_suffix) && is_none m)
  absent_domains domain domain_suffix m e =
      at (is_empty domain && is_empty domain_suffix)
      ∙ ap (λ x. (is_empty domain && is_empty domain_suffix) && is_none x) (sym e)
    where
      written : Bool → Option M
      written b = if b then none else some (w.new_matcher domain domain_suffix (not unstable))

      at :
          (b : Bool)
          → ((is_empty (dumped w false (written b)).0 && is_empty (dumped w false (written b)).1)
              && is_none (written b))
            ≡ (b && true)
      at true = refl
      at false = refl

  absent_set :
      (values : List String) (set o : Option (IpSet R))
      → o ≡ none
      → loaded_set w unstable false values ≡ ok set
      → (is_empty (printed w false set) && is_none set) ≡ (is_empty values && is_none o)
  absent_set values set o e h =
      ground (arith, ap is_empty (printed-none set), is_none-loaded_set values set h, ap is_none e)

  absent_adguard :
      (domains : List String) (o : Option A)
      → o ≡ none
      → is_none (adguard_of w false domains) ≡ (is_empty domains && is_none o)
  absent_adguard domains o e = ground (arith, is_none-adguard_of domains, ap is_none e)

  -- A compiled rule is valid if its source is.
  pub is_valid_default-loaded :
      (o : DefaultOptions M A R) (source ips : Option (IpSet R))
      → IsSource o
      → loaded_set w unstable false o.source_ip_cidr ≡ ok source
      → loaded_set w unstable false o.ip_cidr ≡ ok ips
      → is_valid_default (loaded w unstable false o source ips) ≡ is_valid_default o
  unfolding is_valid_default
  is_valid_default-loaded o source ips s h k =
      four
        (λ a b c d. not (
          a
          && b
          && c
          && d
          && is_empty o.query_type
          && is_empty o.network
          && is_empty o.domain_keyword
          && is_empty o.domain_regex
          && is_empty o.source_port
          && is_empty o.source_port_range
          && is_empty o.port
          && is_empty o.port_range
          && is_empty o.process_name
          && is_empty o.process_path
          && is_empty o.package_name
          && is_empty o.wifi_ssid
          && is_empty o.wifi_bssid))
        (absent_domains o.domain o.domain_suffix o.domain_matcher s.domain_matcher)
        (absent_set o.source_ip_cidr source o.source_ip_set s.source_ip_set h)
        (absent_set o.ip_cidr ips o.ip_set s.ip_set k)
        (absent_adguard o.adguard_domain o.adguard_domain_matcher s.adguard_domain_matcher)

module _ {M A R : Type 0} (l : Libraries M A R) (same : SameMatches l) (unstable : Bool) where
  with_domain-loaded :
      (domain domain_suffix : List String) (matcher : Option M) (r : DefaultRule)
      → matcher ≡ none
      → with_domain l
          (dumped l.wire false (matcher_of l.wire false unstable domain domain_suffix)).0
          (dumped l.wire false (matcher_of l.wire false unstable domain domain_suffix)).1
          (matcher_of l.wire false unstable domain domain_suffix)
          r
        ≡ with_domain l domain domain_suffix matcher r
  unfolding with_domain
  with_domain-loaded domain domain_suffix matcher r e =
      at (is_empty domain && is_empty domain_suffix)
      ∙ ap (λ m. with_domain l domain domain_suffix m r) (sym e)
    where
      written : Bool → Option M
      written b = if b then none else some (l.wire.new_matcher domain domain_suffix (not unstable))

      at :
          (b : Bool)
          → with_domain l
              (dumped l.wire false (written b)).0
              (dumped l.wire false (written b)).1
              (written b)
              r
            ≡ (if b
                then r
                else add_destination_address
                    (domain_item l.to_lower
                      (l.matches (l.wire.new_matcher domain domain_suffix false)))
                    r)
      at true = refl
      at false =
          ap (λ f. add_destination_address (domain_item l.to_lower f) r)
            (fun_ext (λ host. same domain domain_suffix (not unstable) host))

  with_cidr-loaded :
      (is_source : Bool) (add : RuleItem → DefaultRule → DefaultRule) (values : List String)
      (set o : Option (IpSet R)) (r : DefaultRule)
      → o ≡ none
      → loaded_set l.wire unstable false values ≡ ok set
      → with_cidr l is_source add (printed l.wire false set) set r
        ≡ with_cidr l is_source add values o r
  unfolding with_cidr
  with_cidr-loaded is_source add values set o r e h =
      ap (λ v. with_cidr l is_source add v set r) (printed-none l.wire unstable set)
      ∙ from_list values h
    where
      from_set :
          (x : Result WriteError (IpSet R))
          → (x >>= λ set. ok (some set)) ≡ ok set
          → with_cidr l is_source add [] set r
            ≡ (building x >>= λ set. ok (add (ip_cidr_item is_source (l.in_set set)) r))
      from_set (ok y) k = ap (λ o. with_cidr l is_source add [] o r) (sym (ok_inj k))
      from_set (err y) k = ground (arith, k)

      from_list :
          (values : List String)
          → loaded_set l.wire unstable false values ≡ ok set
          → with_cidr l is_source add [] set r ≡ with_cidr l is_source add values o r
      from_list [] k = ap (λ o. with_cidr l is_source add [] o r) (sym (ok_inj k) ∙ sym e)
      from_list (v ∷ vs) k = from_set (set_of l.wire (v ∷ vs)) k

  with_adguard-loaded :
      (domains : List String) (o : Option A) (r : DefaultRule)
      → o ≡ none
      → with_adguard l [] (adguard_of l.wire false domains) r ≡ with_adguard l domains o r
  unfolding with_adguard
  with_adguard-loaded [] o r e = ap (λ x. with_adguard l [] x r) (sym e)
  with_adguard-loaded (d ∷ ds) o r e = refl

  -- Built from the compiled options, a default rule is the one that is built from the source.
  pub new_default_headless_rule-loaded :
      (o : DefaultOptions M A R) (source ips : Option (IpSet R))
      → IsSource o
      → loaded_set l.wire unstable false o.source_ip_cidr ≡ ok source
      → loaded_set l.wire unstable false o.ip_cidr ≡ ok ips
      → new_default_headless_rule l (loaded l.wire unstable false o source ips)
        ≡ new_default_headless_rule l o
  unfolding new_default_headless_rule with_names with_ports with_host
  new_default_headless_rule-loaded o source ips s h k =
      four
        (λ domain source ips adguard.
          with_regex l o.domain_regex (
            with_list l o.domain_keyword (domain_keyword_item l.to_lower l.contains)
              add_destination_address
              (domain (with_list l o.network network_item add_item (no_conditions o.invert))))
          >>= λ r1. source r1 >>= λ r2.
              ips r2 >>= λ r3. with_ports l o r3 >>= λ r4. ok (adguard (with_host l o r4)))
        (fun_ext
          (λ r. with_domain-loaded o.domain o.domain_suffix o.domain_matcher r s.domain_matcher))
        (fun_ext (λ r.
          with_cidr-loaded true add_source_address o.source_ip_cidr source o.source_ip_set r
            s.source_ip_set h))
        (fun_ext (λ r. with_cidr-loaded false add_ip_cidr o.ip_cidr ips o.ip_set r s.ip_set k))
        (fun_ext (λ r.
          with_adguard-loaded o.adguard_domain o.adguard_domain_matcher r s.adguard_domain_matcher))
