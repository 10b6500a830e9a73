-- ===== src/Route/Headless/Files.antt =====
-- A rule set that was compiled to the binary format gives the rules of its source: the rules of
-- rules (route/rule_headless.go after common/srs/binary.go).
use sfa_provider.Prelude.{
  ℕ, Option, Bool, false, List, ◌≡◌, refl, sym, ap, ◌∙◌, Result, ok, err, ◌>>=◌, arith,
}
use sfa_provider.Srs.Wire.{IpSet, WireLaws}
use sfa_provider.Srs.Options
use sfa_provider.Srs.Options.{
  DefaultOptions, HeadlessRules, nil, cons, count, default_rule, logical_rule,
}
use sfa_provider.Srs.Writing.{WriteError, write}
use sfa_provider.Srs.Reading.{read}
use sfa_provider.Srs.RoundTrip.Loaded.{loaded_set, loaded, loaded_rule, loaded_rules}
use sfa_provider.Srs.RoundTrip.Rules.{Both, FitsRules}
use sfa_provider.Srs.RoundTrip.Files.{read-write}
use sfa_provider.Route.Builder.{Libraries}
use sfa_provider.Route.Headless.{
  has_rules, is_valid, all_valid, new_headless_rule, new_headless_rules,
}
use sfa_provider.Route.Headless.Compiled.{
  ok_inj, IsSource, SameMatches, is_valid_default-loaded, new_default_headless_rule-loaded,
}

-- Every default rule comes from a source file.
unfoldable mutual
  pub IsSourceRule : {M A R : Type 0} → Options.HeadlessRule M A R → Type 0
  IsSourceRule (default_rule o) = IsSource o
  IsSourceRule (logical_rule mode rules invert) = IsSourceRules rules

  pub IsSourceRules : {M A R : Type 0} → HeadlessRules M A R → Type 0
  IsSourceRules nil = Unit
  IsSourceRules (cons rule rules) = IsSourceRule rule × IsSourceRules rules

module _ {M A R : Type 0} (l : Libraries M A R) where
  -- A rule that was loaded, where it was, is built as its source is, and is valid if that is.
  abbrev RuleKept :
      Result WriteError (Options.HeadlessRule M A R) → Options.HeadlessRule M A R → Type 0
  RuleKept (ok rule') rule =
      (new_headless_rule l rule' ≡ new_headless_rule l rule) × (is_valid rule' ≡ is_valid rule)
  RuleKept (err e) rule = Unit

  abbrev RulesKept : Result WriteError (HeadlessRules M A R) → HeadlessRules M A R → Type 0
  RulesKept (ok rules') rules =
      (new_headless_rules l rules' ≡ new_headless_rules l rules)
      × (all_valid rules' ≡ all_valid rules)
      × (has_rules rules' ≡ has_rules rules)
  RulesKept (err e) rules = Unit

  default-RuleKept :
      (same : SameMatches l) (unstable : Bool) (o : DefaultOptions M A R)
      → IsSource o
      → RuleKept (loaded_rule l.wire unstable false (default_rule o)) (default_rule o)
  unfolding loaded_rule new_headless_rule is_valid
  default-RuleKept same unstable o s =
      at (loaded_set l.wire unstable false o.source_ip_cidr)
        (loaded_set l.wire unstable false o.ip_cidr) refl refl
    where
      at :
          (x y : Result WriteError (Option (IpSet R)))
          → loaded_set l.wire unstable false o.source_ip_cidr ≡ x
          → loaded_set l.wire unstable false o.ip_cidr ≡ y
          → RuleKept
              (x >>= λ source.
                y >>= λ ips. ok (default_rule (loaded l.wire unstable false o source ips)))
              (default_rule o)
      at (err e) y h k = tt
      at (ok source) (err e) h k = tt
      at (ok source) (ok ips) h k =
          let v = is_valid_default-loaded l.wire unstable o source ips s h k in
          let b = new_default_headless_rule-loaded l same unstable o source ips s h k in
          (simp (v, b), v)

  logical-RuleKept :
      (x : Result WriteError (HeadlessRules M A R)) (mode : Options.Mode)
      (rules : HeadlessRules M A R) (invert : Bool)
      → RulesKept x rules
      → RuleKept (x >>= λ rs. ok (logical_rule mode rs invert)) (logical_rule mode rules invert)
  unfolding new_headless_rule is_valid
  logical-RuleKept (ok rs) mode rules invert h = (simp (h.0, h.1, h.2), simp (h.1, h.2))
  logical-RuleKept (err e) mode rules invert h = tt

  cons-RulesKept :
      (x : Result WriteError (Options.HeadlessRule M A R))
      (y : Result WriteError (HeadlessRules M A R)) (rule : Options.HeadlessRule M A R)
      (rules : HeadlessRules M A R)
      → RuleKept x rule
      → RulesKept y rules
      → RulesKept (x >>= λ r. y >>= λ rs. ok (cons r rs)) (cons rule rules)
  unfolding new_headless_rules all_valid
  cons-RulesKept (ok r) (ok rs) rule rules h k = (simp (h.0, k.0), simp (h.1, k.1), refl)
  cons-RulesKept (ok r) (err e) rule rules h k = tt
  cons-RulesKept (err e) y rule rules h k = tt

mutual
  unfolding loaded_rule IsSourceRule new_headless_rule is_valid

  rule_kept :
      {M A R : Type 0} (l : Libraries M A R) (same : SameMatches l) (unstable : Bool)
      (rule : Options.HeadlessRule M A R)
      → IsSourceRule rule
      → RuleKept l (loaded_rule l.wire unstable false rule) rule
  rule_kept l same unstable (default_rule o) s = default-RuleKept l same unstable o s
  rule_kept l same unstable (logical_rule mode rules invert) s =
      logical-RuleKept l (loaded_rules l.wire unstable false rules) mode rules invert
        (rules_kept l same unstable rules s)

  rules_kept :
      {M A R : Type 0} (l : Libraries M A R) (same : SameMatches l) (unstable : Bool)
      (rules : HeadlessRules M A R)
      → IsSourceRules rules
      → RulesKept l (loaded_rules l.wire unstable false rules) rules
  rules_kept l same unstable nil s = (refl, refl, refl)
  rules_kept l same unstable (cons rule rules) s =
      cons-RulesKept l (loaded_rule l.wire unstable false rule)
        (loaded_rules l.wire unstable false rules) rule rules (rule_kept l same unstable rule s.0)
        (rules_kept l same unstable rules s.1)

module _ {M A R : Type 0} (l : Libraries M A R) (laws : WireLaws l.wire) (same : SameMatches l)
    (unstable : Bool) where
  -- Where the legacy form of a domain matcher matches what the new form does: a rule set of a source
  -- file whose values the binary format can hold, once written, is read, and from what is read the
  -- same matching rules are built, or building fails with the same error, as from the source.
  pub compiled_rules_same :
      (rules : HeadlessRules M A R) (bytes : List ℕ)
      → IsSourceRules rules
      → laws.uvarint.Fits (count rules)
      → FitsRules laws unstable false rules
      → write l.wire unstable rules ≡ ok bytes
      → (loaded : HeadlessRules M A R) × (read l.wire false bytes ≡ ok loaded)
        × (new_headless_rules l loaded ≡ new_headless_rules l rules)
  compiled_rules_same rules bytes s fits_count fits e =
      at (write l.wire unstable rules) (loaded_rules l.wire unstable false rules) e
        (read-write l.wire laws unstable false rules fits_count fits)
        (rules_kept l same unstable rules s)
    where
      at :
          (x : Result WriteError (List ℕ)) (y : Result WriteError (HeadlessRules M A R))
          → x ≡ ok bytes
          → Both (λ bytes rs. read l.wire false bytes ≡ ok rs) x y
          → RulesKept l y rules
          → (loaded : HeadlessRules M A R) × (read l.wire false bytes ≡ ok loaded)
            × (new_headless_rules l loaded ≡ new_headless_rules l rules)
      at (ok b) (ok rs) e h k = (rs, ap (read l.wire false) (sym (ok_inj e)) ∙ h, k.0)
      at (ok b) (err f) e h k = elim h [ ]
      at (err f) y e h k = ground (arith, e)
