-- ===== src/Route/LogicalRule/Meaning.antt =====
-- The formula of a logical rule (route/rule_abstract.go), over sub-rules that write to nothing but the
-- rule cache.
use sfa_provider.Prelude.{
  Bool, true, false, not, List, [], ◌∷◌, ◌≡◌, refl, ap, ◌∙◌, ◌⊎◌, inl, inr, any, all, All,
  if◌then◌else◌, Bool-cases,
}
use sfa_provider.Route.Context.{InboundContext, reset_rule_cache}
use sfa_provider.Route.DefaultRule.{DefaultRule, match_default}
use sfa_provider.Route.DefaultRule.Meaning.{PlainRule}
use sfa_provider.Route.DefaultRule.Matching.{match_default-flags}
use sfa_provider.Route.LogicalRule.{
  Mode, mode_and, mode_or, LogicalRule, all_rules, any_rules, match_logical,
}

-- A match on a reset cache changes nothing but the cache.
abbrev pub Keeps : (InboundContext → Bool × InboundContext) → Type 0
Keeps match =
    (m : InboundContext) → reset_rule_cache (match (reset_rule_cache m)).1 ≡ reset_rule_cache m

-- What a sub-rule answers on a reset cache.
abbrev pub answer :
    {R : Type 0} → (R → InboundContext → Bool × InboundContext) → InboundContext → R → Bool
answer match m rule = (match rule (reset_rule_cache m)).0

module _ {R : Type 0} (match : R → InboundContext → Bool × InboundContext) where
  abbrev Agrees : InboundContext → Bool → Bool × InboundContext → Type 0
  Agrees m b r = (r.0 ≡ b) × (reset_rule_cache r.1 ≡ reset_rule_cache m)

  answer-reset :
      (rules : List R) (m m' : InboundContext)
      → reset_rule_cache m' ≡ reset_rule_cache m
      → (all (answer match m') rules ≡ all (answer match m) rules)
        × (any (answer match m') rules ≡ any (answer match m) rules)
  answer-reset rules m m' e =
      (ap (λ x. all (λ r. (match r x).0) rules) e, ap (λ x. any (λ r. (match r x).0) rules) e)

  all_rules_lem :
      (rules : List R) (m : InboundContext)
      → All (λ r. Keeps (match r)) rules
      → Agrees m (all (answer match m) rules) (all_rules match rules m)
  unfolding all_rules
  all_rules_lem [] m k = (refl, refl)
  all_rules_lem (r ∷ rules) m k =
      go (Bool-cases (answer match m r)) (all_rules_lem rules (match r (reset_rule_cache m)).1 k.1)
    where
      go :
          (answer match m r ≡ true) ⊎ (answer match m r ≡ false)
          → Agrees
              (match r (reset_rule_cache m)).1
              (all (answer match (match r (reset_rule_cache m)).1) rules)
              (all_rules match rules (match r (reset_rule_cache m)).1)
          → Agrees m (all (answer match m) (r ∷ rules)) (all_rules match (r ∷ rules) m)
      go (inl e) ih =
          rw e
            (ih.0 ∙ (answer-reset rules m (match r (reset_rule_cache m)).1 (k.0 m)).0, ih.1 ∙ k.0 m)
      go (inr e) ih = rw e (refl, k.0 m)

  any_rules_lem :
      (rules : List R) (m : InboundContext)
      → All (λ r. Keeps (match r)) rules
      → Agrees m (any (answer match m) rules) (any_rules match rules m)
  unfolding any_rules
  any_rules_lem [] m k = (refl, refl)
  any_rules_lem (r ∷ rules) m k =
      go (Bool-cases (answer match m r)) (any_rules_lem rules (match r (reset_rule_cache m)).1 k.1)
    where
      go :
          (answer match m r ≡ true) ⊎ (answer match m r ≡ false)
          → Agrees
              (match r (reset_rule_cache m)).1
              (any (answer match (match r (reset_rule_cache m)).1) rules)
              (any_rules match rules (match r (reset_rule_cache m)).1)
          → Agrees m (any (answer match m) (r ∷ rules)) (any_rules match (r ∷ rules) m)
      go (inl e) ih = rw e (refl, k.0 m)
      go (inr e) ih =
          rw e
            (ih.0 ∙ (answer-reset rules m (match r (reset_rule_cache m)).1 (k.0 m)).1, ih.1 ∙ k.0 m)

  -- The Boolean formula of a logical rule.
  abbrev pub formula : LogicalRule R → InboundContext → Bool
  formula r m =
      let hit : Bool = elim r.mode [
        | mode_and ↦ all (answer match m) r.rules
        | mode_or ↦ any (answer match m) r.rules
      ] in
      if r.invert then not hit else hit

  -- A logical rule whose sub-rules change nothing but the cache answers by its formula over the
  -- answers that each sub-rule gives alone, and changes nothing but the cache either.
  pub match_logical_lem :
      (r : LogicalRule R) (m : InboundContext)
      → All (λ rule. Keeps (match rule)) r.rules
      → ((match_logical match r m).0 ≡ formula r m)
        × (reset_rule_cache (match_logical match r m).1 ≡ reset_rule_cache m)
  unfolding match_logical
  match_logical_lem r m k = by_mode r.mode
    where
      by_mode :
          (mode : Mode)
          → ((match_logical match (record r { mode = mode }) m).0
              ≡ formula (record r { mode = mode }) m)
            × (reset_rule_cache (match_logical match (record r { mode = mode }) m).1
                ≡ reset_rule_cache m)
      by_mode mode_and =
          let e = all_rules_lem r.rules m k in (ap (λ b. if r.invert then not b else b) e.0, e.1)
      by_mode mode_or =
          let e = any_rules_lem r.rules m k in (ap (λ b. if r.invert then not b else b) e.0, e.1)

-- Default rules of plain conditions change nothing but the cache.
pub default-Keeps : (r : DefaultRule) → PlainRule r → Keeps (match_default r)
default-Keeps r p m = ap reset_rule_cache (match_default-flags r (reset_rule_cache m) p)
