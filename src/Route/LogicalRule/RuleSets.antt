-- ===== src/Route/LogicalRule/RuleSets.antt =====
-- The rules of a rule set (route/rule_set_abstract.go), which run on one rule cache.
use sfa_provider.Prelude.{
  Bool, true, false, List, [], ◌∷◌, ◌++◌, ◌≡◌, refl, ap, ◌∙◌, arith, if◌then◌else◌,
}
use sfa_provider.Route.Context.{InboundContext, no_flags, with_flags, MatchFlags}
use sfa_provider.Route.Item.{RuleItem, Plain, test, match_any, match_all, marked}
use sfa_provider.Route.DefaultRule.{
  DefaultRule, match_default, try_group, try_groups, try_source_address, try_source_port,
  try_destination_address, try_destination_ip_cidr, try_destination_port, conclude,
}
use sfa_provider.Route.LogicalRule.{match_default_headless, default_headless, match_set}

-- A rule of conditions on the source port and on the destination port.
abbrev pub port_rule : List RuleItem → List RuleItem → DefaultRule
port_rule source destination = record {
  invert = false;
  items = [];
  source_address_items = [];
  source_port_items = source;
  destination_address_items = [];
  destination_ip_cidr_items = [];
  destination_port_items = destination;
  all_items = source ++ destination;
  rule_set_items = [];
}

abbrev headless : DefaultRule → InboundContext → Bool × InboundContext
headless = match_default_headless

module _ (m : InboundContext) (route : m.dns_fall_back ≡ false)
    (connection : m.fake_ip_filter ≡ false) where
  source_only :
      (c : RuleItem) (f : MatchFlags)
      → Plain c
      → f.source_port_match ≡ false
      → test m c ≡ false
      → (headless (port_rule (c ∷ []) []) (with_flags f m)).0 ≡ false
  unfolding match_default_headless match_default try_groups try_group try_source_address
      try_source_port try_destination_address try_destination_ip_cidr try_destination_port conclude
      match_any match_all
  source_only c f p u h =
      ground (arith, p.steady (with_flags (marked f) m), p.flagless m (marked f))

  -- Once the flag is set, the condition is not asked.
  source_found :
      (c : RuleItem) (f : MatchFlags)
      → f.source_port_match ≡ true
      → f.did_match ≡ true
      → (headless (port_rule (c ∷ []) []) (with_flags f m)).0 ≡ true
  unfolding match_default_headless match_default try_groups try_group try_source_address
      try_source_port try_destination_address try_destination_ip_cidr try_destination_port conclude
      match_any match_all
  source_found c f u d = ground arith

  abbrev found : MatchFlags
  found = record no_flags { source_port_match = true; did_match = true }

  source_then_destination :
      (a b : RuleItem)
      → Plain a
      → Plain b
      → test m a ≡ true
      → test m b ≡ false
      → headless (port_rule (a ∷ []) (b ∷ [])) (with_flags no_flags m) ≡ (false, with_flags found m)
  unfolding match_default_headless match_default try_groups try_group try_source_address
      try_source_port try_destination_address try_destination_ip_cidr try_destination_port conclude
      match_any match_all
  source_then_destination a b pa pb ha hb = ground (
    arith,
    pa.steady (with_flags (marked no_flags) m),
    pa.flagless m (marked no_flags),
    pb.steady (with_flags found m),
    pb.flagless m found,
  )

  -- A rule set of two rules matches though neither rule does: the first has a source port that
  -- fits and a destination port that does not, the second a source port that does not fit.
  pub rule_set_leaks :
      (a b c : RuleItem)
      → Plain a
      → Plain b
      → Plain c
      → test m a ≡ true
      → test m b ≡ false
      → test m c ≡ false
      → let first = port_rule (a ∷ []) (b ∷ []) in
        let second = port_rule (c ∷ []) [] in
        ((match_default_headless first (with_flags no_flags m)).0 ≡ false)
        × ((match_default_headless second (with_flags no_flags m)).0 ≡ false)
        × ((match_set
              (default_headless first ∷ default_headless second ∷ [])
              (with_flags no_flags m)).0
            ≡ true)
  unfolding match_set
  rule_set_leaks a b c pa pb pc ha hb hc =
      let e = source_then_destination a b pa pb ha hb in
      (
        ap (λ x. x.0) e,
        source_only c no_flags pc refl hc,
        ap
              (λ (x : Bool × InboundContext).
                (if x.0
                  then (true, x.1)
                  else match_set (default_headless (port_rule (c ∷ []) []) ∷ []) x.1).0)
              e
            ∙ rw (source_found c found refl refl) refl,
      )
