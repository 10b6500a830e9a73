-- ===== src/Route/Headless/QueryType.antt =====
-- What NewDefaultHeadlessRule of route/rule_headless.go does with `query_type`.
use sfa_provider.Prelude.{ℕ, String, Option, none, some, ap, Bool, true, List, ◌∷◌, ◌≡◌, refl, ok}
use sfa_provider.Srs.Options.{DefaultOptions, no_options, default_rule}
use sfa_provider.Route.Context.{InboundContext}
use sfa_provider.Route.DefaultRule.{DefaultRule}
use sfa_provider.Route.LogicalRule
use sfa_provider.Route.LogicalRule.{match_default_headless, default_headless}
use sfa_provider.Route.Builder.{
  Libraries, no_conditions, with_domain, with_regex, with_cidr, with_port_range, with_wifi,
  with_adguard,
}
use sfa_provider.Route.Headless.{
  new_headless_rule, new_default_headless_rule, is_valid_default, with_names, with_ports, with_host,
}

-- Without a condition on the host, nothing is added for one.
no_host :
    {M A R : Type 0} (l : Libraries M A R) (o : DefaultOptions M A R) (r : DefaultRule)
    → with_host l (record no_options { query_type = o.query_type; invert = o.invert }) r ≡ r
unfolding with_host with_wifi
no_host l o r = at l.wifi_state
  where
    at :
        (state : Option (String × String))
        → (elim state as (λ x. DefaultRule) [ none ↦ r | some s ↦ r ]) ≡ r
    at none = refl
    at (some s) = refl

-- A rule of a rule set whose only conditions are query types is valid and is built, and it matches
-- every connection and query, inverted or not.
pub query_type_ignored :
    {M A R : Type 0} (l : Libraries M A R) (type : ℕ) (types : List ℕ) (invert : Bool)
    → (r : LogicalRule.HeadlessRule) × (new_headless_rule l
          (default_rule (record no_options { query_type = type ∷ types; invert = invert }))
        ≡ ok r)
      × ((m : InboundContext) → r.match m ≡ (true, m))
unfolding new_headless_rule new_default_headless_rule is_valid_default with_names with_domain
    with_regex with_cidr with_ports with_port_range with_host with_wifi with_adguard
    match_default_headless
query_type_ignored l type types invert = (
  default_headless (no_conditions invert),
  ap (λ r. ok (default_headless r))
      (no_host l (record no_options { query_type = type ∷ types; invert = invert })
        (no_conditions invert)),
  λ m. refl,
)
