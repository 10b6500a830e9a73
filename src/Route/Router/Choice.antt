-- ===== src/Route/Router/Choice.antt =====
-- The loop of match0 (route/router.go) for a connection whose destination is not resolved on the way.
use sfa_provider.Prelude.{
  String, Option, none, some, Bool, false, List, [], ◌∷◌, ◌≡◌, refl, sym, ap, ◌∙◌, inl, inr, All,
  Bool-cases, if◌then◌else◌, arith,
}
use sfa_provider.FakeIp.Addr.{Addr}
use sfa_provider.Route.Context.{InboundContext, reset_rule_cache}
use sfa_provider.Route.LogicalRule.Meaning.{Keeps}
use sfa_provider.Route.Router.{
  Rule, ResolveStatus, not_needed, wanted, resolved, failed, is_wanted, is_resolved_status,
  initial_status, State, visit, step, choose, finish, match0,
}

module _ {O : Type 0} (lookup_default : InboundContext → Option (List Addr))
    (outbound : String → Option O) where
  -- The outbound of a rule for a connection, whatever the rules before it did: it is enabled, it
  -- matches on a reset cache, and its outbound is there.
  abbrev pub routes : InboundContext → Rule → Option O
  routes m rule =
      if rule.disabled
      then none
      else if (rule.match (reset_rule_cache m)).0
      then outbound rule.outbound
      else none

  abbrev tried : Rule → InboundContext → Option O
  tried rule m = if (rule.match (reset_rule_cache m)).0 then outbound rule.outbound else none

  -- The first such rule.
  pub first_route : List Rule → InboundContext → Option (Rule × O)
  first_route [] m = none
  first_route (rule ∷ rules) m = elim (routes m rule) [
    | some o ↦ some (rule, o)
    | none ↦ first_route rules m
  ]

  first_route-reset :
      (rules : List Rule) (m x : InboundContext)
      → reset_rule_cache x ≡ reset_rule_cache m
      → routes x ≡ routes m
  first_route-reset rules m x e =
      ap
        (λ y rule.
          if rule.disabled then none else if (rule.match y).0 then outbound rule.outbound else none)
        e

  visit-skip :
      (rule : Rule) (st : ResolveStatus) (m : InboundContext)
      → is_wanted st ≡ false
      → visit lookup_default outbound rule (st, m) ≡ (
        if (rule.match (reset_rule_cache m)).0 then outbound rule.outbound else none,
        (st, (rule.match (reset_rule_cache m)).1),
      )
  unfolding visit
  visit-skip rule not_needed m h = ground arith
  visit-skip rule resolved m h = ground arith
  visit-skip rule failed m h = ground arith
  visit-skip rule wanted m h = cc

  -- A round that resolves nothing.
  record Stepped (rule : Rule) (st : ResolveStatus) (m x : InboundContext) : Type 0 where
    after : InboundContext
    stepped : step lookup_default outbound rule (st, x) ≡ (routes m rule, (st, after))
    same : reset_rule_cache after ≡ reset_rule_cache m

  step_lem :
      (rule : Rule) (st : ResolveStatus) (m x : InboundContext)
      → is_wanted st ≡ false
      → Keeps rule.match
      → reset_rule_cache x ≡ reset_rule_cache m
      → Stepped rule st m x
  unfolding step
  step_lem rule st m x h k e = elim (Bool-cases rule.disabled) [
    | inl d ↦ record {
      after = x;
      stepped =
          ap (λ b. if b then (none, (st, x)) else visit lookup_default outbound rule (st, x)) d
          ∙ sym (ap (λ b. (if b then none else tried rule m, (st, x))) d);
      same = e;
    }
    | inr d ↦ record {
      after = (rule.match (reset_rule_cache m)).1;
      stepped =
          ap (λ b. if b then (none, (st, x)) else visit lookup_default outbound rule (st, x)) d
          ∙ visit-skip rule st x h
          ∙ ap
              (λ y.
                (if (rule.match y).0 then outbound rule.outbound else none, (st, (rule.match y).1)))
              e
          ∙ sym (
              ap
                (λ b. (if b then none else tried rule m, (st, (rule.match (reset_rule_cache m)).1)))
                d);
      same = k m;
    }
  ]

  abbrev Chosen : List Rule → ResolveStatus → InboundContext → Option (Rule × O) × State → Type 0
  Chosen rules st m r =
      (r.0 ≡ first_route rules m) × (r.1.0 ≡ st) × (reset_rule_cache r.1.1 ≡ reset_rule_cache m)

  -- What the loop does with the result of a round.
  abbrev go_on : Rule → List Rule → Option O × State → Option (Rule × O) × State
  go_on rule rules (some o, s) = (some (rule, o), s)
  go_on rule rules (none, s) = choose lookup_default outbound rules s

  abbrev first_of_rest : Rule → List Rule → InboundContext → Option O → Option (Rule × O)
  first_of_rest rule rules m (some o) = some (rule, o)
  first_of_rest rule rules m none = first_route rules m

  go_on_lem :
      (rule : Rule) (rules : List Rule) (st : ResolveStatus) (m y : InboundContext) (f : Option O)
      → reset_rule_cache y ≡ reset_rule_cache m
      → Chosen rules st m (choose lookup_default outbound rules (st, y))
      → ((go_on rule rules (f, (st, y))).0 ≡ first_of_rest rule rules m f)
        × ((go_on rule rules (f, (st, y))).1.0 ≡ st)
        × (reset_rule_cache (go_on rule rules (f, (st, y))).1.1 ≡ reset_rule_cache m)
  go_on_lem rule rules st m y (some o) e ih = (refl, refl, e)
  go_on_lem rule rules st m y none e ih = ih

  choose-cons :
      (rule : Rule) (rules : List Rule) (s : State)
      → choose lookup_default outbound (rule ∷ rules) s
        ≡ go_on rule rules (step lookup_default outbound rule s)
  unfolding choose
  choose-cons rule rules s = ground arith

  first_route-cons :
      (rule : Rule) (rules : List Rule) (m : InboundContext)
      → first_route (rule ∷ rules) m ≡ first_of_rest rule rules m (routes m rule)
  unfolding first_route
  first_route-cons rule rules m = ground arith

  choose_lem :
      (rules : List Rule) (st : ResolveStatus) (m x : InboundContext)
      → is_wanted st ≡ false
      → All (λ r. Keeps r.match) rules
      → reset_rule_cache x ≡ reset_rule_cache m
      → Chosen rules st m (choose lookup_default outbound rules (st, x))
  unfolding choose first_route
  choose_lem [] st m x h k e = (refl, refl, e)
  choose_lem (rule ∷ rules) st m x h k e =
      let s = step_lem rule st m x h k.0 e in
      rw (choose-cons rule rules (st, x), first_route-cons rule rules m)
        (rw s.stepped (
          go_on_lem rule rules st m s.after (routes m rule) s.same
            (choose_lem rules st m s.after h k.1 s.same)))

  abbrev pub named : Option (Rule × O) → O → Option Rule × O
  named (some (rule, o)) default_outbound = (some rule, o)
  named none default_outbound = (none, default_outbound)

  abbrev ending :
      (O → InboundContext → Bool) → O → Option (Rule × O) → State → Option Rule × O × InboundContext
  ending must_use_ip default_outbound (some (rule, o)) s =
      (some rule, o, finish lookup_default outbound must_use_ip o s)
  ending must_use_ip default_outbound none s =
      (none, default_outbound, finish lookup_default outbound must_use_ip default_outbound s)

  initial-unresolved : (m : InboundContext) → is_resolved_status (initial_status m) ≡ false
  initial-unresolved m = ground arith

  finish-unresolved :
      (must_use_ip : O → InboundContext → Bool) (o : O) (st : ResolveStatus) (y : InboundContext)
      → is_resolved_status st ≡ false
      → finish lookup_default outbound must_use_ip o (st, y) ≡ y
  finish-unresolved must_use_ip o st y e = ground arith

  match0-ending :
      (rules : List Rule) (must_use_ip : O → InboundContext → Bool) (default_outbound : O)
      (m : InboundContext)
      → match0 lookup_default outbound rules must_use_ip default_outbound m
        ≡ ending must_use_ip default_outbound
            (choose lookup_default outbound rules (initial_status m, m)).0
            (choose lookup_default outbound rules (initial_status m, m)).1
  unfolding match0
  match0-ending rules must_use_ip default_outbound m =
      by_found (choose lookup_default outbound rules (initial_status m, m)).0
    where
      by_found :
          (f : Option (Rule × O))
          → (elim f [
            | some (rule, o) ↦ (
              some rule,
              o,
              finish lookup_default outbound must_use_ip o
                  (choose lookup_default outbound rules (initial_status m, m)).1,
            )
            | none ↦ (
              none,
              default_outbound,
              finish lookup_default outbound must_use_ip default_outbound
                  (choose lookup_default outbound rules (initial_status m, m)).1,
            )
          ])
            ≡ ending must_use_ip default_outbound f
                (choose lookup_default outbound rules (initial_status m, m)).1
      by_found none = refl
      by_found (some p) = refl

  ending_lem :
      (must_use_ip : O → InboundContext → Bool) (default_outbound : O) (f : Option (Rule × O))
      (st : ResolveStatus) (y : InboundContext)
      → is_resolved_status st ≡ false
      → ending must_use_ip default_outbound f (st, y)
        ≡ ((named f default_outbound).0, (named f default_outbound).1, y)
  ending_lem must_use_ip default_outbound none st y e =
      rw (finish-unresolved must_use_ip default_outbound st y e) refl
  ending_lem must_use_ip default_outbound (some p) st y e =
      rw (finish-unresolved must_use_ip p.1 st y e) refl

  -- Where no destination has to be resolved and the rules change nothing but the cache, match0
  -- takes the first enabled rule that matches by itself and whose outbound exists, or else the
  -- default outbound, and hands on the connection as it was but for the cache.
  pub match0_lem :
      (rules : List Rule) (must_use_ip : O → InboundContext → Bool) (default_outbound : O)
      (m : InboundContext)
      → is_wanted (initial_status m) ≡ false
      → All (λ r. Keeps r.match) rules
      → let r = match0 lookup_default outbound rules must_use_ip default_outbound m in
        ((r.0, r.1) ≡ named (first_route rules m) default_outbound)
        × (reset_rule_cache r.2 ≡ reset_rule_cache m)
  unfolding match0
  match0_lem rules must_use_ip default_outbound m h k =
      let s = choose lookup_default outbound rules (initial_status m, m) in
      let c = choose_lem rules (initial_status m) m m h k refl in
      let e =
        match0-ending rules must_use_ip default_outbound m
        ∙ ending_lem must_use_ip default_outbound s.0 s.1.0 s.1.1
            (ap is_resolved_status c.1 ∙ initial-unresolved m) in
      (
        ap (λ (r : Option Rule × O × InboundContext). (r.0, r.1)) e
            ∙ ap (λ f. named f default_outbound) c.0,
        ap (λ (r : Option Rule × O × InboundContext). reset_rule_cache r.2) e ∙ c.2,
      )
