-- ===== src/Route/Router.antt =====
-- The choice of an outbound: `match0` and `match` of route/router.go. The DNS lookup, the table of
-- outbounds and `mustUseIP` are arguments; the search for the local process, whose result only the
-- process conditions read, has been made before.
pub mod Choice
use sfa_provider.Prelude.{
  String, Option, none, some, Bool, true, false, not, List, [], ◌∷◌, ◌&&◌, ◌==◌, Result, ok, err,
  is_empty, if◌then◌else◌, string_key,
}
use sfa_provider.FakeIp.Addr.{Addr}
use sfa_provider.Route.Context.{InboundContext, reset_rule_cache}
use sfa_provider.Route.Items.{is_fqdn}

-- adapter.Rule, as far as routing uses it.
pub record Rule : Type 0 where
  pub disabled : Bool
  pub skip_resolve : Bool
  pub contains_ip_cidr : Bool
  pub outbound : String
  pub match : InboundContext → Bool × InboundContext

-- resolveStatus: -1, 0, 1 and 2.
pub data ResolveStatus : Type 0 where
  not_needed wanted resolved failed : ResolveStatus

abbrev pub is_wanted : ResolveStatus → Bool
is_wanted wanted = true
is_wanted not_needed = false
is_wanted resolved = false
is_wanted failed = false

abbrev pub is_resolved_status : ResolveStatus → Bool
is_resolved_status resolved = true
is_resolved_status not_needed = false
is_resolved_status wanted = false
is_resolved_status failed = false

abbrev pub initial_status : InboundContext → ResolveStatus
initial_status m =
    if is_fqdn m.destination && is_empty m.destination_addresses then wanted else not_needed

abbrev pub State : Type 0
State = ResolveStatus × InboundContext

-- What lookupDefault gave: `none` is an error.
abbrev pub store_addresses : Option (List Addr) → InboundContext → State
store_addresses none m = (failed, m)
store_addresses (some addresses) m =
    (resolved, record m { is_resolved = true; destination_addresses = addresses })

module _ {O : Type 0} (lookup_default : InboundContext → Option (List Addr))
    (outbound : String → Option O) where
  -- The block that resolves the destination before a rule that needs its address.
  unfoldable pub resolve_for : Rule → State → State
  resolve_for rule (status, m) =
      if not rule.skip_resolve && is_wanted status && rule.contains_ip_cidr
      then (let (status', m') = store_addresses (lookup_default m) m in
          (status', reset_rule_cache m'))
      else (status, m)

  -- One round of the loop: the outbound, if the rule matches and its outbound is there.
  unfoldable pub visit : Rule → State → Option O × State
  unfolding resolve_for
  visit rule (status, m) =
      let (status', m') = resolve_for rule (status, reset_rule_cache m) in
      let (hit, m'') = rule.match m' in
      (if hit then outbound rule.outbound else none, (status', m''))

  -- `if rule.Disabled() { continue }`
  unfoldable pub step : Rule → State → Option O × State
  step rule s = if rule.disabled then (none, s) else visit rule s

  -- The loop over the rules.
  unfoldable pub choose : List Rule → State → Option (Rule × O) × State
  choose [] s = (none, s)
  choose (rule ∷ rules) s =
      let (found, s') = step rule s in
      elim found [ some o ↦ (some (rule, o), s') | none ↦ choose rules s' ]

  -- The deferred function: addresses that were resolved here are dropped again.
  abbrev pub finish : (O → InboundContext → Bool) → O → State → InboundContext
  finish must_use_ip o (status, m) =
      if is_resolved_status status && not (must_use_ip o m)
      then record m { destination_addresses = [] }
      else m

  -- match0
  unfoldable pub match0 :
      List Rule
      → (O → InboundContext → Bool)
      → O
      → InboundContext
      → Option Rule × O × InboundContext
  match0 rules must_use_ip default_outbound m =
      let (found, s) = choose rules (initial_status m, m) in
      elim found [
        | some (rule, o) ↦ (some rule, o, finish must_use_ip o s)
        | none ↦ (none, default_outbound, finish must_use_ip default_outbound s)
      ]

-- match: a connection that comes from the outbound that it would go to is refused, and any other
-- carries the tag of its outbound on.
pub data RouteError : Type 0 where
  connection_loopback : String → RouteError

unfoldable pub check_loopback :
    {O : Type 0} → (O → String) → Option String → O → Result RouteError String
check_loopback tag none o = ok (tag o)
check_loopback tag (some context_outbound) o =
    if context_outbound == tag o then err (connection_loopback (tag o)) else ok (tag o)
