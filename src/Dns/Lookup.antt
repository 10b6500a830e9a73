-- ===== src/Dns/Lookup.antt =====
-- `lookupFunc` of route/router_dns.go. The client of sing-dns is an argument: its calls change a
-- world of type `W` (its cache, the network), and it may ask the check of an answer as often as it
-- likes, whereby the check writes to the metadata.
pub mod Termination
pub mod Avoids
use sfa_provider.Prelude.{
  ℕ, zero, suc, String, Option, none, some, Bool, true, false, not, List, [], ◌∷◌, ◌&&◌, ◌||◌,
  Result, ok, err, is_empty, length, if◌then◌else◌,
}
use sfa_provider.FakeIp.Addr.{Addr, unset}
use sfa_provider.FakeIp.Transport.{Strategy, as_is, prefer_ipv4, prefer_ipv6, use_ipv4, use_ipv6}
use sfa_provider.Route.Context.{InboundContext}
use sfa_provider.Dns.Servers.{QueryOptions, Transport, is_rcode, FallbackEntry, DnsEntry, Servers}
use sfa_provider.Dns.Match.{DnsMatch, FallbackMatch, match_dns, match_fallback_rules}

-- The errors that the loop tells apart.
pub data LookupError : Type 0 where
  rejected rejected_cached name_error : LookupError
  failed : String → LookupError

abbrev pub Answer : Type 0
Answer = Result LookupError (List Addr)

-- A query as the client sees it; `metadata` is the copy that OverrideContext makes.
pub record Query : Type 0 where
  pub options : QueryOptions
  pub metadata : InboundContext
  pub transport : Transport
  pub domain : String
  pub strategy : Strategy
  pub is_cache_update : Bool

abbrev pub Check : Type 0
Check = List Addr → InboundContext → Bool × InboundContext

pub record Client (W : Type 0) : Type 0 where
  pub lookup : Query → W → Answer × W
  pub lookup_with_check : Query → Check → InboundContext × W → Answer × (InboundContext × W)

-- The variables of the loop.
pub record LookupState (W : Type 0) : Type 0 where
  pub index : Option ℕ
  pub strategy : Strategy
  pub metadata : InboundContext
  pub world : W

-- `break` with the result, or the next round.
pub data Round (W : Type 0) : Type 0 where
  finished : Answer → W → Round W
  again : LookupState W → Round W

-- An empty answer is an error after the client's call.
abbrev pub or_name_error : Answer → Answer
or_name_error (ok []) = err name_error
or_name_error (ok (a ∷ rest)) = ok (a ∷ rest)
or_name_error (err e) = err e

abbrev pub is_rejected : Answer → Bool
is_rejected (err rejected) = true
is_rejected (err rejected_cached) = true
is_rejected (err name_error) = false
is_rejected (err (failed e)) = false
is_rejected (ok addrs) = false

-- `lookupErr == nil && len(responseAddrs) == 0`
abbrev pub is_empty_answer : Answer → Bool
is_empty_answer (ok []) = true
is_empty_answer (ok (a ∷ rest)) = false
is_empty_answer (err e) = false

-- if strategy == AsIS { strategy = transportStrategy }
abbrev pub or_strategy : Strategy → Strategy → Strategy
or_strategy as_is transport_strategy = transport_strategy
or_strategy prefer_ipv4 transport_strategy = prefer_ipv4
or_strategy prefer_ipv6 transport_strategy = prefer_ipv6
or_strategy use_ipv4 transport_strategy = use_ipv4
or_strategy use_ipv6 transport_strategy = use_ipv6

abbrev pub limits : Option (ℕ × DnsEntry) → Bool
limits none = false
limits (some (i, entry)) = entry.rule.with_address_limit

-- The closure that MatchAddressLimit runs in.
abbrev pub check_of : Option (ℕ × DnsEntry) → Check
check_of none addresses m = (true, m)
check_of (some (i, entry)) addresses m =
    entry.rule.match_limit (record m { destination_addresses = addresses })

module _ {W : Type 0} (client : Client W) (servers : Servers) (base : QueryOptions)
    (dns_rules : List DnsEntry) (domain : String) (is_cache_update : Bool) where
  abbrev pub query_of : QueryOptions → Transport → Strategy → InboundContext → Query
  query_of options transport strategy m = record {
    options = options;
    metadata = m;
    transport = transport;
    domain = domain;
    strategy = strategy;
    is_cache_update = is_cache_update;
  }

  -- The query of a round.
  unfoldable pub ask : DnsMatch → Strategy → InboundContext × W → Answer × (InboundContext × W)
  ask found strategy (m, w) =
      let query = query_of found.options found.transport strategy m in
      if limits found.rule
      then client.lookup_with_check query (check_of found.rule) (m, w)
      else (let (answer, w') = client.lookup query w in (answer, (m, w')))

  -- After matchFallbackRules: its rule and its transport are the third and fourth argument.
  abbrev pub proceed :
      ℕ
      → List Addr
      → FallbackMatch
      → Option FallbackEntry
      → Option Transport
      → InboundContext × W
      → Round W
  proceed i addrs found none transport (m, w) = finished (ok addrs) w
  proceed i addrs found (some fallback) none (m, w) =
      again (record { index = some i; strategy = found.strategy; metadata = m; world = w })
  proceed i addrs found (some fallback) (some transport) (m, w) =
      let (answer, w') = client.lookup (query_of found.options transport found.strategy m) w in
      finished (or_name_error answer) w'

  -- The end of a round: the fallback rules look at the addresses.
  unfoldable pub fall_back : ℕ → DnsEntry → List Addr → InboundContext × W → Round W
  fall_back i entry addrs (m, w) =
      let found = match_fallback_rules servers base m.domain addrs entry.fallback_rules false in
      if is_empty entry.fallback_rules
      then finished (ok addrs) w
      else proceed i addrs found found.rule found.transport (m, w)

  -- What a round does with the answer to its query.
  unfoldable pub conclude : DnsMatch → Strategy → Answer × (InboundContext × W) → Round W
  unfolding fall_back
  conclude found strategy (answer, (m, w)) = elim found.rule [
    | none ↦ finished (or_name_error answer) w
    | some (i, entry) ↦
        let next =
          again (record { index = some i; strategy = strategy; metadata = m; world = w }) in
        if is_rcode found.transport.kind
        then finished (or_name_error answer) w
        else if limits found.rule && is_rejected answer
        then next
        else if is_empty_answer answer && entry.allow_fallthrough
        then next
        else elim (or_name_error answer) [
          | err e ↦ finished (err e) w
          | ok addrs ↦ fall_back i entry addrs (m, w)
        ]
  ]

  -- One round of the loop.
  unfoldable pub lookup_round : LookupState W → Round W
  lookup_round s =
      let (found, m) = match_dns servers base dns_rules false s.index true s.metadata in
      let strategy = or_strategy s.strategy found.strategy in
      conclude found strategy (ask found strategy (m, s.world))

  -- The loop; `none` is out of fuel.
  unfoldable pub lookup_loop : ℕ → LookupState W → Option (Answer × W)
  lookup_loop zero s = none
  lookup_loop (suc fuel) s = elim (lookup_round s) [
    | finished answer w ↦ some (answer, w)
    | again s' ↦ lookup_loop fuel s'
  ]

  -- lookupFunc: a round for every rule and one more are enough.
  unfoldable pub lookup_func : Strategy → InboundContext → W → Option (Answer × W)
  lookup_func strategy m w = lookup_loop (suc (length dns_rules)) (record {
    index = none;
    strategy = strategy;
    metadata = record m {
      destination = record { addr = unset 0; port = 0; fqdn = "" };
      domain = domain;
    };
    world = w;
  })
