-- ===== src/Dns/Match.antt =====
-- The choice of a DNS server: `matchDNS` and `matchFallbackRules` of route/router_dns.go. A rule
-- index is that of Go, with `none` for -1.
pub mod Order
pub mod First
pub mod Avoids
use sfa_provider.Prelude.{
  ℕ, zero, suc, String, Option, none, some, Bool, true, false, not, List, [], ◌∷◌, ◌&&◌, ◌||◌, ◌==◌,
  string_key, if◌then◌else◌,
}
use sfa_provider.FakeIp.Addr.{Addr}
use sfa_provider.FakeIp.Transport.{Strategy, as_is}
use sfa_provider.Route.Context.{InboundContext, reset_rule_cache}
use sfa_provider.Route.DnsRule.{DnsRule, FallbackRule, match_fallback}
use sfa_provider.Dns.Servers.{
  QueryOptions, TransportKind, Transport, FallbackEntry, DnsEntry, Servers, new_context, is_fake_ip,
  refused, with_options, strategy_of,
}

-- dnsRules[index+1:]
abbrev pub start_of : Option ℕ → ℕ
start_of none = 0
start_of (some i) = suc i

abbrev pub drop {ℓ} : {A : Type ℓ} → ℕ → List A → List A
drop zero xs = xs
drop (suc n) [] = []
drop (suc n) (x ∷ xs) = drop n xs

-- What matchDNS returns.
pub record DnsMatch : Type 0 where
  pub options : QueryOptions
  pub transport : Transport
  pub strategy : Strategy
  pub rule : Option (ℕ × DnsEntry)
  pub is_fake_ip_match : Bool

-- What matchFallbackRules returns.
pub record FallbackMatch : Type 0 where
  pub options : QueryOptions
  pub transport : Option Transport
  pub strategy : Strategy
  pub rule : Option FallbackEntry
  pub is_fake_ip_match : Bool

module _ (servers : Servers) (base : QueryOptions) where
  -- One round of the loop of matchDNS: the transport, where the rule takes the query.
  unfoldable pub try_rule :
      Bool → Bool → DnsEntry → InboundContext → Option Transport × InboundContext
  try_rule allow_fake_ip is_address_query entry m =
      if entry.rule.with_address_limit && not is_address_query
      then (none, m)
      else (let (hit, m') = entry.rule.match (reset_rule_cache m) in
          if not hit then (none, m') else elim (servers.transport_map entry.outbound) [
            | none ↦ (none, m')
            | some transport ↦
                if refused allow_fake_ip m'.domain transport.kind
                then (none, m')
                else (some transport, m')
          ])

  abbrev pub matched : ℕ → DnsEntry → Transport → DnsMatch
  matched i entry transport = record {
    options = with_options (is_fake_ip transport.kind) entry.options base;
    transport = transport;
    strategy = strategy_of servers transport;
    rule = some (i, entry);
    is_fake_ip_match = is_fake_ip transport.kind;
  }

  -- No rule is left.
  abbrev pub default_match : DnsMatch
  default_match = record {
    options = base;
    transport = servers.default_transport;
    strategy = strategy_of servers servers.default_transport;
    rule = none;
    is_fake_ip_match = false;
  }

  -- The loop of matchDNS, from the rule of index `i`.
  unfoldable pub match_from :
      Bool → Bool → ℕ → List DnsEntry → InboundContext → DnsMatch × InboundContext
  match_from allow_fake_ip is_address_query i [] m = (default_match, m)
  match_from allow_fake_ip is_address_query i (entry ∷ entries) m =
      let (taken, m') = try_rule allow_fake_ip is_address_query entry m in
      elim taken [
        | some transport ↦ (matched i entry transport, m')
        | none ↦ match_from allow_fake_ip is_address_query (suc i) entries m'
      ]

  -- matchDNS
  unfoldable pub match_dns :
      List DnsEntry → Bool → Option ℕ → Bool → InboundContext → DnsMatch × InboundContext
  match_dns dns_rules allow_fake_ip index is_address_query m =
      match_from allow_fake_ip is_address_query (start_of index) (drop (start_of index) dns_rules) m

  -- The end of matchFallbackRules where no rule applies, or one accepts the result.
  abbrev pub no_fallback : FallbackMatch
  no_fallback = record {
    options = base;
    transport = none;
    strategy = as_is;
    rule = none;
    is_fake_ip_match = false;
  }

  -- A fallback rule that applies: `none` is `continue`.
  unfoldable pub use_fallback : String → Bool → FallbackEntry → Option FallbackMatch
  use_fallback domain allow_fake_ip entry =
      if entry.rule.accept_result
      then some no_fallback
      else if entry.outbound == ""
      then some (record {
        options = with_options false entry.options base;
        transport = none;
        strategy = as_is;
        rule = some entry;
        is_fake_ip_match = false;
      })
      else elim (servers.transport_map entry.outbound) [
        | none ↦ none
        | some transport ↦
            if refused allow_fake_ip domain transport.kind
            then none
            else some (record {
              options = with_options (is_fake_ip transport.kind) entry.options base;
              transport = some transport;
              strategy = strategy_of servers transport;
              rule = some entry;
              is_fake_ip_match = is_fake_ip transport.kind;
            })
      ]

  unfoldable pub fallback_from : String → Bool → List FallbackEntry → InboundContext → FallbackMatch
  fallback_from domain allow_fake_ip [] m = no_fallback
  fallback_from domain allow_fake_ip (entry ∷ entries) m =
      let (hit, m') = match_fallback entry.rule (reset_rule_cache m) in
      elim (if hit then use_fallback domain allow_fake_ip entry else none) [
        | some found ↦ found
        | none ↦ fallback_from domain allow_fake_ip entries m'
      ]

  -- matchFallbackRules
  unfoldable pub match_fallback_rules :
      String → List Addr → List FallbackEntry → Bool → FallbackMatch
  match_fallback_rules domain addrs rules allow_fake_ip =
      fallback_from domain allow_fake_ip rules
        (record new_context { destination_addresses = addrs; dns_fall_back = true })
