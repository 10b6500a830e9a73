-- ===== src/Dns/Match/Avoids.antt =====
-- The kind of the transport that matchDNS and matchFallbackRules of route/router_dns.go return where
-- fake-IP transports are not allowed.
use sfa_provider.Prelude.{
  ℕ, suc, String, Option, none, some, Bool, false, List, [], ◌∷◌, ◌≡◌, refl, if_intro, not, ◌&&◌,
  ◌==◌, string_key, arith, if◌then◌else◌,
}
use sfa_provider.FakeIp.Addr.{Addr}
use sfa_provider.Route.Context.{InboundContext, reset_rule_cache}
use sfa_provider.Route.DnsRule.{match_fallback}
use sfa_provider.Dns.Servers.{
  QueryOptions, Transport, TransportKind, plain, rcode, fake_ip, FallbackEntry, DnsEntry, Servers,
  is_fake_ip, refused, with_options, strategy_of,
}
use sfa_provider.Dns.Match.{
  DnsMatch, FallbackMatch, start_of, drop, matched, try_rule, match_from, match_dns, use_fallback,
  fallback_from, match_fallback_rules,
}

refused-fake : (domain : String) (k : TransportKind) → refused false domain k ≡ is_fake_ip k
refused-fake domain plain = refl
refused-fake domain rcode = refl
refused-fake domain (fake_ip none) = refl
refused-fake domain (fake_ip (some exclude)) = refl

-- A transport that is not a fake-IP transport, where there is one.
abbrev pub IsReal : Option Transport → Type 0
IsReal none = Unit
IsReal (some transport) = is_fake_ip transport.kind ≡ false

IsReal-unless :
    (domain : String) (transport : Transport)
    → IsReal (if refused false domain transport.kind then none else some transport)
IsReal-unless domain transport = ground (arith, refused-fake domain transport.kind)

abbrev TakenIsReal : Option Transport × InboundContext → Type 0
TakenIsReal (taken, m) = IsReal taken

module _ (servers : Servers) (base : QueryOptions) (is_address_query : Bool) where
  try_rule-IsReal :
      (entry : DnsEntry) (m : InboundContext)
      → IsReal (try_rule servers base false is_address_query entry m).0
  unfolding try_rule
  try_rule-IsReal entry m =
      if_intro TakenIsReal (entry.rule.with_address_limit && not is_address_query) _ _ tt (
        if_intro TakenIsReal (not (entry.rule.match (reset_rule_cache m)).0) _ _ tt
          (at (servers.transport_map entry.outbound)))
    where
      at :
          (t : Option Transport)
          → IsReal
              (elim t as (λ x. Option Transport × InboundContext) [
                | none ↦ (none, (entry.rule.match (reset_rule_cache m)).1)
                | some transport ↦
                    if refused false (entry.rule.match (reset_rule_cache m)).1.domain transport.kind
                    then (none, (entry.rule.match (reset_rule_cache m)).1)
                    else (some transport, (entry.rule.match (reset_rule_cache m)).1)
              ]).0
      at none = tt
      at (some transport) =
          ground
            (arith, refused-fake (entry.rule.match (reset_rule_cache m)).1.domain transport.kind)

  match_from-real :
      (i : ℕ) (entries : List DnsEntry) (m : InboundContext)
      → is_fake_ip servers.default_transport.kind ≡ false
      → is_fake_ip (match_from servers base false is_address_query i entries m).0.transport.kind
        ≡ false
  unfolding match_from
  match_from-real i [] m d = d
  match_from-real i (entry ∷ entries) m d =
      at (try_rule servers base false is_address_query entry m).0 (try_rule-IsReal entry m)
        (match_from-real (suc i) entries (try_rule servers base false is_address_query entry m).1 d)
    where
      at :
          (taken : Option Transport)
          → IsReal taken
          → is_fake_ip
              (match_from servers base false is_address_query
                (suc i)
                entries
                (try_rule servers base false is_address_query entry m).1).0.transport.kind
            ≡ false
          → is_fake_ip
              (elim taken as (λ x. DnsMatch × InboundContext) [
                | some transport ↦ (
                  matched servers base i entry transport,
                  (try_rule servers base false is_address_query entry m).1,
                )
                | none ↦
                    match_from servers base false is_address_query
                      (suc i)
                      entries
                      (try_rule servers base false is_address_query entry m).1
              ]).0.transport.kind
            ≡ false
      at none r ih = ih
      at (some transport) r ih = r

  pub match_dns-real :
      (dns_rules : List DnsEntry) (index : Option ℕ) (m : InboundContext)
      → is_fake_ip servers.default_transport.kind ≡ false
      → is_fake_ip
          (match_dns servers base dns_rules false index is_address_query m).0.transport.kind
        ≡ false
  unfolding match_dns
  match_dns-real dns_rules index m d =
      match_from-real (start_of index) (drop (start_of index) dns_rules) m d

module _ (servers : Servers) (base : QueryOptions) where
  abbrev FoundIsReal : Option FallbackMatch → Type 0
  FoundIsReal none = Unit
  FoundIsReal (some found) = IsReal found.transport

  use_fallback-IsReal :
      (domain : String) (entry : FallbackEntry)
      → FoundIsReal (use_fallback servers base domain false entry)
  unfolding use_fallback
  use_fallback-IsReal domain entry = if_intro FoundIsReal entry.rule.accept_result _ _ tt (
      if_intro FoundIsReal (entry.outbound == "") _ _ tt
        (at (servers.transport_map entry.outbound)))
    where
      at :
          (t : Option Transport)
          → FoundIsReal (elim t as (λ x. Option FallbackMatch) [
            | none ↦ none
            | some transport ↦
                if refused false domain transport.kind
                then none
                else some (record {
                  options = with_options (is_fake_ip transport.kind) entry.options base;
                  transport = some transport;
                  strategy = strategy_of servers transport;
                  rule = some entry;
                  is_fake_ip_match = is_fake_ip transport.kind;
                })
          ])
      at none = tt
      at (some transport) = ground (arith, refused-fake domain transport.kind)

  fallback_from-IsReal :
      (domain : String) (entries : List FallbackEntry) (m : InboundContext)
      → IsReal (fallback_from servers base domain false entries m).transport
  unfolding fallback_from
  fallback_from-IsReal domain [] m = tt
  fallback_from-IsReal domain (entry ∷ entries) m =
      at
        (if (match_fallback entry.rule (reset_rule_cache m)).0
          then use_fallback servers base domain false entry
          else none)
        (if_intro FoundIsReal (match_fallback entry.rule (reset_rule_cache m)).0 _ _
          (use_fallback-IsReal domain entry) tt)
        (fallback_from-IsReal domain entries (match_fallback entry.rule (reset_rule_cache m)).1)
    where
      at :
          (o : Option FallbackMatch)
          → FoundIsReal o
          → IsReal
              (fallback_from servers base domain false entries
                (match_fallback entry.rule (reset_rule_cache m)).1).transport
          → IsReal
              (elim o as (λ x. FallbackMatch) [
                | some found ↦ found
                | none ↦
                    fallback_from servers base domain false entries
                      (match_fallback entry.rule (reset_rule_cache m)).1
              ]).transport
      at none r ih = ih
      at (some found) r ih = r

  pub match_fallback_rules-IsReal :
      (domain : String) (addrs : List Addr) (rules : List FallbackEntry)
      → IsReal (match_fallback_rules servers base domain addrs rules false).transport
  unfolding match_fallback_rules
  match_fallback_rules-IsReal domain addrs rules = fallback_from-IsReal domain rules _
