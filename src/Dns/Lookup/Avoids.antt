-- ===== src/Dns/Lookup/Avoids.antt =====
-- Which transports lookupFunc of route/router_dns.go queries.
use sfa_provider.Prelude.{
  ℕ, zero, suc, String, Option, none, some, Bool, true, false, List, ◌≡◌, refl, ap, ◌∙◌, length,
  ◌&&◌, ok, err, is_empty, if◌then◌else◌,
}
use sfa_provider.FakeIp.Addr.{Addr}
use sfa_provider.FakeIp.Transport.{Strategy}
use sfa_provider.Route.Context.{InboundContext}
use sfa_provider.Dns.Servers.{
  is_rcode, is_fake_ip, QueryOptions, Transport, FallbackEntry, DnsEntry, Servers,
}
use sfa_provider.Dns.Match.{DnsMatch, FallbackMatch, match_dns, match_fallback_rules}
use sfa_provider.Dns.Match.Avoids.{IsReal, match_dns-real, match_fallback_rules-IsReal}
use sfa_provider.Dns.Lookup.{
  Client, Check, Query, LookupState, Round, finished, again, Answer, or_name_error, is_rejected,
  is_empty_answer, or_strategy, limits, check_of, query_of, ask, proceed, fall_back, conclude,
  lookup_round, lookup_loop, lookup_func,
}

-- Two clients that answer alike wherever the transport is not a fake-IP transport.
pub record AgreesOnReal {W : Type 0} (c c' : Client W) : Type 0 where
  pub lookups :
      (q : Query) (w : W) → is_fake_ip q.transport.kind ≡ false → c.lookup q w ≡ c'.lookup q w
  pub checked_lookups :
      (q : Query) (check : Check) (s : InboundContext × W)
      → is_fake_ip q.transport.kind ≡ false
      → c.lookup_with_check q check s ≡ c'.lookup_with_check q check s

module _ {W : Type 0} (c c' : Client W) (agrees : AgreesOnReal c c') (servers : Servers)
    (base : QueryOptions) (dns_rules : List DnsEntry) (domain : String)
    (is_cache_update : Bool) where
  ask-agrees :
      (found : DnsMatch) (strategy : Strategy) (s : InboundContext × W)
      → is_fake_ip found.transport.kind ≡ false
      → ask c servers base dns_rules domain is_cache_update found strategy s
        ≡ ask c' servers base dns_rules domain is_cache_update found strategy s
  unfolding ask
  ask-agrees found strategy s h = λ j.
      let query =
        query_of c servers base dns_rules domain is_cache_update found.options found.transport
          strategy s.0 in
      if limits found.rule
      then agrees.checked_lookups query (check_of found.rule) s h j
      else (let r = agrees.lookups query s.1 h j in (r.0, (s.0, r.1)))

  fall_back-agrees :
      (i : ℕ) (entry : DnsEntry) (addrs : List Addr) (s : InboundContext × W)
      → fall_back c servers base dns_rules domain is_cache_update i entry addrs s
        ≡ fall_back c' servers base dns_rules domain is_cache_update i entry addrs s
  unfolding fall_back
  fall_back-agrees i entry addrs s =
      let found = match_fallback_rules servers base s.0.domain addrs entry.fallback_rules false in
      ap (λ x. if is_empty entry.fallback_rules then finished (ok addrs) s.1 else x)
        (at found found.rule found.transport
          (match_fallback_rules-IsReal servers base s.0.domain addrs entry.fallback_rules))
    where
      at :
          (found : FallbackMatch) (r : Option FallbackEntry) (t : Option Transport)
          → IsReal t
          → proceed c servers base dns_rules domain is_cache_update i addrs found r t s
            ≡ proceed c' servers base dns_rules domain is_cache_update i addrs found r t s
      at found none t h = refl
      at found (some fallback) none h = refl
      at found (some fallback) (some transport) h =
          ap (λ (x : Answer × W). finished (or_name_error x.0) x.1)
            (agrees.lookups
              (query_of c servers base dns_rules domain is_cache_update found.options transport
                found.strategy s.0)
              s.1 h)

  conclude-agrees :
      (found : DnsMatch) (strategy : Strategy) (answer : Answer) (s : InboundContext × W)
      → conclude c servers base dns_rules domain is_cache_update found strategy (answer, s)
        ≡ conclude c' servers base dns_rules domain is_cache_update found strategy (answer, s)
  unfolding conclude
  conclude-agrees found strategy answer s = by_rule found.rule
    where
      by_rule :
          (r : Option (ℕ × DnsEntry))
          → conclude c servers base dns_rules domain is_cache_update
              (record found { rule = r })
              strategy
              (answer, s)
            ≡ conclude c' servers base dns_rules domain is_cache_update
                (record found { rule = r })
                strategy
                (answer, s)
      by_rule none = refl
      by_rule (some (i, entry)) =
          let next : Round W =
            again (record { index = some i; strategy = strategy; metadata = s.0; world = s.1 }) in
          ap
            (λ x.
              if is_rcode found.transport.kind
              then finished (or_name_error answer) s.1
              else if entry.rule.with_address_limit && is_rejected answer
              then next
              else if is_empty_answer answer && entry.allow_fallthrough
              then next
              else x)
            (at (or_name_error answer))
        where
          at :
              (a : Answer)
              → (elim a as (λ x. Round W) [
                | ok addrs ↦
                    fall_back c servers base dns_rules domain is_cache_update i entry addrs s
                | err e ↦ finished (err e) s.1
              ])
                ≡ (elim a as (λ x. Round W) [
                  | ok addrs ↦
                      fall_back c' servers base dns_rules domain is_cache_update i entry addrs s
                  | err e ↦ finished (err e) s.1
                ])
          at (ok addrs) = fall_back-agrees i entry addrs s
          at (err e) = refl

  round-agrees :
      (s : LookupState W)
      → is_fake_ip servers.default_transport.kind ≡ false
      → lookup_round c servers base dns_rules domain is_cache_update s
        ≡ lookup_round c' servers base dns_rules domain is_cache_update s
  unfolding lookup_round
  round-agrees s d =
      let r = match_dns servers base dns_rules false s.index true s.metadata in
      let strategy = or_strategy s.strategy r.0.strategy in
      ap (conclude c servers base dns_rules domain is_cache_update r.0 strategy) (
        ask-agrees r.0 strategy (r.1, s.world)
          (match_dns-real servers base true dns_rules s.index s.metadata d))
      ∙ conclude-agrees r.0 strategy _ _

  loop-agrees :
      (fuel : ℕ) (s : LookupState W)
      → is_fake_ip servers.default_transport.kind ≡ false
      → lookup_loop c servers base dns_rules domain is_cache_update fuel s
        ≡ lookup_loop c' servers base dns_rules domain is_cache_update fuel s
  unfolding lookup_loop
  loop-agrees zero s d = refl
  loop-agrees (suc fuel) s d =
      ap (after c) (round-agrees s d)
      ∙ at (lookup_round c' servers base dns_rules domain is_cache_update s)
          (λ s'. loop-agrees fuel s' d)
    where
      after : Client W → Round W → Option (Answer × W)
      after client r = elim r [
        | finished answer w ↦ some (answer, w)
        | again s' ↦ lookup_loop client servers base dns_rules domain is_cache_update fuel s'
      ]

      at :
          (r : Round W)
          → ((s' : LookupState W)
              → lookup_loop c servers base dns_rules domain is_cache_update fuel s'
                ≡ lookup_loop c' servers base dns_rules domain is_cache_update fuel s')
          → after c r ≡ after c' r
      at (finished answer w) ih = refl
      at (again s') ih = ih s'

  -- A lookup of the router itself never asks a fake-IP transport, unless that is the default one:
  -- clients that differ only there give the same answer and the same world.
  pub lookup_avoids_fake_ip :
      (strategy : Strategy) (m : InboundContext) (w : W)
      → is_fake_ip servers.default_transport.kind ≡ false
      → lookup_func c servers base dns_rules domain is_cache_update strategy m w
        ≡ lookup_func c' servers base dns_rules domain is_cache_update strategy m w
  unfolding lookup_func
  lookup_avoids_fake_ip strategy m w d = loop-agrees (suc (length dns_rules)) _ d
