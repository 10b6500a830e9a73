-- ===== src/Dns/Lookup/Termination.antt =====
-- The fuel of lookupFunc (route/router_dns.go): every further round starts after the rule of the last.
use sfa_provider.Prelude.{
  ℕ, zero, suc, ◌-◌, ◌≤◌, ◌<◌, String, Option, none, some, Bool, ◌&&◌, true, false, List, ◌≡◌, refl,
  length, ok, err, is_empty, if_intro, arith,
}
use sfa_provider.FakeIp.Addr.{Addr}
use sfa_provider.FakeIp.Transport.{Strategy}
use sfa_provider.Route.Context.{InboundContext}
use sfa_provider.Dns.Servers.{is_rcode, QueryOptions, Transport, FallbackEntry, DnsEntry, Servers}
use sfa_provider.Dns.Match.{DnsMatch, FallbackMatch, start_of, match_fallback_rules}
use sfa_provider.Dns.Match.Order.{Between, Rises, match_dns-Between}
use sfa_provider.Dns.Lookup.{
  Client, LookupState, Round, finished, again, Answer, or_name_error, is_rejected, is_empty_answer,
  proceed, fall_back, conclude, lookup_round, lookup_loop, lookup_func,
}

abbrev Advances : {W : Type 0} → ℕ → ℕ → Round W → Type 0
Advances lo hi (finished answer w) = Unit
Advances lo hi (again s) = Rises lo hi s.index

module _ {W : Type 0} (client : Client W) (servers : Servers) (base : QueryOptions)
    (dns_rules : List DnsEntry) (domain : String) (is_cache_update : Bool) where
  fall_back-Advances :
      (lo hi i : ℕ) (entry : DnsEntry) (addrs : List Addr) (s : InboundContext × W)
      → lo ≤ i
      → i < hi
      → Advances lo hi
          (fall_back client servers base dns_rules domain is_cache_update i entry addrs s)
  unfolding fall_back
  fall_back-Advances lo hi i entry addrs s p q =
      let found = match_fallback_rules servers base s.0.domain addrs entry.fallback_rules false in
      if_intro (Advances lo hi) (is_empty entry.fallback_rules) _ _ tt
        (at found found.rule found.transport)
    where
      at :
          (found : FallbackMatch) (r : Option FallbackEntry) (t : Option Transport)
          → Advances lo hi
              (proceed client servers base dns_rules domain is_cache_update i addrs found r t s)
      at found none t = tt
      at found (some fallback) none = (p, q)
      at found (some fallback) (some transport) = tt

  conclude-Advances :
      (lo hi : ℕ) (found : DnsMatch) (strategy : Strategy) (answer : Answer)
      (s : InboundContext × W)
      → Between lo hi found.rule
      → Advances lo hi
          (conclude client servers base dns_rules domain is_cache_update found strategy (answer, s))
  unfolding conclude
  conclude-Advances lo hi found strategy answer s b = by_rule found.rule b
    where
      by_rule :
          (r : Option (ℕ × DnsEntry))
          → Between lo hi r
          → Advances lo hi (
              conclude client servers base dns_rules domain is_cache_update
                (record found { rule = r })
                strategy
                (answer, s))
      by_rule none b = tt
      by_rule (some (i, entry)) b =
          if_intro (Advances lo hi) (is_rcode found.transport.kind) _ _ tt (
            if_intro (Advances lo hi) (entry.rule.with_address_limit && is_rejected answer) _ _ b (
              if_intro (Advances lo hi) (is_empty_answer answer && entry.allow_fallthrough) _ _ b
                (at (or_name_error answer))))
        where
          at :
              (a : Answer)
              → Advances lo hi (elim a as (λ x. Round W) [
                | ok addrs ↦
                    fall_back client servers base dns_rules domain is_cache_update i entry addrs s
                | err e ↦ finished (err e) s.1
              ])
          at (ok addrs) = fall_back-Advances lo hi i entry addrs s b.0 b.1
          at (err e) = tt

  round-Advances :
      (s : LookupState W)
      → Advances
          (start_of s.index)
          (length dns_rules)
          (lookup_round client servers base dns_rules domain is_cache_update s)
  unfolding lookup_round
  round-Advances s =
      conclude-Advances (start_of s.index) (length dns_rules) _ _ _ _
        (match_dns-Between servers base dns_rules false s.index true s.metadata)

  -- With a round for each rule that is left, and one more, the loop returns.
  loop_returns :
      (fuel : ℕ) (s : LookupState W)
      → length dns_rules - start_of s.index < fuel
      → (r : Answer × W) × (lookup_loop client servers base dns_rules domain is_cache_update fuel s
          ≡ some r)
  unfolding lookup_loop
  loop_returns zero s h = absurd (omega arith)
  loop_returns (suc fuel) s h =
      at (lookup_round client servers base dns_rules domain is_cache_update s) (round-Advances s)
        (loop_returns fuel)
    where
      at :
          (r : Round W)
          → Advances (start_of s.index) (length dns_rules) r
          → ((s' : LookupState W)
              → length dns_rules - start_of s'.index < fuel
              → (x : Answer × W) × (lookup_loop client servers base dns_rules domain is_cache_update
                    fuel s'
                  ≡ some x))
          → (x : Answer × W) × ((elim r as (λ y. Option (Answer × W)) [
            | finished answer w ↦ some (answer, w)
            | again s' ↦ lookup_loop client servers base dns_rules domain is_cache_update fuel s'
          ])
              ≡ some x)
      at (finished answer w) a ih = ((answer, w), refl)
      at (again s') a ih = ih s' (by_index s'.index a)
        where
          by_index :
              (i : Option ℕ)
              → Rises (start_of s.index) (length dns_rules) i
              → length dns_rules - start_of i < fuel
          by_index none b = absurd b
          by_index (some i) b = omega (arith, b.0, b.1)

  -- lookupFunc returns an answer.
  pub lookup_func_returns :
      (strategy : Strategy) (m : InboundContext) (w : W)
      → (r : Answer × W) × (lookup_func client servers base dns_rules domain is_cache_update
            strategy m w
          ≡ some r)
  unfolding lookup_func
  lookup_func_returns strategy m w = loop_returns (suc (length dns_rules)) _ (omega arith)
