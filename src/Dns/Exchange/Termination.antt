-- ===== src/Dns/Exchange/Termination.antt =====
-- The fuel of exchangeFunc (route/router_dns.go): every further round starts after the rule of the last.
use sfa_provider.Prelude.{
  ℕ, zero, suc, ◌-◌, ◌≤◌, ◌<◌, String, Option, none, some, Bool, not, ◌&&◌, ◌||◌, true, false, List,
  ◌≡◌, refl, length, ok, err, is_empty, if_intro, arith,
}
use sfa_provider.Route.Context.{InboundContext}
use sfa_provider.Dns.Servers.{is_rcode, QueryOptions, Transport, FallbackEntry, DnsEntry, Servers}
use sfa_provider.Dns.Match.{DnsMatch, FallbackMatch, start_of, match_fallback_rules}
use sfa_provider.Dns.Match.Order.{Between, Rises, match_dns-Between}
use sfa_provider.Dns.Exchange.{
  Question, is_address_query, Responses, Reply, ExchangeClient, ExchangeState, ExchangeRound,
  finished, again, Outcome, addresses_or_none, reply_rejected, proceed, accept, conclude,
  exchange_round, exchange_loop, exchange_func,
}

abbrev Advances : {R W : Type 0} → ℕ → ℕ → ExchangeRound R W → Type 0
Advances lo hi (finished outcome w) = Unit
Advances lo hi (again s) = Rises lo hi s.index

module _ {R W : Type 0} (responses : Responses R) (client : ExchangeClient R W) (servers : Servers)
    (base : QueryOptions) (dns_rules : List DnsEntry) (questions : List Question)
    (is_cache_update : Bool) where
  accept-Advances :
      (lo hi i : ℕ) (entry : DnsEntry) (response : R) (s : InboundContext × W)
      → lo ≤ i
      → i < hi
      → Advances lo hi (
          accept responses client servers base dns_rules questions is_cache_update i entry response
            s)
  unfolding accept
  accept-Advances lo hi i entry response s p q =
      let found =
        match_fallback_rules servers base s.0.domain
          (addresses_or_none (responses.to_addresses response)) entry.fallback_rules true in
      if_intro (Advances lo hi)
        (not (responses.is_success response)
          || is_empty (addresses_or_none (responses.to_addresses response)))
        _ _ (if_intro (Advances lo hi) entry.allow_fallthrough _ _ (p, q) tt)
        (if_intro (Advances lo hi) (is_empty entry.fallback_rules) _ _ tt
          (at found found.rule found.transport))
    where
      at :
          (found : FallbackMatch) (r : Option FallbackEntry) (t : Option Transport)
          → Advances lo hi (
              proceed responses client servers base dns_rules questions is_cache_update i response
                found r t s)
      at found none t = tt
      at found (some fallback) none = (p, q)
      at found (some fallback) (some transport) = tt

  conclude-Advances :
      (lo hi : ℕ) (found : DnsMatch) (reply : Reply R) (s : InboundContext × W)
      → Between lo hi found.rule
      → Advances lo hi (
          conclude responses client servers base dns_rules questions is_cache_update found
            (reply, s))
  unfolding conclude
  conclude-Advances lo hi found reply s b = by_rule found.rule b
    where
      by_rule :
          (r : Option (ℕ × DnsEntry))
          → Between lo hi r
          → Advances lo hi (
              conclude responses client servers base dns_rules questions is_cache_update
                (record found { rule = r })
                (reply, s))
      by_rule none b = tt
      by_rule (some (i, entry)) b =
          if_intro (Advances lo hi)
            (not (is_address_query questions)
              || found.is_fake_ip_match
              || is_rcode found.transport.kind)
            _ _ tt
            (if_intro (Advances lo hi) (entry.rule.with_address_limit && reply_rejected reply) _ _ b
              (at reply))
        where
          at :
              (a : Reply R)
              → Advances lo hi (elim a as (λ x. ExchangeRound R W) [
                | err e ↦ finished (err e) s.1
                | ok response ↦ elim response [
                  | none ↦ finished (ok (none, false)) s.1
                  | some r ↦
                      accept responses client servers base dns_rules questions is_cache_update i
                        entry r s
                ]
              ])
          at (err e) = tt
          at (ok none) = tt
          at (ok (some r)) = accept-Advances lo hi i entry r s b.0 b.1

  round-Advances :
      (s : ExchangeState W)
      → Advances
          (start_of s.index)
          (length dns_rules)
          (exchange_round responses client servers base dns_rules questions is_cache_update s)
  unfolding exchange_round
  round-Advances s = conclude-Advances (start_of s.index) (length dns_rules) _ _ _ (
      match_dns-Between servers base dns_rules true s.index (is_address_query questions) s.metadata)

  -- With a round for each rule that is left, and one more, the loop returns.
  loop_returns :
      (fuel : ℕ) (s : ExchangeState W)
      → length dns_rules - start_of s.index < fuel
      → (r : Outcome R × W) × (exchange_loop responses client servers base dns_rules questions
            is_cache_update fuel s
          ≡ some r)
  unfolding exchange_loop
  loop_returns zero s h = absurd (omega arith)
  loop_returns (suc fuel) s h =
      at (exchange_round responses client servers base dns_rules questions is_cache_update s)
        (round-Advances s) (loop_returns fuel)
    where
      at :
          (r : ExchangeRound R W)
          → Advances (start_of s.index) (length dns_rules) r
          → ((s' : ExchangeState W)
              → length dns_rules - start_of s'.index < fuel
              → (x : Outcome R × W) × (exchange_loop responses client servers base dns_rules
                    questions is_cache_update fuel s'
                  ≡ some x))
          → (x : Outcome R × W) × ((elim r as (λ y. Option (Outcome R × W)) [
            | finished outcome w ↦ some (outcome, w)
            | again s' ↦
                exchange_loop responses client servers base dns_rules questions is_cache_update fuel
                  s'
          ])
              ≡ some x)
      at (finished outcome w) a ih = ((outcome, w), refl)
      at (again s') a ih = ih s' (by_index s'.index a)
        where
          by_index :
              (i : Option ℕ)
              → Rises (start_of s.index) (length dns_rules) i
              → length dns_rules - start_of i < fuel
          by_index none b = absurd b
          by_index (some i) b = omega (arith, b.0, b.1)

  -- exchangeFunc returns an outcome.
  pub exchange_func_returns :
      (is_fqdn : String → Bool) (m : InboundContext) (w : W)
      → (r : Outcome R × W) × (exchange_func responses client servers base dns_rules questions
            is_cache_update is_fqdn m w
          ≡ some r)
  unfolding exchange_func
  exchange_func_returns is_fqdn m w = loop_returns (suc (length dns_rules)) _ (omega arith)
