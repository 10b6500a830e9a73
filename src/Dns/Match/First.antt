-- ===== src/Dns/Match/First.antt =====
-- Which rule the loop of matchDNS (route/router_dns.go) takes.
use sfa_provider.Prelude.{
  ℕ, zero, suc, String, Option, none, some, Bool, not, List, [], ◌∷◌, ◌&&◌, ◌≡◌, refl, sym, ap, ◌∙◌,
  All, inl, inr, Bool-cases, if◌then◌else◌, arith,
}
use sfa_provider.Route.Context.{InboundContext, reset_rule_cache}
use sfa_provider.Route.LogicalRule.Meaning.{Keeps}
use sfa_provider.Dns.Servers.{QueryOptions, Transport, DnsEntry, Servers, refused}
use sfa_provider.Dns.Match.{
  DnsMatch, start_of, drop, matched, default_match, try_rule, match_from, match_dns,
}

module _ (servers : Servers) (base : QueryOptions) (allow_fake_ip is_address_query : Bool) where
  -- The transport of a rule for a query, whatever the rules before it did: the rule may look at
  -- the query, it matches on a reset cache, and its transport is there and is allowed.
  abbrev pub takes : InboundContext → DnsEntry → Option Transport
  takes m entry =
      if entry.rule.with_address_limit && not is_address_query
      then none
      else if not (entry.rule.match (reset_rule_cache m)).0
      then none
      else elim (servers.transport_map entry.outbound) [
        | none ↦ none
        | some transport ↦
            if refused allow_fake_ip m.domain transport.kind then none else some transport
      ]

  -- The first such rule.
  pub first_taker : ℕ → List DnsEntry → InboundContext → DnsMatch
  first_taker i [] m = default_match servers base
  first_taker i (entry ∷ entries) m = elim (takes m entry) [
    | some transport ↦ matched servers base i entry transport
    | none ↦ first_taker (suc i) entries m
  ]

  -- One round.
  record Tried (entry : DnsEntry) (m x : InboundContext) : Type 0 where
    after : InboundContext
    tried : try_rule servers base allow_fake_ip is_address_query entry x ≡ (takes m entry, after)
    same : reset_rule_cache after ≡ reset_rule_cache m

  -- The round from a metadata that has been reset, and the same with the domain as an argument.
  abbrev visit : DnsEntry → InboundContext → Option Transport × InboundContext
  visit entry y =
      let (hit, m') = entry.rule.match y in
      if not hit then (none, m') else elim (servers.transport_map entry.outbound) [
        | none ↦ (none, m')
        | some transport ↦
            if refused allow_fake_ip m'.domain transport.kind
            then (none, m')
            else (some transport, m')
      ]

  abbrev taken_at : DnsEntry → InboundContext → String → Option Transport
  taken_at entry y domain =
      if not (entry.rule.match y).0 then none else elim (servers.transport_map entry.outbound) [
        | none ↦ none
        | some transport ↦
            if refused allow_fake_ip domain transport.kind then none else some transport
      ]

  visit_lem :
      (entry : DnsEntry) (y : InboundContext)
      → visit entry y ≡ (taken_at entry y (entry.rule.match y).1.domain, (entry.rule.match y).1)
  visit_lem entry y = ground arith

  try_rule_lem :
      (entry : DnsEntry) (m x : InboundContext)
      → Keeps entry.rule.match
      → reset_rule_cache x ≡ reset_rule_cache m
      → Tried entry m x
  unfolding try_rule
  try_rule_lem entry m x k e =
      let after_match = (entry.rule.match (reset_rule_cache m)).1 in
      elim (Bool-cases (entry.rule.with_address_limit && not is_address_query)) [
        | inl l ↦ record {
          after = x;
          tried =
              ap (λ b. if b then (none, x) else visit entry (reset_rule_cache x)) l
              ∙ sym (
                  ap (λ b. (if b then none else taken_at entry (reset_rule_cache m) m.domain, x))
                    l);
          same = e;
        }
        | inr l ↦ record {
          after = after_match;
          tried =
              ap (λ b. if b then (none, x) else visit entry (reset_rule_cache x)) l
              ∙ ap (visit entry) e
              ∙ visit_lem entry (reset_rule_cache m)
              ∙ ap (λ d. (taken_at entry (reset_rule_cache m) d, after_match))
                  (ap (λ y. y.domain) (k m))
              ∙ sym (
                  ap
                    (λ b. (
                      if b then none else taken_at entry (reset_rule_cache m) m.domain,
                      after_match,
                    ))
                    l);
          same = k m;
        }
      ]

  match_from_lem :
      (i : ℕ) (entries : List DnsEntry) (m x : InboundContext)
      → All (λ entry. Keeps entry.rule.match) entries
      → reset_rule_cache x ≡ reset_rule_cache m
      → (match_from servers base allow_fake_ip is_address_query i entries x).0
        ≡ first_taker i entries m
  unfolding match_from first_taker
  match_from_lem i [] m x k e = refl
  match_from_lem i (entry ∷ entries) m x k e =
      let t = try_rule_lem entry m x k.0 e in
      ap (go_on (suc i)) t.tried
      ∙ at (takes m entry) t.after (match_from_lem (suc i) entries m t.after k.1 t.same)
    where
      go_on : ℕ → Option Transport × InboundContext → DnsMatch
      go_on n (taken, y) =
          (elim taken as (λ z. DnsMatch × InboundContext) [
            | some transport ↦ (matched servers base i entry transport, y)
            | none ↦ match_from servers base allow_fake_ip is_address_query n entries y
          ]).0

      at :
          (taken : Option Transport) (y : InboundContext)
          → (match_from servers base allow_fake_ip is_address_query (suc i) entries y).0
            ≡ first_taker (suc i) entries m
          → go_on (suc i) (taken, y) ≡ (elim taken as (λ z. DnsMatch) [
            | some transport ↦ matched servers base i entry transport
            | none ↦ first_taker (suc i) entries m
          ])
      at none y ih = ih
      at (some transport) y ih = refl

All-drop :
    (P : DnsEntry → Type 0) (n : ℕ) (entries : List DnsEntry)
    → All P entries
    → All P (drop n entries)
All-drop P zero entries h = h
All-drop P (suc n) [] h = tt
All-drop P (suc n) (entry ∷ entries) h = All-drop P n entries h.1

-- Where the rules change nothing but the rule cache, matchDNS takes the first rule after the index
-- that takes the query by itself, or else the default transport.
pub match_dns_lem :
    (servers : Servers) (base : QueryOptions) (dns_rules : List DnsEntry) (allow_fake_ip : Bool)
    (index : Option ℕ) (is_address_query : Bool) (m : InboundContext)
    → All (λ entry. Keeps entry.rule.match) dns_rules
    → (match_dns servers base dns_rules allow_fake_ip index is_address_query m).0
      ≡ first_taker servers base allow_fake_ip is_address_query
          (start_of index)
          (drop (start_of index) dns_rules)
          m
unfolding match_dns
match_dns_lem servers base dns_rules allow_fake_ip index is_address_query m k =
    match_from_lem servers base allow_fake_ip is_address_query (start_of index)
      (drop (start_of index) dns_rules) m m
      (All-drop (λ entry. Keeps entry.rule.match) (start_of index) dns_rules k) refl
