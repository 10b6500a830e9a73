-- ===== src/Dns/Match/Order.antt =====
-- Which index matchDNS of route/router_dns.go returns.
use sfa_provider.Prelude.{
  ℕ, zero, suc, ◌+◌, ◌-◌, ◌≤◌, ◌<◌, Option, none, some, Bool, List, [], ◌∷◌, ◌≡◌, length, arith,
}
use sfa_provider.Route.Context.{InboundContext}
use sfa_provider.Dns.Servers.{QueryOptions, Transport, DnsEntry, Servers}
use sfa_provider.Dns.Match.{DnsMatch, start_of, drop, matched, try_rule, match_from, match_dns}

-- An index that a search from `i` on through `n` rules can return.
abbrev pub Between : ℕ → ℕ → Option (ℕ × DnsEntry) → Type 0
Between lo hi none = Unit
Between lo hi (some (i, entry)) = (lo ≤ i) × (i < hi)

-- The next round's index lies in the bounds.
abbrev pub Rises : ℕ → ℕ → Option ℕ → Type 0
Rises lo hi none = ⊥
Rises lo hi (some i) = (lo ≤ i) × (i < hi)

Between-suc :
    (i n : ℕ) (r : Option (ℕ × DnsEntry)) → Between (suc i) (suc i + n) r → Between i (i + suc n) r
Between-suc i n none h = tt
Between-suc i n (some r) h = (omega (arith, h.0), omega (arith, h.1))

module _ (servers : Servers) (base : QueryOptions) (allow_fake_ip is_address_query : Bool) where
  match_from-Between :
      (i : ℕ) (entries : List DnsEntry) (m : InboundContext)
      → Between i
          (i + length entries)
          (match_from servers base allow_fake_ip is_address_query i entries m).0.rule
  unfolding match_from
  match_from-Between i [] m = tt
  match_from-Between i (entry ∷ entries) m =
      at (try_rule servers base allow_fake_ip is_address_query entry m).0 (
        match_from-Between (suc i) entries
          (try_rule servers base allow_fake_ip is_address_query entry m).1)
    where
      at :
          (taken : Option Transport)
          → Between
              (suc i)
              (suc i + length entries)
              (match_from servers base allow_fake_ip is_address_query
                (suc i)
                entries
                (try_rule servers base allow_fake_ip is_address_query entry m).1).0.rule
          → Between i
              (i + suc (length entries))
              (elim taken as (λ x. DnsMatch × InboundContext) [
                | some transport ↦ (
                  matched servers base i entry transport,
                  (try_rule servers base allow_fake_ip is_address_query entry m).1,
                )
                | none ↦
                    match_from servers base allow_fake_ip is_address_query
                      (suc i)
                      entries
                      (try_rule servers base allow_fake_ip is_address_query entry m).1
              ]).0.rule
      at none ih = Between-suc i (length entries) _ ih
      at (some transport) ih = (omega arith, omega arith)

length-drop : (n : ℕ) (xs : List DnsEntry) → length (drop n xs) ≡ length xs - n
length-drop zero xs = omega arith
length-drop (suc n) [] = omega arith
length-drop (suc n) (x ∷ xs) = omega (arith, length-drop n xs)

-- matchDNS goes on after the index that it is given.
pub match_dns-Between :
    (servers : Servers) (base : QueryOptions) (dns_rules : List DnsEntry) (allow_fake_ip : Bool)
    (index : Option ℕ) (is_address_query : Bool) (m : InboundContext)
    → Between
        (start_of index)
        (length dns_rules)
        (match_dns servers base dns_rules allow_fake_ip index is_address_query m).0.rule
unfolding match_dns
match_dns-Between servers base dns_rules allow_fake_ip index is_address_query m =
    at
      (match_from servers base allow_fake_ip is_address_query (start_of index)
        (drop (start_of index) dns_rules) m).0.rule
      (match_from-Between servers base allow_fake_ip is_address_query (start_of index)
        (drop (start_of index) dns_rules) m)
  where
    at :
        (r : Option (ℕ × DnsEntry))
        → Between (start_of index) (start_of index + length (drop (start_of index) dns_rules)) r
        → Between (start_of index) (length dns_rules) r
    at none h = tt
    at (some r) h =
        let l = length-drop (start_of index) dns_rules in
        (omega (arith, h.0), omega (arith, h.0, h.1, l))
