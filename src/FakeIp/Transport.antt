-- ===== src/FakeIp/Transport.antt =====
-- The DNS transport `fakeip` (transport/fakeip/server.go): Lookup over a started store. Raw
-- exchanges are refused by the source, and carry no state.
use sfa_provider.Prelude.{
  String, Bool, true, false, List, [], ◌∷◌, ◌++◌, Result, ok, err, ◌≡◌, refl, arith, All, map, some,
  not, if◌then◌else◌,
}
use mathlib.Core.Path.{subst}
use sfa_provider.FakeIp.Addr.{Addr, is4}
use sfa_provider.FakeIp.Storage.{Storage}
use sfa_provider.FakeIp.Storage.Laws.{Laws}
use sfa_provider.FakeIp.Store.{Store, CreateError, create, lookup}
use sfa_provider.FakeIp.Store.Soundness.{IsSound, create-IsSound}
use sfa_provider.FakeIp.Store.Lookups.{Outcome, create-Outcome, lookup-create_ipv6}

-- dns.DomainStrategy
pub data Strategy : Type 0 where
  as_is prefer_ipv4 prefer_ipv6 use_ipv4 use_ipv6 : Strategy

-- strategy != UseIPv6, and strategy != UseIPv4
abbrev pub wants_ipv4 : Strategy → Bool
wants_ipv4 use_ipv6 = false
wants_ipv4 _ = true

abbrev pub wants_ipv6 : Strategy → Bool
wants_ipv6 use_ipv4 = false
wants_ipv6 _ = true

module _ {S : Type 0} (st : Storage S) where
  abbrev pub Step : Type 0
  Step = Result CreateError (List Addr) × Store S

  -- `addresses = append(addresses, address)`
  abbrev pub collect : List Addr → Result CreateError Addr × Store S → Step
  collect addresses (ok a, s) = (ok (addresses ++ a ∷ []), s)
  collect addresses (err e, s) = (err e, s)

  -- One of the two `if` blocks of Lookup.
  abbrev pub lookup_family : Bool → String → Bool → Step → Step
  lookup_family wanted domain v6 (err e, s) = (err e, s)
  lookup_family false domain v6 (ok addresses, s) = (ok addresses, s)
  lookup_family true domain v6 (ok addresses, s) = collect addresses (create st domain v6 s)

  unfoldable pub transport_lookup : String → Strategy → Store S → Step
  transport_lookup domain strategy s =
      lookup_family (wants_ipv6 strategy) domain true
        (lookup_family (wants_ipv4 strategy) domain false (ok [], s))

module _ {S : Type 0} (st : Storage S) (l : Laws st) where
  created :
      (d : String) (v6 : Bool) (s s' : Store S) (a : Addr)
      → IsSound st s
      → create st d v6 s ≡ (ok a, s')
      → IsSound st s' × (lookup st a s' ≡ some d) × (v6 ≡ not (is4 a))
  created d v6 s s' a v h =
      let v' = subst (λ r. IsSound st r.1) h (create-IsSound st l d v6 s v) in
      let o = subst (Outcome st l d v6) h (create-Outcome st l d v6 s v) in
      (v', o.0, v'.consistent.family d v6 a o.1)

  -- What an answer of Lookup is: the families that were asked for, each address standing for the
  -- domain.
  abbrev pub Answers : String → Bool → Bool → List Addr → Store S → Type 0
  Answers d w4 w6 addresses s =
      All (λ a. lookup st a s ≡ some d) addresses
      × (map is4 addresses ≡ (if w4 then true ∷ [] else []) ++ (if w6 then false ∷ [] else []))

  abbrev Good : String → Bool → Bool → Step st → Type 0
  Good d w4 w6 (ok addresses, s) = Answers d w4 w6 addresses s
  Good d w4 w6 (err e, s) = Unit

  -- The IPv6 address after the IPv4 one, which stays.
  second :
      (d : String) (s : Store S) (a : Addr) (r : Result CreateError Addr × Store S)
      → create st d true s ≡ r
      → IsSound st s
      → lookup st a s ≡ some d
      → is4 a ≡ true
      → Good d true true (collect st (a ∷ []) r)
  second d s a (err e, t) h v la fa = tt
  second d s a (ok b, t) h v la fa =
      let (v', lb, fb) = created d true s t b v h in
      let kept = lookup-create_ipv6 st l d s a v fa in
      (
        (
          subst (λ (q : Result CreateError Addr × Store S). lookup st a q.1 ≡ some d) h
              (rw kept la),
          (lb, tt),
        ),
        ground arith,
      )

  only4 :
      (d : String) (s : Store S) (r : Result CreateError Addr × Store S)
      → create st d false s ≡ r
      → IsSound st s
      → Good d true false (lookup_family st false d true (collect st [] r))
  only4 d s (err e, t) h v = tt
  only4 d s (ok a, t) h v = let (v', la, fa) = created d false s t a v h in ((la, tt), ground arith)

  only6 :
      (d : String) (s : Store S) (r : Result CreateError Addr × Store S)
      → create st d true s ≡ r
      → IsSound st s
      → Good d false true (collect st [] r)
  only6 d s (err e, t) h v = tt
  only6 d s (ok a, t) h v = let (v', la, fa) = created d true s t a v h in ((la, tt), ground arith)

  both :
      (d : String) (s : Store S) (r : Result CreateError Addr × Store S)
      → create st d false s ≡ r
      → IsSound st s
      → Good d true true (lookup_family st true d true (collect st [] r))
  both d s (err e, t) h v = tt
  both d s (ok a, t) h v =
      let (v', la, fa) = created d false s t a v h in
      second d t a (create st d true t) refl v' la (ground arith)

  -- Lookup in a sound store returns exactly one address for each family that the strategy allows,
  -- the IPv4 address first, and after it each of them looks up to the domain.
  pub transport_lookup_lem :
      (d : String) (strategy : Strategy) (s s' : Store S) (addresses : List Addr)
      → IsSound st s
      → transport_lookup st d strategy s ≡ (ok addresses, s')
      → Answers d (wants_ipv4 strategy) (wants_ipv6 strategy) addresses s'
  unfolding transport_lookup
  transport_lookup_lem d use_ipv4 s s' addresses v h =
      subst (Good d true false) h (only4 d s (create st d false s) refl v)
  transport_lookup_lem d use_ipv6 s s' addresses v h =
      subst (Good d false true) h (only6 d s (create st d true s) refl v)
  transport_lookup_lem d _ s s' addresses v h =
      subst (Good d true true) h (both d s (create st d false s) refl v)
