-- ===== src/Boot/Acyclic.antt =====
-- Where the dependencies have an order, startOutbounds finds it (box_outbound.go).
use mathlib.Core.List.{Memᴰ}
use sfa_provider.Prelude.{
  ℕ, ◌<◌, String, none, Bool, true, false, List, [], ◌∷◌, ◌++◌, ◌&&◌, ◌||◌, ◌==◌, string_key, ◌≡◌,
  refl, ap, length, arith, Result, ok, err,
}
use text.Mathlib.TextEquality.{eq_iff}
use sfa_provider.Boot.{
  Outbound, StartError, duplicated, start_failed, circular, not_found, stuck, contains, assign_tags,
  start_outbounds, Names, Provider, start_providers, zero_counts,
}
use sfa_provider.Boot.Counting.{has_no}
use sfa_provider.Boot.Order.{Order}
use sfa_provider.Boot.Reasons.{depends, chain_from, Explains}
use sfa_provider.Boot.Loop.{IsRight, start_outbounds-IsRight}

-- Every dependency is the tag of an outbound, and comes earlier in the order of the ranks.
pub record IsRanked (outbounds : List Outbound) (rank : String → ℕ) : Type 0 where
  pub exists :
      (o : Outbound) (d : String)
      → Memᴰ o outbounds
      → contains o.dependencies d ≡ true
      → has_no d outbounds ≡ false
  pub earlier :
      (o : Outbound) (d : String)
      → Memᴰ o outbounds
      → contains o.dependencies d ≡ true
      → rank d < rank o.tag

abbrev pub AllStart : List Outbound → Type 0
AllStart outbounds = (o : Outbound) → Memᴰ o outbounds → o.starts ≡ none

depends-some :
    (outbounds : List Outbound) (a b : String)
    → depends outbounds a b ≡ true
    → (o : Outbound) × Memᴰ o outbounds × (o.tag ≡ a) × (contains o.dependencies b ≡ true)
depends-some [] a b h = ground (arith)
depends-some (o ∷ outbounds) a b h =
    at (o.tag == a) (contains o.dependencies b) refl refl h (depends-some outbounds a b)
  where
    at :
        (x y : Bool)
        → (o.tag == a) ≡ x
        → contains o.dependencies b ≡ y
        → ((x && y) || depends outbounds a b) ≡ true
        → (depends outbounds a b ≡ true
            → (p : Outbound) × Memᴰ p outbounds × (p.tag ≡ a) × (contains p.dependencies b ≡ true))
        → (p : Outbound) × Memᴰ p (o ∷ outbounds) × (p.tag ≡ a) × (contains p.dependencies b ≡ true)
    at true true e f h rest = (o, Memᴰ.head refl, ground (arith, eq_iff o.tag a), f)
    at true false e f h rest =
        (let found = rest h in (found.0, Memᴰ.tail found.1, found.2, found.3))
    at false y e f h rest = (let found = rest h in (found.0, Memᴰ.tail found.1, found.2, found.3))

module _ (outbounds : List Outbound) (rank : String → ℕ) (ranked : IsRanked outbounds rank) where
  depends-earlier : (a b : String) → depends outbounds a b ≡ true → rank b < rank a
  depends-earlier a b h =
      let found = depends-some outbounds a b h in
      let lower = ranked.earlier found.0 b found.1 found.3 in
      let same = ap rank found.2 in omega arith

  chain_from-earlier :
      (a b : String) (tags : List String)
      → chain_from outbounds a (tags ++ b ∷ []) ≡ true
      → rank b < rank a
  chain_from-earlier a b [] h = ground (arith, depends-earlier a b)
  chain_from-earlier a b (x ∷ tags) h =
      ground (arith, depends-earlier a x, chain_from-earlier x b tags)

  no_circle :
      (a b : String) (tags : List String)
      → chain_from outbounds a (tags ++ b ∷ []) ≡ true
      → contains (a ∷ tags) b ≡ false
  no_circle a b [] h = ground (arith, chain_from-earlier a b [] h, eq_iff a b)
  no_circle a b (x ∷ tags) h =
      ground (arith, chain_from-earlier a b (x ∷ tags) h, eq_iff a b, no_circle x b tags)

  -- Nothing explains a failure.
  not_explained : (e : StartError) → Explains outbounds e → ⊥
  not_explained (circular [] tag) h = ground (arith)
  not_explained (circular (a ∷ tree) tag) h = ground (arith, no_circle a tag tree h.0)
  not_explained (not_found dependency tag) h =
      let found = depends-some outbounds tag dependency h.0 in
      ground (arith, ranked.exists found.0 dependency found.1 found.3)
  not_explained (duplicated _) h = h
  not_explained (start_failed _ _) h = h
  not_explained stuck h = h

Right-ok :
    (outbounds : List Outbound) (rank : String → ℕ) (t : Result StartError (List String))
    → IsRanked outbounds rank
    → AllStart outbounds
    → IsRight outbounds t
    → (started : List String) × (t ≡ ok started)
      × Order outbounds started
      × (length started ≡ length outbounds)
Right-ok outbounds rank (ok started) ranked starts h = (started, refl, h.0, h.1)
Right-ok outbounds rank (err (start_failed tag m)) ranked starts (o, among, e, same) =
    absurd (ground (arith, starts o among))
Right-ok outbounds rank (err (duplicated tag)) ranked starts h = absurd h
Right-ok outbounds rank (err (circular tree tag)) ranked starts h =
    absurd (not_explained outbounds rank ranked (circular tree tag) h)
Right-ok outbounds rank (err (not_found d tag)) ranked starts h =
    absurd (not_explained outbounds rank ranked (not_found d tag) h)
Right-ok outbounds rank (err stuck) ranked starts h = absurd h

-- Where startProviderOutbounds has no error, the tags differ, every dependency is the tag of an
-- outbound with a smaller rank, for some rank of the tags, and no Start has an error, startOutbounds
-- has no error: it started each outbound once, after all its dependencies.
pub start_outbounds_complete :
    (names : Names) (providers provided : List Provider) (outbounds tagged : List Outbound)
    (rank : String → ℕ)
    → assign_tags names.itoa 0 [] outbounds ≡ ok tagged
    → start_providers names 0 (zero_counts tagged) providers ≡ ok provided
    → IsRanked tagged rank
    → AllStart tagged
    → (started : List String) × (start_outbounds names providers outbounds ≡ ok started)
      × Order tagged started
      × (length started ≡ length tagged)
start_outbounds_complete names providers provided outbounds tagged rank h g ranked starts =
    Right-ok tagged rank (start_outbounds names providers outbounds) ranked starts
      (start_outbounds-IsRight names providers provided outbounds tagged h g)
