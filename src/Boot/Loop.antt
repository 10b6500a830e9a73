-- ===== src/Boot/Loop.antt =====
-- startOutbounds starts every outbound after its dependencies, or says why it cannot
-- (box_outbound.go).
use mathlib.Core.List.{Memᴰ}
use mathlib.Core.Path.{subst}
use sfa_provider.Prelude.{
  ℕ, zero, suc, ◌<◌, String, some, Bool, true, false, List, [], string_key, ◌≡◌, refl, sym, ap, ◌∙◌,
  length, if◌then◌else◌, arith, if_elim, Result, ok, err, ◌>>=◌, nat_eq, nat_eq_iff,
}
use sfa_provider.Boot.{
  Outbound, StartError, duplicated, start_failed, circular, not_found, stuck, start_round, lint,
  start_loop, after_round, assign_tags, start_outbounds, Names, Provider, start_providers,
  zero_counts, after_providers,
}
use sfa_provider.Boot.Counting.{AreDistinct, left_out, left_out-le}
use sfa_provider.Boot.Order.{Order, nothing, Order-length}
use sfa_provider.Boot.Round.{
  blocked, RoundFrom, start_round-Order, start_round-progress, start_round-blocked,
}
use sfa_provider.Boot.Reasons.{Explains}
use sfa_provider.Boot.Tags.{assign_tags-AreDistinct}
use sfa_provider.Boot.Lint.{lint-Explains}

-- What startOutbounds should answer: all outbounds were started in an order that respects the
-- dependencies, or the error of an outbound's Start, or a reason why there is no such order.
abbrev pub IsRight : List Outbound → Result StartError (List String) → Type 0
IsRight outbounds (ok started) = Order outbounds started × (length started ≡ length outbounds)
IsRight outbounds (err (start_failed tag m)) =
    (o : Outbound) × Memᴰ o outbounds × (o.starts ≡ some m) × (o.tag ≡ tag)
IsRight outbounds (err e) = Explains outbounds e

Explains-IsRight :
    (outbounds : List Outbound) (e : StartError) → Explains outbounds e → IsRight outbounds (err e)
Explains-IsRight outbounds (circular tree tag) h = h
Explains-IsRight outbounds (not_found dependency tag) h = h
Explains-IsRight outbounds (duplicated _) h = elim h [ ]
Explains-IsRight outbounds (start_failed _ _) h = elim h [ ]
Explains-IsRight outbounds stuck h = elim h [ ]

module _ (outbounds : List Outbound) (distinct : AreDistinct outbounds) where
  after_round-IsRight :
      (fuel : ℕ) (started later : List String) (go_on : Bool)
      → start_round outbounds started false ≡ ok (later, go_on)
      → Order outbounds started
      → Order outbounds later
      → left_out started outbounds < suc fuel
      → (left_out later outbounds < fuel → IsRight outbounds (start_loop outbounds fuel later))
      → IsRight outbounds (after_round outbounds (start_loop outbounds fuel) (later, go_on))
  after_round-IsRight fuel started later go_on h r r' enough again =
      if_elim (IsRight outbounds) (nat_eq (length later) (length outbounds)) _ _
        (λ all_started. (r', ground (arith, nat_eq_iff (length later) (length outbounds))))
        (λ some_left. at go_on h some_left)
    where
      at :
          (b : Bool)
          → start_round outbounds started false ≡ ok (later, b)
          → nat_eq (length later) (length outbounds) ≡ false
          → IsRight outbounds
              (if b then start_loop outbounds fuel later else err (lint outbounds later))
      at true h some_left = again (
          ground (
            arith,
            start_round-progress outbounds started later h,
            Order-length distinct r,
            Order-length distinct r',
          ))
      at false h some_left =
          let stopped = start_round-blocked outbounds started false later h in
          Explains-IsRight outbounds _ (
            lint-Explains outbounds later distinct
              (ap (λ s. blocked s outbounds) stopped.0 ∙ stopped.2)
              (ground
                (arith, nat_eq_iff (length later) (length outbounds), Order-length distinct r')))

  pub start_loop-IsRight :
      (fuel : ℕ) (started : List String)
      → Order outbounds started
      → left_out started outbounds < fuel
      → IsRight outbounds (start_loop outbounds fuel started)
  unfolding start_loop
  start_loop-IsRight zero started r enough = ground (arith)
  start_loop-IsRight (suc fuel) started r enough =
      at (start_round outbounds started false) refl
        (start_round-Order outbounds outbounds started false (λ o m. m) r)
        (λ later r'. start_loop-IsRight fuel later r')
    where
      at :
          (t : Result StartError (List String × Bool))
          → start_round outbounds started false ≡ t
          → RoundFrom outbounds t
          → ((later : List String)
              → Order outbounds later
              → left_out later outbounds < fuel
              → IsRight outbounds (start_loop outbounds fuel later))
          → IsRight outbounds (t >>= after_round outbounds (start_loop outbounds fuel))
      at (err e) h (o, m, among, s, same) again =
          subst (λ x. IsRight outbounds (err x)) (sym same) (o, among, s, refl)
      at (ok (later, go_on)) h r' again =
          after_round-IsRight fuel started later go_on h r r' enough (again later r')

start_outbounds-providers :
    (names : Names) (providers : List Provider) (t : Result StartError (List Provider))
    (outbounds tagged : List Outbound)
    → assign_tags names.itoa 0 [] outbounds ≡ ok tagged
    → start_providers names 0 (zero_counts tagged) providers ≡ t
    → start_outbounds names providers outbounds ≡ after_providers tagged t
unfolding start_outbounds
start_outbounds-providers names providers t outbounds tagged h g =
    ap (λ r. r >>= λ os. after_providers os (start_providers names 0 (zero_counts os) providers)) h
    ∙ ap (after_providers tagged) g

-- Where startProviderOutbounds has no error and the tags differ once the outbounds without a tag have
-- theirs, startOutbounds ends: either it started every outbound once, in an order where each comes
-- after all its dependencies and no Start failed, or it names an outbound whose Start failed, a chain
-- of dependencies that comes back to one of its tags, or a dependency that no outbound has as its
-- tag. It is never stuck.
pub start_outbounds-IsRight :
    (names : Names) (providers started : List Provider) (outbounds tagged : List Outbound)
    → assign_tags names.itoa 0 [] outbounds ≡ ok tagged
    → start_providers names 0 (zero_counts tagged) providers ≡ ok started
    → IsRight tagged (start_outbounds names providers outbounds)
start_outbounds-IsRight names providers started outbounds tagged h g =
    subst (IsRight tagged) (sym (start_outbounds-providers names providers _ outbounds tagged h g))
      (start_loop-IsRight tagged (assign_tags-AreDistinct names.itoa outbounds tagged h)
        (suc (length tagged)) [] nothing (ground (arith, left_out-le [] tagged)))
