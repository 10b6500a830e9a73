-- ===== src/Boot/Lint.antt =====
-- What the errors of lintOutbound say is so, and the search ends (box_outbound.go).
use mathlib.Core.List.{Memᴰ}
use sfa_provider.Prelude.{
  ℕ, zero, suc, ◌<◌, String, true, false, List, [], ◌∷◌, ◌++◌, string_key, ◌≡◌, refl, sym, ap, ◌∙◌,
  arith, elim_Bool, elim_Option,
}
use sfa_provider.Boot.{Outbound, contains, by_tag, find_problem, lint_outbound, find_current, lint}
use sfa_provider.Boot.Counting.{has_no, AreDistinct, left_out, left_out-some, left_out-le}
use sfa_provider.Boot.Order.{has_no-Mem}
use sfa_provider.Boot.Round.{blocked}
use sfa_provider.Boot.Reasons.{
  depends, chain_from, Explains, chain_from-append, last, last-append, find_problem-new,
  depends-Mem, blocked-Mem, by_tag-none, by_tag-some, left_out-append, find_current-none,
  find_current-some,
}

-- The state of the search: the tags so far are a chain that ends at the current outbound, which
-- cannot be started.
record Walk (outbounds : List Outbound) (started : List String) (a : String) (tags : List String)
    (current : Outbound) : Type 0 where
  among : Memᴰ current outbounds
  chained : chain_from outbounds a tags ≡ true
  ends : last a tags ≡ current.tag
  new : contains started current.tag ≡ false

module _ (outbounds : List Outbound) (started : List String) (distinct : AreDistinct outbounds)
    (stopped : blocked started outbounds ≡ true) where
  problem_of :
      (current : Outbound)
      → Memᴰ current outbounds
      → contains started current.tag ≡ false
      → (contains started (find_problem started current.dependencies) ≡ false)
        × (contains current.dependencies (find_problem started current.dependencies) ≡ true)
  problem_of current m new =
      find_problem-new started current.dependencies
        (ground (arith, blocked-Mem current started outbounds m stopped))

  step_depends :
      (a : String) (tags : List String) (current : Outbound)
      → Walk outbounds started a tags current
      → depends outbounds (last a tags) (find_problem started current.dependencies) ≡ true
  step_depends a tags current w =
      ap (λ t. depends outbounds t (find_problem started current.dependencies)) w.ends
      ∙ depends-Mem current outbounds _ w.among (problem_of current w.among w.new).1

  lint_outbound-Explains :
      (fuel : ℕ) (a : String) (tags : List String) (current : Outbound)
      → Walk outbounds started a tags current
      → left_out (a ∷ tags) outbounds < fuel
      → Explains outbounds (lint_outbound outbounds started fuel (a ∷ tags) current)
  unfolding lint_outbound
  lint_outbound-Explains zero a tags current w enough = ground (arith)
  lint_outbound-Explains (suc fuel) a tags current w enough =
      elim_Bool (Explains outbounds) (contains (a ∷ tags) problem) _ _
        (λ fresh.
          elim_Option (Explains outbounds) (by_tag outbounds problem) _ _
            (λ none_has. (
              ap (λ t. depends outbounds t problem) (sym w.ends) ∙ step_depends a tags current w,
              by_tag-none outbounds problem none_has,
            ))
            (λ o found.
              lint_outbound-Explains fuel a (tags ++ problem ∷ []) o
                (on_to o (by_tag-some outbounds problem o found))
                (less o fresh (by_tag-some outbounds problem o found))))
        (λ again. (
          chain_from-append outbounds a problem tags w.chained (step_depends a tags current w),
          again,
        ))
    where
      problem : String
      problem = find_problem started current.dependencies

      on_to :
          (o : Outbound)
          → Memᴰ o outbounds × (o.tag ≡ problem)
          → Walk outbounds started a (tags ++ problem ∷ []) o
      on_to o (m, e) = record {
        among = m;
        chained =
            chain_from-append outbounds a problem tags w.chained (step_depends a tags current w);
        ends = last-append a problem tags ∙ sym e;
        new = ap (contains started) e ∙ (problem_of current w.among w.new).0;
      }

      less :
          (o : Outbound)
          → contains (a ∷ tags) problem ≡ false
          → Memᴰ o outbounds × (o.tag ≡ problem)
          → left_out (a ∷ tags ++ problem ∷ []) outbounds < fuel
      less o fresh (m, e) = ground (
        arith,
        left_out-append problem (a ∷ tags) outbounds,
        left_out-some problem (a ∷ tags) outbounds distinct
            (ap (λ t. has_no t outbounds) (sym e) ∙ has_no-Mem o outbounds m) fresh,
      )

  -- Where something is left to start, the error explains why nothing can be started.
  pub lint-Explains : 0 < left_out started outbounds → Explains outbounds (lint outbounds started)
  unfolding lint
  lint-Explains left =
      elim_Option (Explains outbounds) (find_current started outbounds) _ _
        (λ all_started. ground (arith, find_current-none started outbounds all_started))
        (λ current found.
          lint_outbound-Explains _ current.tag [] current
            record {
              among = (find_current-some started outbounds current found).0;
              chained = refl;
              ends = refl;
              new = (find_current-some started outbounds current found).1;
            }
            (ground (arith, left_out-le (current.tag ∷ []) outbounds)))
