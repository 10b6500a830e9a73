-- ===== src/Group/UrlTest/Zero.antt =====
-- Select of outbound/urltest.go where a measured delay is 0, the value that stands for no delay.
use sfa_provider.Prelude.{ℕ, none, some, true, [], ◌∷◌, ◌≡◌, ap, ◌∙◌}
use sfa_provider.Group.Members.{Network, Outbound, real_tag, History, load_history}
use sfa_provider.Group.UrlTest.{UrlTestGroup, selected, Candidate, measured, improve, scan, select}
use sfa_provider.Group.UrlTest.Scan.{visible, improve-seen}
use sfa_provider.Group.UrlTest.Settled.{answer, start, select-answer}

module _ (network : Network) (g : UrlTestGroup) where
  -- Select leaves a selected member whose delay is 0 for the next tested member, however slow.
  pub zero_delay_lost :
      (fast slow : Outbound) (t : ℕ) (y : History)
      → g.outbounds ≡ fast ∷ slow ∷ []
      → selected network g ≡ some fast
      → load_history g.history (real_tag fast) ≡ some (record { time = t; delay = 0 })
      → visible network g.tolerance g.history fast ≡ some (record { time = t; delay = 0 })
      → visible network g.tolerance g.history slow ≡ some y
      → select network g ≡ (some slow, true)
  unfolding scan
  zero_delay_lost fast slow t y o e l f s =
      select-answer network g
      ∙ ap (answer network g) (
          ap (λ ds. scan network g.tolerance g.history ds (start network g)) o
          ∙ ap (λ c. scan network g.tolerance g.history (fast ∷ slow ∷ []) c)
              (ap (measured g.history) e
                ∙ ap
                    (λ h. elim h as (λ x. Candidate) [
                      | some x ↦ (some fast, x.delay)
                      | none ↦ (none, 0)
                    ])
                    l)
          ∙ ap (improve network g.tolerance g.history slow)
              (improve-seen network g.tolerance g.history fast (some fast, 0) _ f)
          ∙ improve-seen network g.tolerance g.history slow (some fast, 0) y s)
