-- ===== src/Group/UrlTest/Settled.antt =====
-- Select of outbound/urltest.go: its result, described by the measured delays of the members.
use sfa_provider.Prelude.{
  ℕ, ◌+◌, ◌≤◌, Option, none, some, Bool, true, false, not, List, [], ◌∷◌, nat_eq_iff, if◌then◌else◌,
  ◌≡◌, refl, sym, ap, ◌∙◌, ◌⊎◌, inl, inr, All,
}
use mathlib.Core.Path.{subst}
use mathlib.Core.Option.{some-injective}
use sfa_provider.Group.Members.{Network, Outbound, real_tag, History, load_history}
use sfa_provider.Group.UrlTest.{
  UrlTestGroup, selected, Candidate, measured, scan, first_supporting, select, replaces,
  store_selected, take_choice, update_network,
}
use sfa_provider.Group.UrlTest.Scan.{
  Regular, visible, Within, IsMeasured, measured-IsMeasured, scan_lem, scan-stays, scan-source,
  measured-source, Offers,
}

-- A delay that the measurement, if there is one, does not undercut by more than the tolerance.
abbrev pub IsWithin : ℕ → ℕ → Option History → Type 0
IsWithin tolerance delay none = Unit
IsWithin tolerance delay (some y) = delay ≤ y.delay + tolerance

IsWithin_lem :
    (network : Network) (g : UrlTestGroup) (best : Outbound) (delay : ℕ) (detours : List Outbound)
    → All (Within network g.tolerance g.history (some best, delay)) detours
    → All
        (λ detour. IsWithin g.tolerance delay (visible network g.tolerance g.history detour))
        detours
IsWithin_lem network g best delay [] w = tt
IsWithin_lem network g best delay (detour ∷ detours) w = (
  at (visible network g.tolerance g.history detour) w.0,
  IsWithin_lem network g best delay detours w.1,
)
  where
    at :
        (o : Option History)
        → ((y : History) → o ≡ some y → delay ≤ y.delay + g.tolerance)
        → IsWithin g.tolerance delay o
    at none f = tt
    at (some y) f = f y refl

module _ (network : Network) (g : UrlTestGroup) where
  -- A choice that counts as tested has a measured delay, is the member selected before or one for
  -- the network, and no tested member for the network undercuts it by more than the tolerance.
  -- Any other choice is the first member for the network, where none for it has been tested.
  abbrev pub IsBest : Option Outbound × Bool → Type 0
  IsBest (some detour, true) =
      (x : History) × (load_history g.history (real_tag detour) ≡ some x)
      × All (λ d. IsWithin g.tolerance x.delay (visible network g.tolerance g.history d))
          g.outbounds
      × ((selected network g ≡ some detour)
          ⊎ Offers network g.tolerance g.history detour g.outbounds)
  IsBest (none, true) = ⊥
  IsBest (o, false) =
      (o ≡ first_supporting network g.outbounds)
      × All (λ detour. visible network g.tolerance g.history detour ≡ none) g.outbounds

  abbrev pub answer : Candidate → Option Outbound × Bool
  answer (some detour, m) = (some detour, true)
  answer (none, m) = (first_supporting network g.outbounds, false)

  abbrev pub start : Candidate
  start = measured g.history (selected network g)

  abbrev pub final : Candidate
  final = scan network g.tolerance g.history g.outbounds start

  pub select-answer : select network g ≡ answer final
  unfolding select
  select-answer = by_candidate final
    where
      by_candidate :
          (c : Candidate)
          → (elim c.0 as (λ x. Option Outbound × Bool) [
            | some detour ↦ (some detour, true)
            | none ↦ (first_supporting network g.outbounds, false)
          ])
            ≡ answer c
      by_candidate (some detour, m) = refl
      by_candidate (none, m) = refl

  answer-IsBest :
      (c : Candidate)
      → IsMeasured network g.tolerance g.history c
      → All (Within network g.tolerance g.history c) g.outbounds
      → ((detour : Outbound)
          → c.0 ≡ some detour
          → (selected network g ≡ some detour)
            ⊎ Offers network g.tolerance g.history detour g.outbounds)
      → IsBest (answer c)
  answer-IsBest (some detour, m) (x, l, e) w f = (
    x,
    l,
    subst
        (λ n.
          All (λ d. IsWithin g.tolerance n (visible network g.tolerance g.history d)) g.outbounds)
        (sym e) (IsWithin_lem network g detour m g.outbounds w),
    f detour refl,
  )
  answer-IsBest (none, m) e w f = (refl, w)

  -- Where the delays are regular, Select chooses a best member.
  pub select-IsBest : Regular g.tolerance g.history → IsBest (select network g)
  select-IsBest r =
      let s =
        scan_lem network g.tolerance g.history g.outbounds start r
          (measured-IsMeasured network g.tolerance g.history (selected network g)) in
      subst IsBest (sym select-answer) (
        answer-IsBest final s.0 s.2 (λ detour e.
          elim (scan-source network g.tolerance g.history g.outbounds start detour e) [
            | inl f ↦
                inl (measured-source network g.tolerance g.history (selected network g) detour f)
            | inr o ↦ inr o
          ]))

  unchanged :
      (o : Option Outbound) (exists : Bool)
      → ((d : Outbound) → o ≡ some d → replaces (selected network g) exists d ≡ false)
      → take_choice network (o, exists) g ≡ (g, false)
  unchanged none exists f = refl
  unchanged (some d) exists f =
      ap (λ b. if b then (store_selected network d g, true) else (g, false)) (f d refl)

  same_kept :
      (detour d : Outbound) (m : ℕ)
      → (measured g.history (some detour)) ≡ (some d, m)
      → replaces (some detour) true d ≡ false
  same_kept detour d m e =
      let same =
        some-injective detour d
          (measured-source network g.tolerance g.history (some detour) d (ap (λ c. c.0) e)) in
      ap not ((nat_eq_iff d.identity detour.identity).1 (ap (λ o. o.identity) (sym same)))

  kept :
      (detour : Outbound) (c : Candidate)
      → selected network g ≡ some detour
      → start ≡ c
      → take_choice network (answer c) g ≡ (g, false)
  kept detour (none, m) e f =
      unchanged (first_supporting network g.outbounds) false (λ d h. ap (λ o. replaces o false d) e)
  kept detour (some x, m) e f = unchanged (some x) true (λ d h.
      ap (λ o. replaces o true d) e
      ∙ same_kept detour d m (ap (measured g.history) (sym e) ∙ f ∙ ap (λ o. (o, m)) h))

  -- A selected member that nothing beats is kept.
  pub keeps :
      (detour : Outbound)
      → Regular g.tolerance g.history
      → selected network g ≡ some detour
      → All (Within network g.tolerance g.history start) g.outbounds
      → update_network network g ≡ (g, false)
  unfolding update_network
  keeps detour r e w =
      ap (λ x. take_choice network x g)
        (select-answer
          ∙ ap answer (
              scan-stays network g.tolerance g.history g.outbounds start r
                (measured-IsMeasured network g.tolerance g.history (selected network g)) w))
      ∙ kept detour start e refl
