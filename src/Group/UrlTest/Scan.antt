-- ===== src/Group/UrlTest/Scan.antt =====
-- The loop of Select in outbound/urltest.go, from any candidate that has been measured.
use sfa_provider.Prelude.{
  ℕ, String, ◌+◌, ◌%◌, ◌≤◌, ◌<◌, Option, none, some, Bool, true, false, List, [], ◌∷◌, ◌||◌, ltb,
  nat_eq, if◌then◌else◌, ◌≡◌, refl, sym, ap, ◌∙◌, ◌⊎◌, inl, inr, arith, All, Bool-cases,
  Option-cases,
}
use mathlib.Core.Path.{subst}
use mathlib.Core.Option.{some-injective}
use sfa_provider.Group.Members.{
  Network, Outbound, real_tag, supports, History, HistoryStorage, load_history,
}
use sfa_provider.Group.UrlTest.{Candidate, measured, improve, scan}

-- Every measured delay is positive, and does not overflow with the tolerance.
abbrev pub Regular : ℕ → HistoryStorage → Type 0
Regular tolerance h =
    (tag : String) (x : History)
    → load_history h tag ≡ some x
    → (0 < x.delay) × (x.delay + tolerance < 65536)

-- The test of the loop.
abbrev is_better : ℕ → ℕ → ℕ → Bool
is_better tolerance delay m = nat_eq m 0 || ltb ((delay + tolerance) % 65536) m

better-true :
    (tolerance delay m : ℕ)
    → 0 < m
    → delay + tolerance < 65536
    → is_better tolerance delay m ≡ true
    → delay ≤ m
better-true tolerance delay m p w e = ground arith

better-false :
    (tolerance delay m : ℕ)
    → delay + tolerance < 65536
    → is_better tolerance delay m ≡ false
    → m ≤ delay + tolerance
better-false tolerance delay m w e = ground arith

better-never :
    (tolerance delay m : ℕ)
    → 0 < m
    → delay + tolerance < 65536
    → m ≤ delay + tolerance
    → is_better tolerance delay m ≡ false
better-never tolerance delay m p w e = ground arith

module _ (network : Network) (tolerance : ℕ) (h : HistoryStorage) where
  -- The measurement that the loop sees at a member.
  abbrev pub visible : Outbound → Option History
  visible detour = if supports network detour then load_history h (real_tag detour) else none

  -- A candidate is nothing, or a member with its measured delay.
  abbrev pub IsMeasured : Candidate → Type 0
  IsMeasured (none, delay) = delay ≡ 0
  IsMeasured (some detour, delay) =
      (x : History) × (load_history h (real_tag detour) ≡ some x) × (x.delay ≡ delay)

  -- No measured member is faster than the candidate by more than the tolerance.
  abbrev pub Within : Candidate → Outbound → Type 0
  Within (none, delay) detour = visible detour ≡ none
  Within (some best, delay) detour =
      (y : History) → visible detour ≡ some y → delay ≤ y.delay + tolerance

  abbrev pub Below : Candidate → Candidate → Type 0
  Below (none, m) c = Unit
  Below (some best, m) (none, m') = ⊥
  Below (some best, m) (some best', m') = m' ≤ m

  pub measured-IsMeasured : (o : Option Outbound) → IsMeasured (measured h o)
  measured-IsMeasured none = refl
  measured-IsMeasured (some detour) = measured_at (load_history h (real_tag detour)) refl
    where
      measured_at :
          (o : Option History)
          → load_history h (real_tag detour) ≡ o
          → IsMeasured (elim o [ some x ↦ (some detour, x.delay) | none ↦ (none, 0) ])
      measured_at none e = refl
      measured_at (some x) e = (x, e, refl)

  improve-unseen :
      (detour : Outbound) (c : Candidate)
      → visible detour ≡ none
      → improve network tolerance h detour c ≡ c
  unfolding improve
  improve-unseen detour c e = ground arith

  pub improve-seen :
      (detour : Outbound) (c : Candidate) (y : History)
      → visible detour ≡ some y
      → improve network tolerance h detour c ≡ (
          if nat_eq c.1 0 || ltb ((y.delay + tolerance) % 65536) c.1
          then (some detour, y.delay)
          else c)
  unfolding improve
  improve-seen detour c y e = ground arith

  seen-loads :
      (detour : Outbound) (y : History)
      → visible detour ≡ some y
      → load_history h (real_tag detour) ≡ some y
  seen-loads detour y e = ground arith

  abbrev Improved : Outbound → Candidate → Candidate → Type 0
  Improved detour c c' = IsMeasured c' × Below c c' × Within c' detour

  Below-same : (c : Candidate) → Below c c
  Below-same (none, m) = tt
  Below-same (some best, m) = omega arith

  pub Within-unseen : (c : Candidate) (detour : Outbound) → visible detour ≡ none → Within c detour
  Within-unseen (none, m) detour e = e
  Within-unseen (some best, m) detour e = λ y f. cc

  -- Where the loop sees a measurement.
  taken :
      (detour : Outbound) (c : Candidate) (y : History)
      → Regular tolerance h
      → IsMeasured c
      → visible detour ≡ some y
      → Improved detour c (
          if nat_eq c.1 0 || ltb ((y.delay + tolerance) % 65536) c.1
          then (some detour, y.delay)
          else c)
  taken detour (none, m) y r p e =
      let l = seen-loads detour y e in rw p ((y, l, refl), tt, λ z f. ground arith)
  taken detour (some best, m) y r (x, l, p) e =
      let k = seen-loads detour y e in
      let positive = subst (λ n. 0 < n) p (r (real_tag best) x l).0 in
      elim (Bool-cases (is_better tolerance y.delay m)) [
        | inl b ↦
            subst
              (λ t.
                Improved detour (some best, m)
                  (if t then (some detour, y.delay) else (some best, m)))
              (sym b)
              (
                (y, k, refl),
                better-true tolerance y.delay m positive (r (real_tag detour) y k).1 b,
                λ z f.
                    subst (λ w. y.delay ≤ w.delay + tolerance) (some-injective y z (sym e ∙ f))
                      (omega arith),
              )
        | inr b ↦
            subst
              (λ t.
                Improved detour (some best, m)
                  (if t then (some detour, y.delay) else (some best, m)))
              (sym b)
              (
                (x, l, p),
                omega arith,
                λ z f.
                    subst (λ w. m ≤ w.delay + tolerance) (some-injective y z (sym e ∙ f))
                      (better-false tolerance y.delay m (r (real_tag detour) y k).1 b),
              )
      ]

  improved_lem :
      (detour : Outbound) (c : Candidate)
      → Regular tolerance h
      → IsMeasured c
      → Improved detour c (improve network tolerance h detour c)
  improved_lem detour c r p = elim (Option-cases (visible detour)) [
    | inl e ↦
        subst (Improved detour c) (sym (improve-unseen detour c e))
          (p, Below-same c, Within-unseen c detour e)
    | inr (y, e) ↦
        subst (Improved detour c) (sym (improve-seen detour c y e)) (taken detour c y r p e)
  ]

  Below-trans : (a b c : Candidate) → Below a b → Below b c → Below a c
  Below-trans (none, m) b c p q = tt
  Below-trans (some x, m) (none, k) c p q = absurd p
  Below-trans (some x, m) (some y, k) (none, l) p q = absurd q
  Below-trans (some x, m) (some y, k) (some z, l) p q = omega arith

  Within-Below :
      (a b : Candidate) (detour : Outbound) → Below a b → Within a detour → Within b detour
  Within-Below (none, m) b detour p w = Within-unseen b detour w
  Within-Below (some x, m) (none, k) detour p w = absurd p
  Within-Below (some x, m) (some y, k) detour p w = λ z f. ground (arith, w z f)

  abbrev pub Scanned : List Outbound → Candidate → Candidate → Type 0
  Scanned detours c c' = IsMeasured c' × Below c c' × All (Within c') detours

  pub scan_lem :
      (detours : List Outbound) (c : Candidate)
      → Regular tolerance h
      → IsMeasured c
      → Scanned detours c (scan network tolerance h detours c)
  unfolding scan
  scan_lem [] c r p = (p, Below-same c, tt)
  scan_lem (detour ∷ detours) c r p =
      let c' = improve network tolerance h detour c in
      let i = improved_lem detour c r p in
      let s = scan_lem detours c' r i.0 in
      (s.0, Below-trans c c' _ i.1 s.1, (Within-Below c' _ detour s.1 i.2, s.2))

  -- A candidate that no member beats stays.
  improve-stays :
      (detour : Outbound) (c : Candidate)
      → Regular tolerance h
      → IsMeasured c
      → Within c detour
      → improve network tolerance h detour c ≡ c
  improve-stays detour (none, m) r p w = improve-unseen detour (none, m) w
  improve-stays detour (some best, m) r (x, l, p) w = elim (Option-cases (visible detour)) [
    | inl e ↦ improve-unseen detour (some best, m) e
    | inr (y, e) ↦
        improve-seen detour (some best, m) y e
        ∙ ap (λ b. if b then (some detour, y.delay) else (some best, m))
            (better-never tolerance y.delay m (subst (λ n. 0 < n) p (r (real_tag best) x l).0)
              (r (real_tag detour) y (seen-loads detour y e)).1 (w y e))
  ]

  pub scan-stays :
      (detours : List Outbound) (c : Candidate)
      → Regular tolerance h
      → IsMeasured c
      → All (Within c) detours
      → scan network tolerance h detours c ≡ c
  unfolding scan
  scan-stays [] c r p w = refl
  scan-stays (detour ∷ detours) c r p w =
      ap (scan network tolerance h detours) (improve-stays detour c r p w.0)
      ∙ scan-stays detours c r p w.1

  -- A member of the list for the network.
  abbrev pub Offers : Outbound → List Outbound → Type 0
  Offers detour [] = ⊥
  Offers detour (d ∷ ds) = ((d ≡ detour) × (supports network d ≡ true)) ⊎ Offers detour ds

  improve-source :
      (d : Outbound) (c : Candidate) (detour : Outbound)
      → (improve network tolerance h d c).0 ≡ some detour
      → (c.0 ≡ some detour) ⊎ ((d ≡ detour) × (supports network d ≡ true))
  unfolding improve
  improve-source d c detour e = ground arith

  pub scan-source :
      (ds : List Outbound) (c : Candidate) (detour : Outbound)
      → (scan network tolerance h ds c).0 ≡ some detour
      → (c.0 ≡ some detour) ⊎ Offers detour ds
  unfolding scan
  scan-source [] c detour e = inl e
  scan-source (d ∷ ds) c detour e =
      elim (scan-source ds (improve network tolerance h d c) detour e) [
        | inr o ↦ inr (inr o)
        | inl f ↦ elim (improve-source d c detour f) [ inl g ↦ inl g | inr g ↦ inr (inl g) ]
      ]

  pub measured-source :
      (o : Option Outbound) (detour : Outbound) → (measured h o).0 ≡ some detour → o ≡ some detour
  measured-source none detour e = cc
  measured-source (some d) detour e = ground arith
