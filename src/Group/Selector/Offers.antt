-- ===== src/Group/Selector/Offers.antt =====
-- The outbounds of a provider among those that a selector picks (outbound/selector.go).
use mathlib.Core.List.{Memᴰ}
use mathlib.Core.List.Memᴰ
use mathlib.Core.Path.{subst}
use sfa_provider.Prelude.{
  String, Option, none, some, Bool, true, false, List, [], ◌∷◌, ◌++◌, ◌==◌, string_key, empty_map,
  insert, Result, ok, err, ◌>>=◌, any, if◌then◌else◌, ◌≡◌, refl, ap, if_intro, if_elim, elim_Option,
  Bool-cases, inl, inr, ◌⊎◌, arith,
}
use sfa_provider.Group.Members.{Outbound}
use sfa_provider.Group.Selector.{
  Router, PickError, Selector, Picked, pick_tags, pick_members, pick_uses, pick_saved,
  choose_outbound, pick_from, pick_outbounds, after_update, update_outbounds,
}

module _ (o : Outbound) where
  pick_members-keeps :
      (f : Outbound → Bool) (outbounds : List Outbound) (picked : Picked)
      → Memᴰ o picked.0
      → Memᴰ o (pick_members f outbounds picked).0
  unfolding pick_members
  pick_members-keeps f [] picked h = h
  pick_members-keeps f (d ∷ outbounds) picked h =
      if_intro (λ (p : Picked). Memᴰ o p.0) (f d) _ _
        (pick_members-keeps f outbounds (picked.0 ++ d ∷ [], insert d.tag d picked.1)
          (Memᴰ.append_left (d ∷ []) h))
        (pick_members-keeps f outbounds picked h)

  pick_members-adds :
      (f : Outbound → Bool) (outbounds : List Outbound) (picked : Picked)
      → Memᴰ o outbounds
      → f o ≡ true
      → Memᴰ o (pick_members f outbounds picked).0
  unfolding pick_members
  pick_members-adds f [] picked m admitted = elim m [ ]
  pick_members-adds f (d ∷ outbounds) picked (Memᴰ.head e) admitted =
      if_elim (λ (p : Picked). Memᴰ o p.0) (f d) _ _
        (λ passed.
          pick_members-keeps f outbounds (picked.0 ++ d ∷ [], insert d.tag d picked.1)
            (Memᴰ.append_right picked.0 (Memᴰ.head e)))
        (λ left_out. let same = ap f e in absurd (ground (arith, same, admitted, left_out)))
  pick_members-adds f (d ∷ outbounds) picked (Memᴰ.tail m) admitted =
      if_intro (λ (p : Picked). Memᴰ o p.0) (f d) _ _
        (pick_members-adds f outbounds (picked.0 ++ d ∷ [], insert d.tag d picked.1) m admitted)
        (pick_members-adds f outbounds picked m admitted)

  abbrev Has : Result PickError Picked → Type 0
  Has (ok picked) = Memᴰ o picked.0
  Has (err e) = Unit

  pick_uses-keeps :
      (router : Router) (f : Outbound → Bool) (uses providers : List String) (picked : Picked)
      → Memᴰ o picked.0
      → Has (pick_uses router f uses providers picked).1
  unfolding pick_uses
  pick_uses-keeps router f [] providers picked h = h
  pick_uses-keeps router f (tag ∷ uses) providers picked h =
      elim_Option (λ (r : List String × Result PickError Picked). Has r.1) (router.provider tag) _ _
        (λ missing. tt)
        (λ outbounds found.
          pick_uses-keeps router f uses _ (pick_members f outbounds picked)
            (pick_members-keeps f outbounds picked h))

  module _ (router : Router) (f : Outbound → Bool) (tag : String) (members : List Outbound)
      (known : router.provider tag ≡ some members) (m : Memᴰ o members)
      (admitted : f o ≡ true) where
    pick_uses-adds :
        (uses providers : List String) (picked : Picked)
        → any (λ t. t == tag) uses ≡ true
        → Has (pick_uses router f uses providers picked).1
    unfolding pick_uses
    pick_uses-adds [] providers picked h = absurd (ground (arith, h))
    pick_uses-adds (t ∷ uses) providers picked h =
        elim_Option (λ (r : List String × Result PickError Picked). Has r.1) (router.provider t) _ _
          (λ missing. tt)
          (λ outbounds found.
            at outbounds found (λ rest. pick_uses-adds uses _ _ rest) (Bool-cases (t == tag)))
      where
        Picks : List Outbound → Type 0
        Picks outbounds =
            Has
              (pick_uses router f uses
                (if any (λ x. x == t) providers then providers else t ∷ providers)
                (pick_members f outbounds picked)).1

        at :
            (outbounds : List Outbound)
            → router.provider t ≡ some outbounds
            → (any (λ x. x == tag) uses ≡ true → Picks outbounds)
            → ((t == tag) ≡ true) ⊎ ((t == tag) ≡ false)
            → Picks outbounds
        at outbounds found rest (inl equal_tags) =
            let same = ap router.provider ((string_key.equal_iff t tag).0 equal_tags) in
            let equal : members ≡ outbounds = cc in
            pick_uses-keeps router f uses _ (pick_members f outbounds picked)
              (pick_members-adds f outbounds picked (subst (λ x. Memᴰ o x) equal m) admitted)
        at outbounds found rest (inr other) = rest (ground (arith, h, other))

  abbrev HasChosen : Result PickError (Picked × Outbound) → Type 0
  HasChosen (ok ((outbounds, by_tag), detour)) = Memᴰ o outbounds
  HasChosen (err e) = Unit

  choose-Has :
      (router : Router) (s : Selector) (r : Result PickError Picked)
      → Has r
      → HasChosen (r >>= choose_outbound router s)
  choose-Has router s (err e) h = tt
  choose-Has router s (ok ([], by_tag)) h = elim h [ ]
  choose-Has router s (ok (first ∷ outbounds, by_tag)) h = at (pick_saved s first by_tag)
    where
      at :
          (r : Result PickError Outbound)
          → HasChosen (r >>= λ detour. ok ((first ∷ outbounds, by_tag), detour))
      at (ok detour) = h
      at (err e) = tt

  pick_outbounds-Has :
      (router : Router) (s : Selector) (tag : String) (members : List Outbound)
      → router.provider tag ≡ some members
      → Memᴰ o members
      → s.outbound_filter o ≡ true
      → any (λ t. t == tag) s.uses ≡ true
      → HasChosen (pick_outbounds router s).1
  pick_outbounds-Has router s tag members known m admitted used =
      at (pick_tags router s.tags ([], empty_map))
    where
      at : (r : Result PickError Picked) → HasChosen (pick_from router s r).1
      at (err e) = tt
      at (ok picked) = choose-Has router s _ (
          pick_uses-adds router s.outbound_filter tag members known m admitted s.uses s.providers
            picked used)

-- The selector, if it knows the provider with the tag and uses it, has each of these members that its
-- filter admits among its outbounds.
abbrev pub Offers : String → List Outbound → Selector → Type 0
Offers tag members s =
    any (λ t. t == tag) s.providers ≡ true
    → any (λ t. t == tag) s.uses ≡ true
    → (o : Outbound) → Memᴰ o members
    → s.outbound_filter o ≡ true
    → Memᴰ o s.outbounds

-- After a failed update, the outbounds and the choice of a selector are the ones before.
abbrev pub HasKept : Selector → Selector → Type 0
HasKept s s' =
    (s'.outbounds ≡ s.outbounds)
    × (s'.outbound_by_tag ≡ s.outbound_by_tag)
    × (s'.selected ≡ s.selected)

abbrev pub IsUpdate : String → List Outbound → Selector → Selector × Option PickError → Type 0
IsUpdate tag members s (s', none) = Offers tag members s'
IsUpdate tag members s (s', some e) = HasKept s s'

pub update_outbounds-Offers :
    (router : Router) (tag : String) (members : List Outbound) (s : Selector)
    → router.provider tag ≡ some members
    → IsUpdate tag members s (update_outbounds router tag s)
unfolding update_outbounds
update_outbounds-Offers router tag members s known =
    if_elim (IsUpdate tag members s) (any (λ t. t == tag) s.providers) _ _
      (λ noted.
        at (pick_outbounds router s)
          (λ used o m admitted. pick_outbounds-Has o router s tag members known m admitted used))
      (λ unknown noted used o m admitted. absurd (ground (arith, unknown, noted)))
  where
    at :
        (r : List String × Result PickError (Picked × Outbound))
        → (any (λ t. t == tag) s.uses ≡ true
            → (o : Outbound) → Memᴰ o members
            → s.outbound_filter o ≡ true
            → HasChosen o r.1)
        → IsUpdate tag members s (after_update s r)
    at (providers, err e) h = (refl, refl, refl)
    at (providers, ok ((outbounds, by_tag), detour)) h = λ noted used. h used
