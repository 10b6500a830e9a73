-- ===== src/Group/Selector/Choice.antt =====
-- The member that a selector turns to when a provider has other outbounds (outbound/selector.go).
use mathlib.Core.Path.{subst}
use sfa_provider.Prelude.{
  String, none, some, Bool, true, List, [], ◌∷◌, ◌++◌, ◌==◌, string_key, Map, empty_map, insert,
  Result, ok, err, ◌>>=◌, any, if◌then◌else◌, ◌≡◌, refl, sym, ap, ◌∙◌, if_intro, elim_Option, arith,
}
use sfa_provider.Group.Members.{Outbound}
use sfa_provider.Group.Selector.{
  Router, PickError, default_not_found, Selector, Picked, pick_tags, pick_members, pick_uses,
  saved_tag, pick_default, pick_saved, choose_outbound, pick_from, pick_outbounds, after_update,
  update_outbounds,
}

-- The outbound is the first one.
abbrev IsFirst : Outbound → List Outbound → Type 0
IsFirst first [] = ⊥
IsFirst first (o ∷ outbounds) = o ≡ first

IsFirst-append :
    (first d : Outbound) (outbounds : List Outbound)
    → IsFirst first outbounds
    → IsFirst first (outbounds ++ d ∷ [])
IsFirst-append first d [] h = absurd h
IsFirst-append first d (o ∷ outbounds) h = h

abbrev AreFirst : Outbound → Result PickError Picked → Type 0
AreFirst first (ok picked) = IsFirst first picked.0
AreFirst first (err e) = Unit

pick_tags-First :
    (first : Outbound) (router : Router) (tags : List String) (picked : Picked)
    → IsFirst first picked.0
    → AreFirst first (pick_tags router tags picked)
unfolding pick_tags
pick_tags-First first router [] picked h = h
pick_tags-First first router (tag ∷ tags) picked h =
    elim_Option (AreFirst first) (router.outbound tag) _ _ (λ missing. tt)
      (λ detour found.
        pick_tags-First first router tags (picked.0 ++ detour ∷ [], insert tag detour picked.1)
          (IsFirst-append first detour picked.0 h))

pick_members-First :
    (first : Outbound) (f : Outbound → Bool) (outbounds : List Outbound) (picked : Picked)
    → IsFirst first picked.0
    → IsFirst first (pick_members f outbounds picked).0
unfolding pick_members
pick_members-First first f [] picked h = h
pick_members-First first f (o ∷ outbounds) picked h =
    if_intro (λ (p : Picked). IsFirst first p.0) (f o) _ _
      (pick_members-First first f outbounds (picked.0 ++ o ∷ [], insert o.tag o picked.1)
        (IsFirst-append first o picked.0 h))
      (pick_members-First first f outbounds picked h)

pick_uses-First :
    (first : Outbound) (router : Router) (f : Outbound → Bool) (uses providers : List String)
    (picked : Picked)
    → IsFirst first picked.0
    → AreFirst first (pick_uses router f uses providers picked).1
unfolding pick_uses
pick_uses-First first router f [] providers picked h = h
pick_uses-First first router f (tag ∷ uses) providers picked h =
    elim_Option (λ (r : List String × Result PickError Picked). AreFirst first r.1)
      (router.provider tag) _ _ (λ missing. tt)
      (λ outbounds found.
        pick_uses-First first router f uses _ (pick_members f outbounds picked)
          (pick_members-First first f outbounds picked h))

abbrev Takes : Outbound → Result PickError (Picked × Outbound) → Type 0
Takes first (ok (picked, detour)) = detour ≡ first
Takes first (err e) = Unit

module _ (s : Selector) (no_file : s.cache_file ≡ none) (no_default : s.default_tag ≡ "") where
  nothing_saved : saved_tag s ≡ ""
  nothing_saved = if_intro (λ t. t ≡ "") (s.tag == "") _ _ refl (simp (no_file))

  pick_saved-first : (o : Outbound) (m : Map String Outbound) → pick_saved s o m ≡ ok o
  pick_saved-first o m =
      ap
        (λ t.
          if t == "" then pick_default s o m else elim (m t) as (λ x. Result PickError Outbound) [
            | none ↦ pick_default s o m
            | some detour ↦ ok detour
          ])
        nothing_saved
      ∙ ap
          (λ t. if t == "" then ok o else elim (m t) as (λ x. Result PickError Outbound) [
            | none ↦ err (default_not_found t)
            | some detour ↦ ok detour
          ])
          no_default

  choose-first :
      (first : Outbound) (router : Router) (picked : Picked)
      → IsFirst first picked.0
      → Takes first (choose_outbound router s picked)
  choose-first first router ([], m) h = absurd h
  choose-first first router (o ∷ outbounds, m) h =
      subst (λ r. Takes first (r >>= λ detour. ok ((o ∷ outbounds, m), detour)))
        (sym (pick_saved-first o m)) h

  pick_outbounds-first :
      (first : Outbound) (router : Router) (tag : String) (tags : List String)
      → s.tags ≡ tag ∷ tags
      → router.outbound tag ≡ some first
      → Takes first (pick_outbounds router s).1
  unfolding pick_tags
  pick_outbounds-first first router tag tags e found =
      subst (λ ts. Takes first (pick_from router s (pick_tags router ts ([], empty_map))).1) (sym e)
        (elim_Option (λ r. Takes first (pick_from router s r).1) (router.outbound tag) _ _
          (λ missing. absurd (ground (arith)))
          (λ detour got.
            of_tags _
              (pick_tags-First first router tags (detour ∷ [], insert tag detour empty_map) cc)))
    where
      of_uses :
          (r : Result PickError Picked)
          → AreFirst first r
          → Takes first (r >>= choose_outbound router s)
      of_uses (ok picked) h = choose-first first router picked h
      of_uses (err failed) h = tt

      of_tags :
          (r : Result PickError Picked) → AreFirst first r → Takes first (pick_from router s r).1
      of_tags (ok picked) h =
          of_uses _ (pick_uses-First first router s.outbound_filter s.uses s.providers picked h)
      of_tags (err failed) h = tt

  updated-first :
      (first : Outbound) (r : List String × Result PickError (Picked × Outbound))
      → Takes first r.1
      → (after_update s r).1 ≡ none
      → (after_update s r).0.selected ≡ some first
  updated-first first (providers, ok (picked, detour)) h fine = ap some h
  updated-first first (providers, err e) h failed = absurd (ground (arith))

-- A selector without a cache file and without a default, whose first tag is that of an outbound of the
-- router: after an UpdateOutbounds for one of its providers without an error, that outbound is
-- selected, whatever was selected before.
pub choice_forgotten :
    (s : Selector) (router : Router) (provider tag : String) (tags : List String) (first : Outbound)
    → s.cache_file ≡ none
    → s.default_tag ≡ ""
    → s.tags ≡ tag ∷ tags
    → router.outbound tag ≡ some first
    → any (λ t. t == provider) s.providers ≡ true
    → (update_outbounds router provider s).1 ≡ none
    → (update_outbounds router provider s).0.selected ≡ some first
unfolding update_outbounds
choice_forgotten s router provider tag tags first no_file no_default e found used fine =
    ap (λ r. r.0.selected) taken
    ∙ updated-first s no_file no_default first (pick_outbounds router s)
        (pick_outbounds-first s no_file no_default first router tag tags e found)
        (sym (ap (λ r. r.1) taken) ∙ fine)
  where
    taken : update_outbounds router provider s ≡ after_update s (pick_outbounds router s)
    taken = ap (λ b. if b then after_update s (pick_outbounds router s) else (s, none)) used
