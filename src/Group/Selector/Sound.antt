-- ===== src/Group/Selector/Sound.antt =====
-- The selected outbound is one of the selector's (outbound/selector.go).
use mathlib.Core.List.{Memᴰ}
use mathlib.Core.List.Memᴰ
use sfa_provider.Prelude.{
  String, some, Bool, true, false, List, [], ◌∷◌, ◌++◌, ◌==◌, string_key, Map, empty_map, insert,
  Result, ok, err, ◌>>=◌, if◌then◌else◌, ◌≡◌, refl, sym, if_intro, elim_Option, arith,
}
use sfa_provider.Group.Members.{Outbound}
use sfa_provider.Group.Selector.{
  Router, PickError, Selector, Picked, pick_tags, pick_members, pick_uses, saved_tag, pick_default,
  pick_saved, choose_outbound, pick_from, pick_outbounds,
}

-- What is found under a tag is one of the outbounds.
abbrev pub IsIndexed : List Outbound → Map String Outbound → Type 0
IsIndexed outbounds m = (tag : String) (o : Outbound) → m tag ≡ some o → Memᴰ o outbounds

IsIndexed-add :
    (outbounds : List Outbound) (m : Map String Outbound) (tag : String) (d : Outbound)
    → IsIndexed outbounds m
    → IsIndexed (outbounds ++ d ∷ []) (insert tag d m)
IsIndexed-add outbounds m tag d h t o e = at (t == tag) e
  where
    at : (b : Bool) → (if b then some d else m t) ≡ some o → Memᴰ o (outbounds ++ d ∷ [])
    at true e = let same : d ≡ o = cc in Memᴰ.append_right outbounds (Memᴰ.head (sym same))
    at false e = Memᴰ.append_left (d ∷ []) (h t o e)

abbrev AreIndexed : Result PickError Picked → Type 0
AreIndexed (ok picked) = IsIndexed picked.0 picked.1
AreIndexed (err e) = Unit

pick_tags-Indexed :
    (router : Router) (tags : List String) (picked : Picked)
    → IsIndexed picked.0 picked.1
    → AreIndexed (pick_tags router tags picked)
unfolding pick_tags
pick_tags-Indexed router [] picked h = h
pick_tags-Indexed router (tag ∷ tags) picked h =
    elim_Option AreIndexed (router.outbound tag) _ _ (λ missing. tt)
      (λ detour found.
        pick_tags-Indexed router tags (picked.0 ++ detour ∷ [], insert tag detour picked.1)
          (IsIndexed-add picked.0 picked.1 tag detour h))

pick_members-Indexed :
    (f : Outbound → Bool) (outbounds : List Outbound) (picked : Picked)
    → IsIndexed picked.0 picked.1
    → IsIndexed (pick_members f outbounds picked).0 (pick_members f outbounds picked).1
unfolding pick_members
pick_members-Indexed f [] picked h = h
pick_members-Indexed f (o ∷ outbounds) picked h =
    if_intro (λ (p : Picked). IsIndexed p.0 p.1) (f o) _ _
      (pick_members-Indexed f outbounds (picked.0 ++ o ∷ [], insert o.tag o picked.1)
        (IsIndexed-add picked.0 picked.1 o.tag o h))
      (pick_members-Indexed f outbounds picked h)

pick_uses-Indexed :
    (router : Router) (f : Outbound → Bool) (uses providers : List String) (picked : Picked)
    → IsIndexed picked.0 picked.1
    → AreIndexed (pick_uses router f uses providers picked).1
unfolding pick_uses
pick_uses-Indexed router f [] providers picked h = h
pick_uses-Indexed router f (tag ∷ uses) providers picked h =
    elim_Option (λ (r : List String × Result PickError Picked). AreIndexed r.1)
      (router.provider tag) _ _ (λ missing. tt)
      (λ outbounds found.
        pick_uses-Indexed router f uses _ (pick_members f outbounds picked)
          (pick_members-Indexed f outbounds picked h))

-- The choice is one of the outbounds.
abbrev pub IsChosen : Result PickError (Picked × Outbound) → Type 0
IsChosen (ok ((outbounds, m), detour)) = IsIndexed outbounds m × Memᴰ detour outbounds
IsChosen (err e) = Unit

abbrev IsFound : List Outbound → Result PickError Outbound → Type 0
IsFound outbounds (ok detour) = Memᴰ detour outbounds
IsFound outbounds (err e) = Unit

pick_default-Found :
    (s : Selector) (first : Outbound) (outbounds : List Outbound) (m : Map String Outbound)
    → IsIndexed (first ∷ outbounds) m
    → IsFound (first ∷ outbounds) (pick_default s first m)
pick_default-Found s first outbounds m h =
    if_intro (IsFound (first ∷ outbounds)) (s.default_tag == "") _ _ (Memᴰ.head refl) (
      elim_Option (IsFound (first ∷ outbounds)) (m s.default_tag) _ _ (λ missing. tt)
        (λ detour found. h s.default_tag detour found))

pick_saved-Found :
    (s : Selector) (first : Outbound) (outbounds : List Outbound) (m : Map String Outbound)
    → IsIndexed (first ∷ outbounds) m
    → IsFound (first ∷ outbounds) (pick_saved s first m)
pick_saved-Found s first outbounds m h =
    if_intro (IsFound (first ∷ outbounds)) (saved_tag s == "") _ _
      (pick_default-Found s first outbounds m h)
      (elim_Option (IsFound (first ∷ outbounds)) (m (saved_tag s)) _ _
        (λ missing. pick_default-Found s first outbounds m h)
        (λ detour found. h (saved_tag s) detour found))

choose-Chosen :
    (router : Router) (s : Selector) (picked : Picked)
    → IsIndexed picked.0 picked.1
    → IsChosen (choose_outbound router s picked)
choose-Chosen router s ([], m) h =
    (IsIndexed-add [] m "OUTBOUNDLESS" router.outboundless h, Memᴰ.head refl)
choose-Chosen router s (first ∷ outbounds, m) h =
    at (pick_saved s first m) (pick_saved-Found s first outbounds m h)
  where
    at :
        (r : Result PickError Outbound)
        → IsFound (first ∷ outbounds) r
        → IsChosen (r >>= λ detour. ok ((first ∷ outbounds, m), detour))
    at (ok detour) found = (h, found)
    at (err e) found = tt

pub pick_outbounds-Chosen : (router : Router) (s : Selector) → IsChosen (pick_outbounds router s).1
pick_outbounds-Chosen router s =
    at (pick_tags router s.tags ([], empty_map))
      (pick_tags-Indexed router s.tags ([], empty_map) (λ t o e. ground (arith)))
  where
    used : (r : Result PickError Picked) → AreIndexed r → IsChosen (r >>= choose_outbound router s)
    used (ok picked) h = choose-Chosen router s picked h
    used (err e) h = tt

    at : (r : Result PickError Picked) → AreIndexed r → IsChosen (pick_from router s r).1
    at (ok picked) h =
        used _ (pick_uses-Indexed router s.outbound_filter s.uses s.providers picked h)
    at (err e) h = tt

-- What is found under a tag is one of the outbounds, and so is the selected outbound, which there is.
abbrev pub IsSound : Selector → Type 0
IsSound s =
    IsIndexed s.outbounds s.outbound_by_tag
    × ((o : Outbound) × (s.selected ≡ some o) × Memᴰ o s.outbounds)
