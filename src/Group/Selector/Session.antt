-- ===== src/Group/Selector/Session.antt =====
-- A selector from its Start on, through its methods (outbound/selector.go).
use mathlib.Core.List.{Memᴰ}
use mathlib.Core.Path.{subst}
use sfa_provider.Prelude.{
  ℕ, String, Option, none, some, Bool, not, List, [], ◌∷◌, ◌==◌, ◌&&◌, string_key, Result, ok, err,
  any, ◌≡◌, refl, if_intro, elim_Option,
}
use sfa_provider.Group.Members.{Outbound, HistoryStorage, load_history}
use sfa_provider.Group.Selector.{
  Router, PickError, Selector, Picked, pick_outbounds, after_start, with_uses, start, after_update,
  update_outbounds, is_selected, set_selected, select_outbound,
}
use sfa_provider.Group.Selector.Delay.{
  min_delay, take_min_delay, refresh_selected, update_selected, outbound_tag, is_less,
}
use sfa_provider.Group.Selector.Sound.{IsSound, IsChosen, pick_outbounds-Chosen}

-- The states of a selector: after a Start without an error, and after any call, where the router may
-- have other outbounds and the providers others each time.
pub data Session : Selector → Type 0 where
  started_with :
      {s : Selector} (router : Router) (fresh : Selector)
      → start router fresh ≡ (s, none)
      → Session s
  outbounds_updated :
      {s : Selector} (router : Router) (tag : String)
      → Session s
      → Session (update_outbounds router tag s).0
  outbound_selected : {s : Selector} (tag : String) → Session s → Session (select_outbound tag s).0
  selected_updated :
      {s : Selector} (is_direct nested : Outbound → Bool) (histories : HistoryStorage)
      (tag : String)
      → Session s
      → Session (update_selected is_direct nested histories tag s).0

set_selected-IsSound :
    (detour : Outbound) (s : Selector)
    → Memᴰ detour s.outbounds
    → IsSound s
    → IsSound (set_selected detour s)
set_selected-IsSound detour s m h =
    if_intro IsSound (is_selected detour s.selected) _ _ h (h.0, (detour, refl, m))

abbrev IsStart : Selector × Option PickError → Type 0
IsStart (s, none) = IsSound s
IsStart (s, some e) = Unit

started-IsStart :
    (s : Selector) (r : List String × Result PickError (Picked × Outbound))
    → IsChosen r.1
    → IsStart (after_start s r)
started-IsStart s (providers, ok ((outbounds, m), detour)) h = (h.0, (detour, refl, h.1))
started-IsStart s (providers, err e) h = tt

start-IsStart : (router : Router) (s : Selector) → IsStart (start router s)
unfolding start
start-IsStart router s =
    started-IsStart (with_uses router s) (pick_outbounds router (with_uses router s))
      (pick_outbounds-Chosen router (with_uses router s))

updated-IsSound :
    (s : Selector) (r : List String × Result PickError (Picked × Outbound))
    → IsChosen r.1
    → IsSound s
    → IsSound (after_update s r).0
updated-IsSound s (providers, ok ((outbounds, m), detour)) h sound = (h.0, (detour, refl, h.1))
updated-IsSound s (providers, err e) h sound = sound

pub update_outbounds-IsSound :
    (router : Router) (tag : String) (s : Selector)
    → IsSound s
    → IsSound (update_outbounds router tag s).0
unfolding update_outbounds
update_outbounds-IsSound router tag s h =
    if_intro (λ (r : Selector × Option PickError). IsSound r.0) (any (λ t. t == tag) s.providers) _
      _ (updated-IsSound s _ (pick_outbounds-Chosen router s) h) h

select_outbound-IsSound :
    (tag : String) (s : Selector) → IsSound s → IsSound (select_outbound tag s).0
unfolding select_outbound
select_outbound-IsSound tag s h =
    elim_Option (λ (r : Selector × Bool). IsSound r.0) (s.outbound_by_tag tag) _ _ (λ missing. h)
      (λ detour found. set_selected-IsSound detour s (h.0 tag detour found) h)

min_delay-Mem :
    (histories : HistoryStorage) (all_of_them outbounds : List Outbound)
    (best : Outbound × Option ℕ)
    → ((o : Outbound) → Memᴰ o outbounds → Memᴰ o all_of_them)
    → Memᴰ best.0 all_of_them
    → Memᴰ (min_delay histories outbounds best).0 all_of_them
unfolding min_delay
min_delay-Mem histories all_of_them [] best sub m = m
min_delay-Mem histories all_of_them (o ∷ outbounds) best sub m =
    elim_Option (λ (r : Outbound × Option ℕ). Memᴰ r.0 all_of_them)
      (load_history histories (outbound_tag o)) _ _
      (λ missing. min_delay-Mem histories all_of_them outbounds best rest m)
      (λ history found.
        if_intro (λ (r : Outbound × Option ℕ). Memᴰ r.0 all_of_them) (is_less history.delay best.1)
          _ _
          (min_delay-Mem histories all_of_them outbounds (o, some history.delay) rest
            (sub o (Memᴰ.head refl)))
          (min_delay-Mem histories all_of_them outbounds best rest m))
  where
    rest : (x : Outbound) → Memᴰ x outbounds → Memᴰ x all_of_them
    rest x m = sub x (Memᴰ.tail m)

module _ (is_direct nested : Outbound → Bool) (histories : HistoryStorage) where
  abbrev HasSound : Selector × Bool → Type 0
  HasSound r = IsSound r.0

  take_min_delay-IsSound :
      (s : Selector) (first : Outbound) (outbounds : List Outbound)
      → ((o : Outbound) → Memᴰ o (first ∷ outbounds) → Memᴰ o s.outbounds)
      → IsSound s
      → HasSound (take_min_delay histories s (first ∷ outbounds))
  take_min_delay-IsSound s first outbounds sub h =
      elim_Option HasSound (min_delay histories (first ∷ outbounds) (first, none)).1 _ _
        (λ missing. h)
        (λ delay found.
          set_selected-IsSound _ s
            (min_delay-Mem histories s.outbounds (first ∷ outbounds) (first, none) sub
              (sub first (Memᴰ.head refl)))
            h)

  take_min_delay-all :
      (s : Selector) (outbounds : List Outbound)
      → ((o : Outbound) → Memᴰ o outbounds → Memᴰ o s.outbounds)
      → IsSound s
      → HasSound (take_min_delay histories s outbounds)
  take_min_delay-all s [] sub h = h
  take_min_delay-all s (first ∷ outbounds) sub h = take_min_delay-IsSound s first outbounds sub h

  refresh_selected-IsSound :
      (s : Selector) (last : Option Outbound)
      → IsSound s
      → HasSound (refresh_selected is_direct nested histories s last)
  refresh_selected-IsSound s none h = h
  refresh_selected-IsSound s (some last) h = if_intro HasSound (is_direct last) _ _ h (
      elim_Option HasSound (load_history histories (outbound_tag last)) _ _
        (λ missing.
          if_intro HasSound (nested last) _ _ h (take_min_delay-all s s.outbounds (λ o m. m) h))
        (λ history found. h))

  update_selected-IsSound :
      (tag : String) (s : Selector)
      → IsSound s
      → HasSound (update_selected is_direct nested histories tag s)
  unfolding update_selected
  update_selected-IsSound tag s h = if_intro HasSound (not s.fallback_by_delay_test) _ _ h (
      if_intro HasSound (not (tag == "") && not (any (λ t. t == tag) s.providers)) _ _ h
        (refresh_selected-IsSound s s.selected h))

-- After a Start without an error, and any calls of UpdateOutbounds, SelectOutbound and UpdateSelected,
-- also calls that fail, over any outbounds of the router and the providers: the selector has a selected
-- outbound, it is one of the selector's outbounds, and so is what is found under any tag.
pub Session-IsSound : {s : Selector} → Session s → IsSound s
Session-IsSound (started_with router fresh e) = subst IsStart e (start-IsStart router fresh)
Session-IsSound (outbounds_updated {s} router tag session) =
    update_outbounds-IsSound router tag s (Session-IsSound session)
Session-IsSound (outbound_selected {s} tag session) =
    select_outbound-IsSound tag s (Session-IsSound session)
Session-IsSound (selected_updated {s} is_direct nested histories tag session) =
    update_selected-IsSound is_direct nested histories tag s (Session-IsSound session)
