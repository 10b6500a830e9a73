-- ===== src/Group/Selector/Delay.antt =====
-- The fallback of a selector by measured delays (outbound/selector.go).
use sfa_provider.Prelude.{
  ℕ, String, Option, none, some, Bool, true, false, not, List, [], ◌∷◌, ◌==◌, ◌&&◌, string_key, ltb,
  any, if◌then◌else◌,
}
use sfa_provider.Group.Members.{Outbound, HistoryStorage, load_history}
use sfa_provider.Group.Selector.{Selector, set_selected}

-- adapter.OutboundTag
abbrev pub outbound_tag : Outbound → String
outbound_tag detour = elim detour.now [ some tag ↦ tag | none ↦ detour.tag ]

abbrev pub is_less : ℕ → Option ℕ → Bool
is_less delay none = true
is_less delay (some least) = ltb delay least

-- The loop of getMinDelayDetour: the outbound so far, with its delay where it has one.
unfoldable pub min_delay :
    HistoryStorage → List Outbound → Outbound × Option ℕ → Outbound × Option ℕ
min_delay histories [] best = best
min_delay histories (detour ∷ outbounds) best =
    elim (load_history histories (outbound_tag detour)) [
      | none ↦ min_delay histories outbounds best
      | some history ↦
          if is_less history.delay best.1
          then min_delay histories outbounds (detour, some history.delay)
          else min_delay histories outbounds best
    ]

-- The end of UpdateSelected: getMinDelayDetour with what is made of its answer. The source would panic
-- without outbounds.
abbrev pub take_min_delay : HistoryStorage → Selector → List Outbound → Selector × Bool
take_min_delay histories s [] = (s, false)
take_min_delay histories s (first ∷ outbounds) =
    let best = min_delay histories (first ∷ outbounds) (first, none) in
    elim best.1 [ none ↦ (s, false) | some delay ↦ (set_selected best.0 s, true) ]

-- UpdateSelected once the provider is one of the selector's: `is_direct` is the test of the type, and
-- `nested` what UpdateSelected of a member that is a selector answers.
abbrev pub refresh_selected :
    (Outbound → Bool)
    → (Outbound → Bool)
    → HistoryStorage
    → Selector
    → Option Outbound
    → Selector × Bool
refresh_selected is_direct nested histories s none = (s, false)
refresh_selected is_direct nested histories s (some last) =
    if is_direct last then (s, true) else elim (load_history histories (outbound_tag last)) [
      | some history ↦ (s, true)
      | none ↦ if nested last then (s, true) else take_min_delay histories s s.outbounds
    ]

-- UpdateSelected
unfoldable pub update_selected :
    (Outbound → Bool) → (Outbound → Bool) → HistoryStorage → String → Selector → Selector × Bool
update_selected is_direct nested histories tag s =
    if not s.fallback_by_delay_test
    then (s, false)
    else if not (tag == "") && not (any (λ t. t == tag) s.providers)
    then (s, false)
    else refresh_selected is_direct nested histories s s.selected
