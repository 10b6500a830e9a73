-- ===== src/Group/Selector.antt =====
-- Selector of outbound/selector.go: a group whose member is chosen by the user, and chosen anew when a
-- provider has other outbounds. The members of the router and the providers are read at each call.
pub mod Delay
pub mod Sound
pub mod Offers
pub mod Session
pub mod Choice
mod Tests
use sfa_provider.Prelude.{
  ℕ, String, Option, none, some, Bool, true, false, not, List, [], ◌∷◌, ◌++◌, ◌==◌, ◌||◌, ◌&&◌, ltb,
  string_key, ℕ_key, Map, empty_map, insert, Result, ok, err, ◌>>=◌, any, is_empty, if◌then◌else◌,
}
use sfa_provider.Group.Members.{Outbound, HistoryStorage, load_history}
use sfa_provider.Group.Interrupt.{InterruptGroup, interrupt}

-- adapter.Router as a selector reads it: Outbound, OutboundProvider with its Outbounds, the tags of
-- OutboundProviders, and the outbound OUTBOUNDLESS that box.go always adds.
pub record Router : Type 0 where
  pub outbound : Map String Outbound
  pub provider : Map String (List Outbound)
  pub provider_tags : List String
  pub outboundless : Outbound

pub data PickError : Type 0 where
  outbound_not_found : String → PickError
  provider_not_found : String → PickError
  default_not_found : String → PickError

-- `outbound_filter` is OutboundFilter, `providers` has the keys of the map, and `cache_file` is none
-- without a cache file, and else what LoadSelected reads.
pub record Selector : Type 0 where
  pub tag : String
  pub tags : List String
  pub uses : List String
  pub use_all_providers : Bool
  pub outbound_filter : Outbound → Bool
  pub providers : List String
  pub default_tag : String
  pub outbounds : List Outbound
  pub outbound_by_tag : Map String Outbound
  pub selected : Option Outbound
  pub fallback_by_delay_test : Bool
  pub interrupt_group : InterruptGroup
  pub interrupt_external_connections : Bool
  pub cache_file : Option (Map String String)

abbrev pub Picked : Type 0
Picked = List Outbound × Map String Outbound

-- The loop of pickOutbounds over the tags.
unfoldable pub pick_tags : Router → List String → Picked → Result PickError Picked
pick_tags router [] picked = ok picked
pick_tags router (tag ∷ tags) picked = elim (router.outbound tag) [
  | none ↦ err (outbound_not_found tag)
  | some detour ↦ pick_tags router tags (picked.0 ++ detour ∷ [], insert tag detour picked.1)
]

-- The loop over the outbounds of a provider.
unfoldable pub pick_members : (Outbound → Bool) → List Outbound → Picked → Picked
pick_members outbound_filter [] picked = picked
pick_members outbound_filter (o ∷ outbounds) picked =
    if outbound_filter o
    then pick_members outbound_filter outbounds (picked.0 ++ o ∷ [], insert o.tag o picked.1)
    else pick_members outbound_filter outbounds picked

abbrev add_provider : String → List String → List String
add_provider tag providers = if any (λ t. t == tag) providers then providers else tag ∷ providers

-- The loop over the providers, which notes them in `providers` also where it fails.
unfoldable pub pick_uses :
    Router
    → (Outbound → Bool)
    → List String
    → List String
    → Picked
    → List String × Result PickError Picked
pick_uses router outbound_filter [] providers picked = (providers, ok picked)
pick_uses router outbound_filter (tag ∷ uses) providers picked = elim (router.provider tag) [
  | none ↦ (providers, err (provider_not_found tag))
  | some outbounds ↦
      pick_uses router outbound_filter uses (add_provider tag providers)
        (pick_members outbound_filter outbounds picked)
]

-- cacheFile.LoadSelected for a selector with a tag; "" stands for none.
abbrev pub saved_tag : Selector → String
saved_tag s = if s.tag == "" then "" else elim s.cache_file [
  | none ↦ ""
  | some saved ↦ elim (saved s.tag) [ none ↦ "" | some tag ↦ tag ]
]

-- The end of pickOutbounds, where no outbound was saved, or none that is there.
abbrev pub pick_default : Selector → Outbound → Map String Outbound → Result PickError Outbound
pick_default s first outbound_by_tag =
    if s.default_tag == "" then ok first else elim (outbound_by_tag s.default_tag) [
      | none ↦ err (default_not_found s.default_tag)
      | some detour ↦ ok detour
    ]

abbrev pub pick_saved : Selector → Outbound → Map String Outbound → Result PickError Outbound
pick_saved s first outbound_by_tag =
    if saved_tag s == ""
    then pick_default s first outbound_by_tag
    else elim (outbound_by_tag (saved_tag s)) [
      | none ↦ pick_default s first outbound_by_tag
      | some detour ↦ ok detour
    ]

-- The choice of the outbound, and the outbounds with it.
abbrev pub choose_outbound : Router → Selector → Picked → Result PickError (Picked × Outbound)
choose_outbound router s ([], outbound_by_tag) = ok (
  (router.outboundless ∷ [], insert "OUTBOUNDLESS" router.outboundless outbound_by_tag),
  router.outboundless,
)
choose_outbound router s (first ∷ outbounds, outbound_by_tag) =
    pick_saved s first outbound_by_tag >>= λ detour.
    ok ((first ∷ outbounds, outbound_by_tag), detour)

abbrev pub pick_from :
    Router → Selector → Result PickError Picked → List String × Result PickError (Picked × Outbound)
pick_from router s (err e) = (s.providers, err e)
pick_from router s (ok picked) =
    let used = pick_uses router s.outbound_filter s.uses s.providers picked in
    (used.0, used.1 >>= choose_outbound router s)

-- pickOutbounds: `providers`, and the outbounds with the one that is selected.
abbrev pub pick_outbounds : Router → Selector → List String × Result PickError (Picked × Outbound)
pick_outbounds router s = pick_from router s (pick_tags router s.tags ([], empty_map))

abbrev pub after_start :
    Selector → List String × Result PickError (Picked × Outbound) → Selector × Option PickError
after_start s (providers, err e) =
    (record s { providers = providers; outbounds = []; outbound_by_tag = empty_map }, some e)
after_start s (providers, ok ((outbounds, outbound_by_tag), detour)) = (
  record s {
    providers = providers;
    outbounds = outbounds;
    outbound_by_tag = outbound_by_tag;
    selected = some detour;
  },
  none,
)

abbrev pub with_uses : Router → Selector → Selector
with_uses router s = if s.use_all_providers then record s { uses = router.provider_tags } else s

-- Start
unfoldable pub start : Router → Selector → Selector × Option PickError
start router s = after_start (with_uses router s) (pick_outbounds router (with_uses router s))

abbrev pub after_update :
    Selector → List String × Result PickError (Picked × Outbound) → Selector × Option PickError
after_update s (providers, err e) = (record s { providers = providers }, some e)
after_update s (providers, ok ((outbounds, outbound_by_tag), detour)) = (
  record s {
    providers = providers;
    outbounds = outbounds;
    outbound_by_tag = outbound_by_tag;
    selected = some detour;
  },
  none,
)

-- UpdateOutbounds
unfoldable pub update_outbounds : Router → String → Selector → Selector × Option PickError
update_outbounds router tag s =
    if any (λ t. t == tag) s.providers then after_update s (pick_outbounds router s) else (s, none)

abbrev pub is_selected : Outbound → Option Outbound → Bool
is_selected detour none = false
is_selected detour (some o) = o.identity == detour.identity

-- cacheFile.StoreSelected for a selector with a tag.
abbrev pub store_selected : Outbound → Selector → Option (Map String String)
store_selected detour s =
    if s.tag == ""
    then s.cache_file
    else elim s.cache_file [ none ↦ none | some saved ↦ some (insert s.tag detour.tag saved) ]

-- setSelected, with the deferred Interrupt.
abbrev pub set_selected : Outbound → Selector → Selector
set_selected detour s = if is_selected detour s.selected then s else record s {
  selected = some detour;
  cache_file = store_selected detour s;
  interrupt_group = interrupt s.interrupt_external_connections s.interrupt_group;
}

-- SelectOutbound
unfoldable pub select_outbound : String → Selector → Selector × Bool
select_outbound tag s = elim (s.outbound_by_tag tag) [
  | none ↦ (s, false)
  | some detour ↦ (set_selected detour s, true)
]
