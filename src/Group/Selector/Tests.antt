-- ===== src/Group/Selector/Tests.antt =====
-- A selector over an outbound of the router and those of a provider (outbound/selector.go).
use sfa_provider.Prelude.{
  none, some, true, false, [], any, ◌∷◌, ◌==◌, string_key, empty_map, insert, ◌≡◌, refl,
}
use sfa_provider.Group.Members.{Outbound, tcp, new_history_storage}
use sfa_provider.Group.Interrupt.{interrupt, close_hit, keep_missed, new_group, new_conn}
use sfa_provider.Group.Selector.{
  Router, Selector, provider_not_found, pick_tags, pick_members, pick_uses, start, update_outbounds,
  select_outbound,
}
use sfa_provider.Group.Selector.Delay.{update_selected, min_delay}
use sfa_provider.Group.Selector.Sound.{IsSound}
use sfa_provider.Group.Selector.Session.{
  started_with, outbounds_updated, outbound_selected, Session-IsSound,
}
use sfa_provider.Group.Selector.Choice.{choice_forgotten}

abbrev direct : Outbound
direct = record { identity = 0; tag = "direct"; networks = tcp ∷ []; now = none }

abbrev near : Outbound
near = record { identity = 1; tag = "near"; networks = tcp ∷ []; now = none }

abbrev far : Outbound
far = record { identity = 2; tag = "far"; networks = tcp ∷ []; now = none }

abbrev router : Router
router = record {
  outbound = insert "direct" direct empty_map;
  provider = insert "sub" (near ∷ far ∷ []) empty_map;
  provider_tags = "sub" ∷ [];
  outboundless = direct;
}

abbrev new_selector : Selector
new_selector = record {
  tag = "select";
  tags = "direct" ∷ [];
  uses = "sub" ∷ [];
  use_all_providers = false;
  outbound_filter = λ o. true;
  providers = [];
  default_tag = "";
  outbounds = [];
  outbound_by_tag = empty_map;
  selected = none;
  fallback_by_delay_test = true;
  interrupt_group = new_conn 7 false new_group;
  interrupt_external_connections = false;
  cache_file = none;
}

abbrev running : Selector
running = (start router new_selector).0

starts : start router new_selector ≡ (running, none)
unfolding start pick_tags pick_uses pick_members
starts = refl

starts_with_direct : running.selected ≡ some direct
unfolding start pick_tags pick_uses pick_members
starts_with_direct = refl

abbrev turned : Selector
turned = (select_outbound "far" running).0

turns : (turned.selected ≡ some far) × (turned.interrupt_group.closed ≡ 7 ∷ [])
unfolding start pick_tags pick_uses pick_members select_outbound interrupt close_hit keep_missed
    new_conn
turns = (refl, refl)

-- No delay is known, so that nothing is changed.
stays : (update_selected (λ o. false) (λ o. false) new_history_storage "sub" turned).1 ≡ false
unfolding start pick_tags pick_uses pick_members select_outbound update_selected min_delay
stays = refl

missing_provider :
    (start router (record new_selector { uses = "gone" ∷ [] })).1 ≡ some (provider_not_found "gone")
unfolding start pick_tags pick_uses
missing_provider = refl

Session-IsSound_example :
    IsSound (update_outbounds router "sub" (select_outbound "far" running).0).0
Session-IsSound_example = Session-IsSound (
    outbounds_updated router "sub"
      (outbound_selected "far" (started_with router new_selector starts)))

turned_has :
    (turned.cache_file ≡ none)
    × (turned.default_tag ≡ "")
    × (turned.tags ≡ "direct" ∷ [])
    × (any (λ t. t == "sub") turned.providers ≡ true)
    × ((update_outbounds router "sub" turned).1 ≡ none)
unfolding start pick_tags pick_uses pick_members select_outbound interrupt close_hit keep_missed
    new_conn update_outbounds
turned_has = (refl, refl, refl, refl, refl)

choice_forgotten_example : (update_outbounds router "sub" turned).0.selected ≡ some direct
choice_forgotten_example =
    choice_forgotten turned router "sub" "direct" [] direct turned_has.0 turned_has.1 turned_has.2
      refl turned_has.3 turned_has.4
