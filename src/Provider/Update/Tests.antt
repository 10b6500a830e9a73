-- ===== src/Provider/Update/Tests.antt =====
-- An update of a provider whose outbounds a selector has (provider/default.go, outbound/selector.go).
use sfa_provider.Prelude.{
  none, some, false, true, [], ◌∷◌, string_key, insert, empty_map, map, err, ◌≡◌, refl,
}
use sfa_provider.Boot as Boot
use sfa_provider.Boot.{update_outbound_by_tag}
use sfa_provider.Group.Members.{Outbound, tcp}
use sfa_provider.Group.Interrupt.{new_group}
use sfa_provider.Group.Selector.{
  Router, Selector, pick_tags, pick_members, pick_uses, start, update_outbounds,
}
use sfa_provider.Provider.Start.{free_tag, claim_tag, start_from, start_outbounds}
use sfa_provider.Provider.Update.{
  Updated, group_failed, create_outbounds, out_map, check_change, update_groups,
  update_provider_from_content,
}
use sfa_provider.Provider.Update.Selectors.{selectors, GroupsFollow, groups_follow}
use sfa_provider.Provider.Tests.{names, options_key, sources, filters, provider}

abbrev member : Boot.Outbound → Outbound
member o = record { identity = 1; tag = o.tag; networks = tcp ∷ []; now = none }

abbrev direct : Outbound
direct = record { identity = 0; tag = "direct"; networks = tcp ∷ []; now = none }

abbrev router : Router
router = record {
  outbound = insert "direct" direct empty_map;
  provider = insert "sub" [] empty_map;
  provider_tags = "sub" ∷ [];
  outboundless = direct;
}

abbrev new_selector : Selector
new_selector = record {
  tag = "select";
  tags = [];
  uses = [];
  use_all_providers = true;
  outbound_filter = λ o. true;
  providers = [];
  default_tag = "";
  outbounds = [];
  outbound_by_tag = empty_map;
  selected = none;
  fallback_by_delay_test = false;
  interrupt_group = new_group;
  interrupt_external_connections = false;
  cache_file = none;
}

abbrev running : Selector
running = (start router new_selector).0

starts : start router new_selector ≡ (running, none)
unfolding start pick_tags pick_uses pick_members
starts = refl

abbrev update : Updated Selector
update =
    update_provider_from_content names (selectors member router) sources filters ("a" ∷ [])
      (running ∷ []) provider "links"

-- The selector turns from OUTBOUNDLESS to the outbound of the provider.
turns :
    update.groups
    ≡ record running {
      uses = "sub" ∷ [];
      providers = "sub" ∷ [];
      outbounds = member record { tag = "ai"; dependencies = []; starts = none } ∷ [];
      outbound_by_tag =
          insert "ai" (member record { tag = "ai"; dependencies = []; starts = none }) empty_map;
      selected = some (member record { tag = "ai"; dependencies = []; starts = none });
    }
      ∷ []
unfolding start pick_tags pick_uses pick_members update_provider_from_content check_change out_map
    create_outbounds start_outbounds start_from claim_tag free_tag update_groups
    update_outbound_by_tag update_outbounds
turns = refl

groups_follow_example : GroupsFollow member router "sub" (running ∷ []) update
groups_follow_example =
    groups_follow member router names ("a" ∷ []) (running ∷ []) sources filters provider "links"

-- A selector whose default outbound the provider does not have, and one behind it: the first one of
-- the three keeps the outbound that was closed.
abbrev wanting : Selector
wanting = record running { default_tag = "far"; providers = "sub" ∷ [] }

abbrev failed : Updated Selector
failed =
    update_provider_from_content names (selectors member router) sources filters ("a" ∷ [])
      (running ∷ wanting ∷ running ∷ []) provider "links"

stops :
    (failed.outcome ≡ err (group_failed "update oubounds failed"))
    × (failed.closed ≡ record { tag = "ai"; dependencies = []; starts = none } ∷ [])
    × (map (λ s. map (λ o. o.tag) s.outbounds) failed.groups
        ≡ ("ai" ∷ []) ∷ ("direct" ∷ []) ∷ ("direct" ∷ []) ∷ [])
unfolding start pick_tags pick_uses pick_members update_provider_from_content check_change out_map
    create_outbounds start_outbounds start_from claim_tag free_tag update_groups
    update_outbound_by_tag update_outbounds
stops = (refl, refl, refl)
