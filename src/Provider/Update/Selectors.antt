-- ===== src/Provider/Update/Selectors.antt =====
-- The selectors of the router as the groups that an update of a provider reaches
-- (provider/default.go, outbound/selector.go).
use sfa_provider.Prelude.{
  String, Option, none, some, true, false, List, [], ◌∷◌, string_key, Comparable, Map, insert,
  Result, ok, err, All, map, ◌≡◌, refl, not, if_intro, arith,
}
use sfa_provider.Boot.{Names}
use sfa_provider.Boot as Boot
use sfa_provider.Group.Members.{Outbound}
use sfa_provider.Group.Selector.{Router, PickError, Selector, update_outbounds}
use sfa_provider.Group.Selector.Offers.{Offers, HasKept, IsUpdate, update_outbounds-Offers}
use sfa_provider.Provider.{Options, Filters, ProviderAdapter, filter}
use sfa_provider.Provider.Start.{StartFailure, start_outbounds}
use sfa_provider.Provider.Update.{
  Sources, Groups, Updated, parse_failed, start_error, group_failed, check_change, create_outbounds,
  parsed, update_groups, after_group, settle, install, apply, update_provider_from_content,
}

-- OutboundProvider(tag) of the router while the groups are updated: the provider has its new outbounds.
-- `member` is the outbound of a provider as a member of a group.
abbrev pub with_provider :
    (Boot.Outbound → Outbound) → Router → String → List Boot.Outbound → Router
with_provider member router tag outbounds = record router {
  provider = insert tag (map member outbounds) router.provider;
}

abbrev pub wrap_error : Selector × Option PickError → Selector × Option String
wrap_error (s, none) = (s, none)
wrap_error (s, some e) = (s, some "update oubounds failed")

-- UpdateOutbounds of selectors.
abbrev pub selectors : (Boot.Outbound → Outbound) → Router → Groups Selector
selectors member router = record {
  update_outbounds = λ tag outbounds s.
      wrap_error (update_outbounds (with_provider member router tag outbounds) tag s);
}

-- The groups after one failed: those before it offer the outbounds, it kept its own, and those behind
-- it are unchanged.
pub data Stopped (tag : String) (members : List Outbound)
    : List Selector → List Selector → Type 0 where
  at_group :
      {s s' : Selector} {groups : List Selector}
      → HasKept s s'
      → Stopped tag members (s ∷ groups) (s' ∷ groups)
  behind :
      {s s' : Selector} {groups groups' : List Selector}
      → Offers tag members s'
      → Stopped tag members groups groups'
      → Stopped tag members (s ∷ groups) (s' ∷ groups')

module _ (member : Boot.Outbound → Outbound) (router : Router) where
  abbrev AreUpdated :
      String → List Boot.Outbound → List Selector → List Selector × Option String → Type 0
  AreUpdated tag outbounds groups (groups', none) = All (Offers tag (map member outbounds)) groups'
  AreUpdated tag outbounds groups (groups', some e) =
      Stopped tag (map member outbounds) groups groups'

  module _ (tag : String) (outbounds : List Boot.Outbound) where
    known : (with_provider member router tag outbounds).provider tag ≡ some (map member outbounds)
    known = let same = (string_key.equal_iff tag tag).1 refl in ground (arith, same)

    after_group-Updated :
        (s : Selector) (groups : List Selector) (t : Selector × Option PickError)
        (rest : List Selector × Option String)
        → IsUpdate tag (map member outbounds) s t
        → AreUpdated tag outbounds groups rest
        → AreUpdated tag outbounds (s ∷ groups) (after_group (wrap_error t) groups rest)
    after_group-Updated s groups (s', none) (groups', none) h rest = (h, rest)
    after_group-Updated s groups (s', none) (groups', some e) h rest = behind h rest
    after_group-Updated s groups (s', some e) rest h updated = at_group h

    update_groups-Updated :
        (groups : List Selector)
        → AreUpdated tag outbounds groups
            (update_groups (selectors member router) tag outbounds groups)
    unfolding update_groups
    update_groups-Updated [] = tt
    update_groups-Updated (s ∷ groups) =
        after_group-Updated s groups
          (update_outbounds (with_provider member router tag outbounds) tag s) _
          (update_outbounds-Offers (with_provider member router tag outbounds) tag
            (map member outbounds) s known)
          (update_groups-Updated groups)

  -- The groups of an update, by its outcome.
  abbrev pub GroupsFollow : String → List Selector → Updated Selector → Type 0
  GroupsFollow tag groups u = elim u.outcome [
    | ok true ↦ All (Offers tag (map member u.provider.outbounds)) u.groups
    | ok false ↦ u.groups ≡ groups
    | err (parse_failed e) ↦ u.groups ≡ groups
    | err (start_error e) ↦ u.groups ≡ groups
    | err (group_failed e) ↦ Stopped tag (map member u.closed) groups u.groups
  ]

  module _ (names : Names) (others : List String) (groups : List Selector) where
    install-Follow :
        (p : ProviderAdapter)
        (t : Result StartFailure (List Boot.Outbound × Map String Boot.Outbound))
        → GroupsFollow p.tag groups (install (selectors member router) p groups t)
    install-Follow p (err e) = refl
    install-Follow p (ok (os, by_tag)) =
        at (update_groups (selectors member router) p.tag os groups)
          (update_groups-Updated p.tag os groups)
      where
        at :
            (r : List Selector × Option String)
            → AreUpdated p.tag os groups r
            → GroupsFollow p.tag groups (settle p (os, by_tag) r)
        at (gs, none) h = h
        at (gs, some e) h = h

    apply-Follow :
        (p : ProviderAdapter) (outbounds : List Boot.Outbound)
        → GroupsFollow p.tag groups
            (apply names (selectors member router) others groups (p, ok outbounds))
    apply-Follow p [] = refl
    apply-Follow p (o ∷ os) = install-Follow p (start_outbounds names p.tag others (o ∷ os))

    parsed-Follow :
        ⦃deep_equal : Comparable Options⦄ (sources : Sources) (filters : Filters)
        (p : ProviderAdapter) (t : Result String (List Options))
        → GroupsFollow p.tag groups
            (apply names (selectors member router) others groups (parsed sources filters p t))
    parsed-Follow sources filters p (err e) = refl
    parsed-Follow sources filters p (ok outbounds) =
        if_intro
          (λ r. GroupsFollow p.tag groups (apply names (selectors member router) others groups r))
          (not (check_change p.last_outs (filter filters outbounds))) _ _ refl
          (apply-Follow (record p { last_outs = filter filters outbounds })
            (create_outbounds sources (filter filters outbounds)))

    -- After an update of a provider that returns true, every selector that knows the provider and uses
    -- it has each outbound that the provider has now and its filter admits among its outbounds. After
    -- one that fails at a group, the groups before that one so have the outbounds that were closed, that
    -- one has its outbounds and its choice as before, and the groups behind it are unchanged. After one
    -- that returns false or fails before the groups, the groups are unchanged.
    pub groups_follow :
        ⦃deep_equal : Comparable Options⦄ (sources : Sources) (filters : Filters)
        (p : ProviderAdapter) (content : String)
        → GroupsFollow p.tag groups (
            update_provider_from_content names
              (selectors member router)
              sources
              filters
              others
              groups
              p
              content)
    unfolding update_provider_from_content
    groups_follow sources filters p content =
        parsed-Follow sources filters p (sources.new_parser (sources.decode content))
