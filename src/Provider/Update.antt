-- ===== src/Provider/Update.antt =====
-- updateProviderFromContent of provider/default.go, with parseOutbounds and updateGroups.
pub mod Rollback
pub mod Retry
pub mod Selectors
mod Tests
use sfa_provider.Prelude.{
  String, Option, none, some, Bool, true, false, not, List, [], ◌∷◌, ◌==◌, string_key, Comparable,
  Map, empty_map, insert, Result, ok, err, length, nat_eq, any, all, if◌then◌else◌,
}
use sfa_provider.Boot.{Outbound, Names}
use sfa_provider.Provider.{Options, Filters, ProviderAdapter, filter}
use sfa_provider.Provider.Start.{StartFailure, start_outbounds}

-- What parseOutbounds calls: decodeBase64Safe, newParser with the parsers of the formats of
-- subscriptions, and O.New of outbound/builder.go, where none is its error.
pub record Sources : Type 0 where
  pub decode : String → String
  pub new_parser : String → Result String (List Options)
  pub new_outbound : Options → Option Outbound

-- UpdateOutbounds of a group, for a provider with the tag and these outbounds: the group after it,
-- also where it fails, and its error.
pub record Groups (G : Type 0) : Type 0 where
  pub update_outbounds : String → List Outbound → G → G × Option String

pub data UpdateError : Type 0 where
  parse_failed : String → UpdateError
  start_error : StartFailure → UpdateError
  group_failed : String → UpdateError

-- The state after an update, the outbounds that it closed, and what it returns.
pub record Updated (G : Type 0) : Type 0 where
  pub provider : ProviderAdapter
  pub groups : List G
  pub closed : List Outbound
  pub outcome : Result UpdateError Bool

abbrev pub is_skipped : String → Bool
is_skipped type_name =
    any (λ t. type_name == t) ("direct" ∷ "block" ∷ "dns" ∷ "selector" ∷ "urltest" ∷ [])

abbrev pub append_created : Option Outbound → List Outbound → List Outbound
append_created none outs = outs
append_created (some out) outs = out ∷ outs

unfoldable pub create_outbounds : Sources → List Options → List Outbound
create_outbounds sources [] = []
create_outbounds sources (o ∷ outbounds) =
    let outs = create_outbounds sources outbounds in
    if is_skipped o.type_name then outs else append_created (sources.new_outbound o) outs

-- outMap of checkChange: the last of the outbounds with a tag wins.
unfoldable pub out_map : List Options → Map String Options → Map String Options
out_map [] m = m
out_map (o ∷ outbounds) m = out_map outbounds (insert o.tag o m)

module _ ⦃deep_equal : Comparable Options⦄ where
  abbrev pub is_same : Options → Option Options → Bool
  is_same it none = false
  is_same it (some out) = out == it

  unfoldable pub check_change : List Options → List Options → Bool
  check_change last_outs outbounds =
      if not (nat_eq (length last_outs) (length outbounds))
      then true
      else not (all (λ it. is_same it (out_map last_outs empty_map it.tag)) outbounds)

  abbrev pub parsed :
      Sources
      → Filters
      → ProviderAdapter
      → Result String (List Options)
      → ProviderAdapter × Result UpdateError (List Outbound)
  parsed sources filters p (err e) = (p, err (parse_failed e))
  parsed sources filters p (ok outbounds) =
      let final_outs = filter filters outbounds in
      if not (check_change p.last_outs final_outs)
      then (p, ok [])
      else (record p { last_outs = final_outs }, ok (create_outbounds sources final_outs))

  -- parseOutbounds: an empty list stands for nil.
  abbrev pub parse_outbounds :
      Sources
      → Filters
      → ProviderAdapter
      → String
      → ProviderAdapter × Result UpdateError (List Outbound)
  parse_outbounds sources filters p content = parsed sources filters p (sources.new_parser content)

abbrev pub after_group :
    {G : Type 0} → G × Option String → List G → List G × Option String → List G × Option String
after_group (new, none) groups rest = (new ∷ rest.0, rest.1)
after_group (new, some e) groups rest = (new ∷ groups, some e)

-- updateGroups: the groups, of which those after an error are as before.
unfoldable pub update_groups :
    {G : Type 0} → Groups G → String → List Outbound → List G → List G × Option String
update_groups api tag outbounds [] = ([], none)
update_groups api tag outbounds (g ∷ groups) =
    let rest = update_groups api tag outbounds groups in
    after_group (api.update_outbounds tag outbounds g) groups rest

module _ {G : Type 0} where
  -- The end of updateProviderFromContent, after updateGroups.
  abbrev pub settle :
      ProviderAdapter → List Outbound × Map String Outbound → List G × Option String → Updated G
  settle p (outbounds, outbound_by_tag) (groups, none) = record {
    provider = record p { outbounds = outbounds; outbound_by_tag = outbound_by_tag };
    groups = groups;
    closed = [];
    outcome = ok true;
  }
  settle p (outbounds, outbound_by_tag) (groups, some e) = record {
    provider = p;
    groups = groups;
    closed = outbounds;
    outcome = err (group_failed e);
  }

  -- updateProviderFromContent after startOutbounds.
  abbrev pub install :
      Groups G
      → ProviderAdapter
      → List G
      → Result StartFailure (List Outbound × Map String Outbound)
      → Updated G
  install api p groups (err e) = record {
    provider = p;
    groups = groups;
    closed = [];
    outcome = err (start_error e);
  }
  install api p groups (ok (outbounds, outbound_by_tag)) =
      settle p (outbounds, outbound_by_tag) (update_groups api p.tag outbounds groups)

  -- updateProviderFromContent after parseOutbounds.
  abbrev pub apply :
      Names
      → Groups G
      → List String
      → List G
      → ProviderAdapter × Result UpdateError (List Outbound)
      → Updated G
  apply names api others groups (p, err e) = record {
    provider = p;
    groups = groups;
    closed = [];
    outcome = err e;
  }
  apply names api others groups (p, ok []) = record {
    provider = p;
    groups = groups;
    closed = [];
    outcome = ok false;
  }
  apply names api others groups (p, ok (o ∷ outbounds)) =
      install api p groups (start_outbounds names p.tag others (o ∷ outbounds))

-- updateProviderFromContent: `others` are the tags of the router's outbounds and of those of the
-- other providers.
unfoldable pub update_provider_from_content :
    ⦃deep_equal : Comparable Options⦄ {G : Type 0}
    → Names
    → Groups G
    → Sources
    → Filters
    → List String
    → List G
    → ProviderAdapter
    → String
    → Updated G
update_provider_from_content names api sources filters others groups p content =
    apply names api others groups (parse_outbounds sources filters p (sources.decode content))
