-- ===== src/Provider/Local/Tests.antt =====
-- Two calls of UpdateProvider over the same file (provider/local.go).
use sfa_provider.Prelude.{ℕ, some, none, true, false, List, [], ◌∷◌, string_key, ◌≡◌, refl}
use sfa_provider.Boot.{update_outbound_by_tag}
use sfa_provider.Provider.Start.{free_tag, claim_tag, start_from, start_outbounds}
use sfa_provider.Provider.Update.{
  group_failed, create_outbounds, out_map, check_change, update_groups,
  update_provider_from_content,
}
use sfa_provider.Provider.Tests.{
  names, options_key, sources, filters, provider, counters, subscription,
}
use sfa_provider.Provider.Local.{
  SubInfo, LocalProvider, File, is_updating, update_failed, LocalUpdate, update_provider,
}
use sfa_provider.Provider.Local.Again.{second_call_succeeds}

abbrev info : SubInfo
info = record { upload = 1; download = 2; total = 100; expire = 0 }

abbrev local : LocalProvider
local = record {
  adapter = provider;
  updating = false;
  last_updated = 10;
  sub_info = record info { upload = 0 };
}

abbrev file : File
file = record { mod_time = 11; text = "links" }

abbrev call : List ℕ → LocalProvider → LocalUpdate ℕ
call groups p =
    update_provider (λ text. (info, text)) names counters sources filters ("a" ∷ []) groups
      (some file) p

-- The second group cannot be updated.
first_fails :
    (call (1 ∷ 0 ∷ []) local).error ≡ some (update_failed (group_failed "default outbound"))
unfolding update_provider update_provider_from_content check_change out_map create_outbounds
    start_outbounds start_from claim_tag free_tag update_groups update_outbound_by_tag
first_fails = refl

waits : (call [] (record local { updating = true })).error ≡ some is_updating
unfolding update_provider
waits = refl

second_call_succeeds_example : call (1 ∷ 1 ∷ []) (call (1 ∷ 0 ∷ []) local).provider ≡ record {
  provider = record (call (1 ∷ 0 ∷ []) local).provider { sub_info = info; last_updated = 11 };
  groups = 1 ∷ 1 ∷ [];
  error = none;
}
second_call_succeeds_example =
    second_call_succeeds (λ text. (info, text)) names counters sources filters file ("a" ∷ [])
      ("a" ∷ []) (1 ∷ 0 ∷ []) (1 ∷ 1 ∷ []) local subscription (group_failed "default outbound") refl
      refl refl refl (refl, (refl, tt)) first_fails
