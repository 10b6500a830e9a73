-- ===== src/Provider/FirstStart/Tests.antt =====
-- A provider with and without allowed ports (provider/default.go).
use sfa_provider.Prelude.{none, some, [], ◌∷◌, string_key, ◌≡◌, refl}
use sfa_provider.Provider.{Filters}
use sfa_provider.Provider.Ports.{single, unmatched, add_port_item, add_port_items}
use sfa_provider.Provider.Update.{create_outbounds, out_map, check_change}
use sfa_provider.Provider.Tests.{options_key, sources, filters, provider}
use sfa_provider.Provider.FirstStart.{invalid_types, first_start}

abbrev relays : Filters
relays = record filters { types = "trojan" ∷ [] }

takes :
    (first_start sources relays
      (λ item. single 443)
      ("443" ∷ [])
      (some "links")
      provider).0.outbounds
    ≡ record { tag = "a"; dependencies = []; starts = none } ∷ []
unfolding first_start add_port_item add_port_items create_outbounds out_map check_change
takes = refl

-- The error of the ports is lost, and the file is not read.
ports_lost :
    first_start sources relays (λ item. unmatched) ("https" ∷ []) (some "links") provider
    ≡ (provider, none)
unfolding first_start add_port_item add_port_items
ports_lost = refl

types_refused :
    first_start sources filters (λ item. unmatched) [] none provider
    ≡ (provider, some invalid_types)
unfolding first_start
types_refused = refl
