-- ===== src/Provider/FirstStart.antt =====
-- firstStart of provider/default.go: a provider takes the outbounds of its file, as they are, before
-- anything is started.
mod Tests
use sfa_provider.Prelude.{
  ℕ, String, Option, none, some, Bool, not, List, [], ◌∷◌, string_key, Comparable, empty_map,
  Result, ok, err, if◌then◌else◌,
}
use sfa_provider.Boot.{Outbound, update_outbound_by_tag}
use sfa_provider.Provider.{Options, Filters, ProviderAdapter, check_type}
use sfa_provider.Provider.Ports.{PortItem, create_ports_map}
use sfa_provider.Provider.Update.{Sources, UpdateError, parse_outbounds}

pub data FirstError : Type 0 where
  invalid_types : FirstError
  first_failed : UpdateError → FirstError

-- The end of firstStart, after parseOutbounds.
abbrev pub take_outbounds :
    ProviderAdapter × Result UpdateError (List Outbound) → ProviderAdapter × Option FirstError
take_outbounds (p, err e) = (p, some (first_failed e))
take_outbounds (p, ok []) = (p, none)
take_outbounds (p, ok (o ∷ outbounds)) = (
  record p {
    outbounds = o ∷ outbounds;
    outbound_by_tag = update_outbound_by_tag (o ∷ outbounds) empty_map;
  },
  none,
)

module _ ⦃deep_equal : Comparable Options⦄ where
  -- firstStart with the ports, where an error of CreatePortsMap is dropped; `content` is that of the
  -- file, if there is one.
  abbrev pub with_ports :
      Sources
      → Filters
      → Option String
      → ProviderAdapter
      → Result ℕ (List ℕ)
      → ProviderAdapter × Option FirstError
  with_ports sources filters content p (err i) = (p, none)
  with_ports sources filters none p (ok ports) = (p, none)
  with_ports sources filters (some content) p (ok ports) =
      take_outbounds
        (parse_outbounds sources (record filters { ports = ports }) p (sources.decode content))

  -- firstStart
  unfoldable pub first_start :
      Sources
      → Filters
      → (String → PortItem)
      → List String
      → Option String
      → ProviderAdapter
      → ProviderAdapter × Option FirstError
  first_start sources filters read items content p =
      if not (check_type filters.types)
      then (p, some invalid_types)
      else with_ports sources filters content p (create_ports_map read items)
