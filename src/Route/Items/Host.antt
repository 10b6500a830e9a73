-- ===== src/Route/Items/Host.antt =====
-- The conditions of route/rule_item_*.go on the process of a connection and on the network of the
-- host. What the router says of the wireless network is an argument.
use sfa_provider.Prelude.{String, none, some, Bool, false, List, ◌==◌, string_key, if◌then◌else◌}
use sfa_provider.Route.Context.{InboundContext, ProcessInfo}
use sfa_provider.Route.Item.{RuleItem}
use sfa_provider.Route.Items.{reading, one_of}

-- Whether a value of the process is known and one of a list.
abbrev pub of_process : (ProcessInfo → String) → (String → Bool) → InboundContext → Bool
of_process value accepts m = elim m.process_info [
  | none ↦ false
  | some info ↦ if value info == "" then false else accepts (value info)
]

-- ProcessItem; `base` is filepath.Base.
unfoldable pub process_item : (String → String) → List String → RuleItem
process_item base names =
    reading (of_process (λ info. info.process_path) (λ path. one_of names (base path)))

unfoldable pub process_path_item : List String → RuleItem
process_path_item paths = reading (of_process (λ info. info.process_path) (one_of paths))

unfoldable pub package_name_item : List String → RuleItem
package_name_item names = reading (of_process (λ info. info.package_name) (one_of names))

unfoldable pub user_item : List String → RuleItem
user_item users = reading (of_process (λ info. info.user) (one_of users))

-- WIFISSIDItem and WIFIBSSIDItem, with the router's WIFIState().
unfoldable pub wifi_ssid_item : String → List String → RuleItem
wifi_ssid_item ssid names = reading (λ m. one_of names ssid)

unfoldable pub wifi_bssid_item : String → List String → RuleItem
wifi_bssid_item bssid names = reading (λ m. one_of names bssid)
