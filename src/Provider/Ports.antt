-- ===== src/Provider/Ports.antt =====
-- CreatePortsMap of outbound/group.go, which providers and groups filter outbounds by.
pub mod Covered
mod Tests
use sfa_provider.Prelude.{
  ℕ, zero, suc, ◌+◌, ◌-◌, String, Bool, true, false, List, [], ◌∷◌, ◌||◌, ◌==◌, ℕ_key, ltb, leb,
  Result, ok, err, ◌>>=◌, if◌then◌else◌,
}

-- An item as the two regular expressions take it, with its numbers: an empty one is 0, which is what
-- the error of Atoi leaves.
pub data PortItem : Type 0 where
  single : ℕ → PortItem
  colon : PortItem
  range : ℕ → ℕ → PortItem
  unmatched : PortItem

-- The loop from `port` on over `n` ports.
unfoldable pub add_range : ℕ → ℕ → List ℕ → List ℕ
add_range port zero ports = ports
add_range port (suc n) ports = add_range (port + 1) n (port ∷ ports)

abbrev pub end_of : ℕ → ℕ
end_of end = if end == 0 then 65535 else end

-- The body of the loop, for the item at position `i`, which the error names.
unfoldable pub add_port_item : ℕ → PortItem → List ℕ → Result ℕ (List ℕ)
add_port_item i (single port) ports = if ltb 65535 port then err i else ok (port ∷ ports)
add_port_item i colon ports = err i
add_port_item i (range start end) ports =
    if ltb 65535 start
    then err i
    else if ltb 65535 end
    then err i
    else if ltb (end_of end) start
    then err i
    else ok (add_range start (end_of end + 1 - start) ports)
add_port_item i unmatched ports = err i

unfoldable pub add_port_items : (String → PortItem) → ℕ → List String → List ℕ → Result ℕ (List ℕ)
add_port_items read i [] ports = ok ports
add_port_items read i (item ∷ items) ports =
    add_port_item i (read item) ports >>= add_port_items read (suc i) items

-- CreatePortsMap: the keys of the map, with the regular expressions as an argument.
abbrev pub create_ports_map : (String → PortItem) → List String → Result ℕ (List ℕ)
create_ports_map read items = add_port_items read 0 items []
