-- ===== src/Provider/Ports/Tests.antt =====
-- The ports of a few items (outbound/group.go).
use sfa_provider.Prelude.{String, [], ◌∷◌, ◌==◌, string_key, ok, err, ◌≡◌, refl, if◌then◌else◌}
use sfa_provider.Provider.Ports.{
  PortItem, single, range, unmatched, add_range, add_port_item, add_port_items, create_ports_map,
}
use sfa_provider.Provider.Ports.Covered.{IsPorts, create_ports_map_lem}

abbrev read : String → PortItem
read item =
    if item == "443"
    then single 443
    else if item == "80:82"
    then range 80 82
    else if item == "65534:"
    then range 65534 0
    else unmatched

three_items :
    create_ports_map read ("443" ∷ "80:82" ∷ "65534:" ∷ [])
    ≡ ok (65535 ∷ 65534 ∷ 82 ∷ 81 ∷ 80 ∷ 443 ∷ [])
unfolding add_port_items add_port_item add_range
three_items = refl

bad_item : create_ports_map read ("443" ∷ "http" ∷ []) ≡ err 1
unfolding add_port_items add_port_item
bad_item = refl

create_ports_map_lem_example :
    IsPorts read 0 ("443" ∷ "80:82" ∷ []) [] (create_ports_map read ("443" ∷ "80:82" ∷ []))
create_ports_map_lem_example = create_ports_map_lem read ("443" ∷ "80:82" ∷ [])
