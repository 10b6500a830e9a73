-- ===== src/Route/Headless/Appending.antt =====
-- Rules of conditions of the connection alone, each in one group and in the list of all, and the two
-- calls of append of route/rule_headless.go, which keep them so.
use sfa_provider.Prelude.{
  Bool, List, [], ◌∷◌, ◌++◌, ◌≡◌, refl, All, length, length-append, ◌+◌, arith,
}
use sfa_provider.Route.Item.{RuleItem, Plain}
use sfa_provider.Route.DefaultRule.{DefaultRule}
use sfa_provider.Route.DefaultRule.Meaning.{PlainRule}
use sfa_provider.Route.Builder.{
  no_conditions, add_item, add_source_address, add_source_port, add_destination_address,
  add_ip_cidr, add_destination_port,
}

pub record IsGrouped (r : DefaultRule) : Type 0 where
  pub plain : PlainRule r
  pub counts :
      length r.all_items
      ≡ length r.items
        + length r.source_address_items
        + length r.source_port_items
        + length r.destination_address_items
        + length r.destination_ip_cidr_items
        + length r.destination_port_items

All-append :
    (items : List RuleItem) (item : RuleItem)
    → All Plain items
    → Plain item
    → All Plain (items ++ (item ∷ []))
All-append [] item p q = (q, tt)
All-append (x ∷ xs) item p q = (p.0, All-append xs item p.1 q)

-- The two calls of append keep the rule grouped.
abbrev pub Adds : (RuleItem → DefaultRule → DefaultRule) → Type 0
Adds add = (item : RuleItem) (r : DefaultRule) → Plain item → IsGrouped r → IsGrouped (add item r)

pub add_item-Adds : Adds add_item
add_item-Adds item r p g = record {
  plain = record {
    items = All-append r.items item g.plain.items p;
    source_address = g.plain.source_address;
    source_port = g.plain.source_port;
    destination_address = g.plain.destination_address;
    ip_cidr = g.plain.ip_cidr;
    destination_port = g.plain.destination_port;
  };
  counts =
      omega
        (arith, g.counts, length-append r.all_items (item ∷ []), length-append r.items (item ∷ []));
}

pub add_source_address-Adds : Adds add_source_address
add_source_address-Adds item r p g = record {
  plain = record {
    items = g.plain.items;
    source_address = All-append r.source_address_items item g.plain.source_address p;
    source_port = g.plain.source_port;
    destination_address = g.plain.destination_address;
    ip_cidr = g.plain.ip_cidr;
    destination_port = g.plain.destination_port;
  };
  counts = omega (
    arith,
    g.counts,
    length-append r.all_items (item ∷ []),
    length-append r.source_address_items (item ∷ []),
  );
}

pub add_source_port-Adds : Adds add_source_port
add_source_port-Adds item r p g = record {
  plain = record {
    items = g.plain.items;
    source_address = g.plain.source_address;
    source_port = All-append r.source_port_items item g.plain.source_port p;
    destination_address = g.plain.destination_address;
    ip_cidr = g.plain.ip_cidr;
    destination_port = g.plain.destination_port;
  };
  counts = omega (
    arith,
    g.counts,
    length-append r.all_items (item ∷ []),
    length-append r.source_port_items (item ∷ []),
  );
}

pub add_destination_address-Adds : Adds add_destination_address
add_destination_address-Adds item r p g = record {
  plain = record {
    items = g.plain.items;
    source_address = g.plain.source_address;
    source_port = g.plain.source_port;
    destination_address = All-append r.destination_address_items item g.plain.destination_address p;
    ip_cidr = g.plain.ip_cidr;
    destination_port = g.plain.destination_port;
  };
  counts = omega (
    arith,
    g.counts,
    length-append r.all_items (item ∷ []),
    length-append r.destination_address_items (item ∷ []),
  );
}

pub add_ip_cidr-Adds : Adds add_ip_cidr
add_ip_cidr-Adds item r p g = record {
  plain = record {
    items = g.plain.items;
    source_address = g.plain.source_address;
    source_port = g.plain.source_port;
    destination_address = g.plain.destination_address;
    ip_cidr = All-append r.destination_ip_cidr_items item g.plain.ip_cidr p;
    destination_port = g.plain.destination_port;
  };
  counts = omega (
    arith,
    g.counts,
    length-append r.all_items (item ∷ []),
    length-append r.destination_ip_cidr_items (item ∷ []),
  );
}

pub add_destination_port-Adds : Adds add_destination_port
add_destination_port-Adds item r p g = record {
  plain = record {
    items = g.plain.items;
    source_address = g.plain.source_address;
    source_port = g.plain.source_port;
    destination_address = g.plain.destination_address;
    ip_cidr = g.plain.ip_cidr;
    destination_port = All-append r.destination_port_items item g.plain.destination_port p;
  };
  counts = omega (
    arith,
    g.counts,
    length-append r.all_items (item ∷ []),
    length-append r.destination_port_items (item ∷ []),
  );
}

pub no_conditions-IsGrouped : (invert : Bool) → IsGrouped (no_conditions invert)
no_conditions-IsGrouped invert = record {
  plain = record {
    items = tt;
    source_address = tt;
    source_port = tt;
    destination_address = tt;
    ip_cidr = tt;
    destination_port = tt;
  };
  counts = refl;
}
