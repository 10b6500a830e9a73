-- ===== src/FakeIp/Tests.antt =====
-- The pool at concrete inputs: a /29 range, whose cursor visits six addresses less two.
use sfa_provider.Prelude.{
  ◌+◌, ◌≤◌, none, some, true, false, not, List, [], ◌∷◌, ok, err, ◌≡◌, refl, arith, ◌↔◌,
}
use sfa_provider.FakeIp.Addr.{Addr, unset, ipv4, ipv6, is4, Prefix, next, contains}
use sfa_provider.FakeIp.Memory.{MemoryStorage, new_memory_storage, memory}
use sfa_provider.FakeIp.Memory.Laws.{memory-Laws}
use sfa_provider.FakeIp.Store.{
  Store, Config, create, lookup, fresh, first_address, missing_ipv6_range,
}
use sfa_provider.FakeIp.Store.Cycle.{Range4}
use sfa_provider.FakeIp.Store.Soundness.{RangesFit, IsSound, fresh-IsSound}
use sfa_provider.FakeIp.Store.Lookups.{create_again}
use sfa_provider.FakeIp.Store.Stability.{Cycling, creates, address_stays}
use sfa_provider.FakeIp.Store.Bounds.{fresh-Cycling, created_in_range}
use sfa_provider.FakeIp.Store.Session.{Call, run, tables_inverse}
use sfa_provider.FakeIp.Store.Served.{create_serves}
use sfa_provider.FakeIp.Transport.{transport_lookup, prefer_ipv4, Answers, transport_lookup_lem}

-- 198.18.0.0/29
abbrev small : Prefix
small = record { addr = ipv4 3323068416; bits_plus_one = 30 }

-- fc00::/18
abbrev wide : Prefix
wide = record { addr = ipv6 334965454937798799971759379190646833152; bits_plus_one = 19 }

abbrev config : Config
config = record { inet4_range = small; inet6_range = wide; exclude_rule = none }

abbrev started : Store MemoryStorage
started = fresh memory config new_memory_storage

first_created : (create memory "a.example" false started).0 ≡ ok (ipv4 3323068419)
unfolding create fresh memory
first_created = refl

config-RangesFit : RangesFit config
unfolding first_address
config-RangesFit = record { v4 = λ h. refl; v6 = refl }

started-IsSound : IsSound memory started
started-IsSound = fresh-IsSound memory memory-Laws config new_memory_storage config-RangesFit

small-Range4 : Range4 small 3323068416 29
small-Range4 = record {
  addr_eq = refl;
  bits_eq = refl;
  bits_le = omega arith;
  is_u32 = omega arith;
}

started-Cycling : Cycling 3323068416 29 started
started-Cycling =
    fresh-Cycling memory config new_memory_storage 3323068416 29 small-Range4 (omega arith) refl

-- The store after the first domain was asked for.
abbrev after_first : Store MemoryStorage
after_first = (create memory "a.example" false started).1

create_again_example :
    (lookup memory (ipv4 3323068419) after_first ≡ some "a.example")
    × (create memory "a.example" false after_first ≡ (ok (ipv4 3323068419), after_first))
unfolding create fresh memory
create_again_example =
    create_again memory memory-Laws "a.example" false started after_first (ipv4 3323068419)
      started-IsSound refl

-- Without ranges nothing can be created.
abbrev unranged : Store MemoryStorage
unranged = record {
  config = record {
    inet4_range = record { addr = unset 0; bits_plus_one = 0 };
    inet6_range = record { addr = unset 0; bits_plus_one = 0 };
    exclude_rule = none;
  };
  storage = new_memory_storage;
  inet4_current = unset 0;
  inet6_current = unset 0;
}

no_range : (create memory "a.example" true unranged).0 ≡ err missing_ipv6_range
unfolding create memory
no_range = refl

address_stays_example :
    lookup memory (ipv4 3323068419) (
      creates memory
        (("b.example", false) ∷ ("c.example", true) ∷ ("d.example", false) ∷ [])
        after_first)
    ≡ some "a.example"
unfolding create fresh memory
address_stays_example =
    address_stays memory memory-Laws 3323068416 29 "a.example" started after_first 3323068419
      (("b.example", false) ∷ ("c.example", true) ∷ ("d.example", false) ∷ []) started-Cycling refl
      refl (omega arith)

created_in_range_example :
    (contains started.inet4_range (ipv4 3323068419) ≡ true) × (3323068416 + 2 ≤ 3323068419)
unfolding create fresh memory
created_in_range_example =
    created_in_range memory memory-Laws 3323068416 29 "a.example" started after_first 3323068419
      started-Cycling refl refl

-- A /31 range.
abbrev tiny : Config
tiny = record {
  inet4_range = record { addr = ipv4 3323068416; bits_plus_one = 32 };
  inet6_range = wide;
  exclude_rule = none;
}

tiny-Range4 : Range4 tiny.inet4_range 3323068416 31
tiny-Range4 = record { addr_eq = refl; bits_eq = refl; bits_le = omega arith; is_u32 = omega arith }

abbrev tiny_store : Store MemoryStorage
tiny_store = fresh memory tiny new_memory_storage

abbrev history : List Call
history = Call.creates "a.example" false ∷ Call.resets ∷ Call.creates "b.example" true ∷ []

tables_inverse_example :
    let s = run memory history (fresh memory config new_memory_storage) in
    (memory.load_domain "b.example" true s.storage ≡ some (next (next (next wide.addr)))) ↔ (
      (lookup memory (next (next (next wide.addr))) s ≡ some "b.example")
      × (true ≡ not (is4 (next (next (next wide.addr))))))
tables_inverse_example =
    tables_inverse memory memory-Laws config new_memory_storage history "b.example" true
      (next (next (next wide.addr))) config-RangesFit

create_serves_example :
    let s = run memory history (fresh memory config new_memory_storage) in
    (a : Addr) × ((create memory "c.example" false s).0 ≡ ok a)
    × (false ≡ not (is4 a))
    × (lookup memory a (create memory "c.example" false s).1 ≡ some "c.example")
unfolding first_address
create_serves_example =
    create_serves memory memory-Laws config new_memory_storage history "c.example" false
      config-RangesFit refl refl

transport_lookup_lem_example :
    Answers memory memory-Laws "a.example" true true
      (ipv4 3323068419 ∷ next (next (next wide.addr)) ∷ [])
      (transport_lookup memory "a.example" prefer_ipv4 started).1
unfolding transport_lookup create fresh memory
transport_lookup_lem_example =
    transport_lookup_lem memory memory-Laws "a.example" prefer_ipv4 started
      (transport_lookup memory "a.example" prefer_ipv4 started).1
      (ipv4 3323068419 ∷ next (next (next wide.addr)) ∷ []) started-IsSound refl
