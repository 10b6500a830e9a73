-- ===== src/FakeIp/CacheFile/Tests.antt =====
-- The cache file with one IPv4 address (experimental/cachefile/fakeip.go).
use sfa_provider.Prelude.{ℕ, none, false, [], ◌∷◌, string_key, ◌≡◌, refl, empty_map}
use sfa_provider.FakeIp.Addr.{Addr, unset, ipv4, addr_key}
use sfa_provider.FakeIp.Storage.{Metadata}
use sfa_provider.FakeIp.CacheFile.{CacheFile, db_store, store_begins, store_ends, cache_reset}
use sfa_provider.FakeIp.CacheFile.Writes.{store_ends-store_begins}
use sfa_provider.FakeIp.CacheFile.Resets.{store_all, ipv4_never_reset}

abbrev empty : CacheFile
empty = record {
  db = record { addresses = none; domain4 = none; domain6 = none };
  save_metadata_timer = none;
  save_domain = empty_map;
  save_address4 = empty_map;
  save_address6 = empty_map;
}

abbrev metadata : ℕ → Metadata
metadata n = record {
  inet4_range = record { addr = ipv4 100; bits_plus_one = 25 };
  inet6_range = record { addr = unset 0; bits_plus_one = 0 };
  inet4_current = ipv4 n;
  inet6_current = unset 0;
}

abbrev one : CacheFile
one = store_all ((7, "a.org") ∷ []) empty

abbrev ask : (Addr → Addr)
ask a = a

store_ends-store_begins_example :
    store_ends (ipv4 7) "b.org" (store_begins (ipv4 7) "b.org" empty)
    ≡ record empty { db = db_store (ipv4 7) "b.org" empty.db }
store_ends-store_begins_example = store_ends-store_begins (ipv4 7) "b.org" empty refl refl

ipv4_never_reset_example : cache_reset (store_all ((7, "a.org") ∷ []) empty) ≡ (false, one)
ipv4_never_reset_example = ipv4_never_reset ((7, "a.org") ∷ []) empty refl
