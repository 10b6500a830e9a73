-- ===== src/FakeIp/Memory.antt =====
-- transport/fakeip/memory.go. The two mutexes make each method one step.
pub mod Laws
use sfa_provider.Prelude.{
  String, Option, none, some, Bool, true, false, Map, empty_map, insert, delete, if◌then◌else◌,
  string_key,
}
use sfa_provider.FakeIp.Addr.{Addr, is4, addr_key}
use sfa_provider.FakeIp.Storage.{Storage, Metadata}

pub record MemoryStorage : Type 0 where
  pub address_cache : Map Addr String
  pub domain_cache4 : Map String Addr
  pub domain_cache6 : Map String Addr

abbrev pub new_memory_storage : MemoryStorage
new_memory_storage = record {
  address_cache = empty_map;
  domain_cache4 = empty_map;
  domain_cache6 = empty_map;
}

-- FakeIPMetadata and the two savers: nothing is kept.
pub memory_metadata : MemoryStorage → Option Metadata × MemoryStorage
memory_metadata s = (none, s)

pub memory_save_metadata : Metadata → MemoryStorage → MemoryStorage
memory_save_metadata m s = s

pub memory_save_metadata_async : Metadata → MemoryStorage → MemoryStorage
memory_save_metadata_async m s = s

-- The first `if` of FakeIPStore.
drop_old_domain : Addr → Option String → MemoryStorage → MemoryStorage
drop_old_domain address none s = s
drop_old_domain address (some old_domain) s =
    if is4 address
    then record s { domain_cache4 = delete old_domain s.domain_cache4 }
    else record s { domain_cache6 = delete old_domain s.domain_cache6 }

-- FakeIPStore, and FakeIPStoreAsync, which calls it.
pub memory_store : Addr → String → MemoryStorage → MemoryStorage
unfolding drop_old_domain
memory_store address domain s =
    let s1 = drop_old_domain address (s.address_cache address) s in
    let s2 : MemoryStorage = record s1 { address_cache = insert address domain s1.address_cache } in
    if is4 address
    then record s2 { domain_cache4 = insert domain address s2.domain_cache4 }
    else record s2 { domain_cache6 = insert domain address s2.domain_cache6 }

-- FakeIPLoad
pub memory_load : Addr → MemoryStorage → Option String
memory_load address s = s.address_cache address

-- FakeIPLoadDomain
pub memory_load_domain : String → Bool → MemoryStorage → Option Addr
memory_load_domain domain false s = s.domain_cache4 domain
memory_load_domain domain true s = s.domain_cache6 domain

-- FakeIPReset
pub memory_reset : MemoryStorage → MemoryStorage
memory_reset s = record {
  address_cache = empty_map;
  domain_cache4 = empty_map;
  domain_cache6 = empty_map;
}

unfoldable pub memory : Storage MemoryStorage
unfolding memory_metadata memory_save_metadata memory_save_metadata_async memory_store memory_load
    memory_load_domain memory_reset
memory = record {
  metadata = memory_metadata;
  save_metadata = memory_save_metadata;
  save_metadata_async = memory_save_metadata_async;
  store = memory_store;
  load = memory_load;
  load_domain = memory_load_domain;
  reset = memory_reset;
}
