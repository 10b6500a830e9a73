-- ===== src/FakeIp/CacheFile.antt =====
-- experimental/cachefile/fakeip.go: the fake-IP storage in a bbolt file. A transaction is one step,
-- an error of it leaves the file as it was, and a bucket may be missing. FakeIPStoreAsync is two
-- steps, the call and the end of the goroutine that it starts. Errors of the disk and the binary
-- form of the metadata are left out.
pub mod Writes
pub mod Resets
mod Tests
use sfa_provider.Prelude.{
  String, Option, none, some, Bool, true, false, not, ◌||◌, ◌==◌, string_key, Map, empty_map,
  insert, delete, if◌then◌else◌,
}
use sfa_provider.FakeIp.Addr.{Addr, is4, is_valid, addr_key}
use sfa_provider.FakeIp.Storage.{Metadata}

-- The bucket of the addresses also holds the metadata.
pub record AddressBucket : Type 0 where
  pub domains : Map Addr String
  pub metadata : Option Metadata

pub record Db : Type 0 where
  pub addresses : Option AddressBucket
  pub domain4 : Option (Map String Addr)
  pub domain6 : Option (Map String Addr)

-- CacheFile, as far as the fake-IP storage uses it. `save_metadata_timer` has the metadata that the
-- function of the timer saves.
pub record CacheFile : Type 0 where
  pub db : Db
  pub save_metadata_timer : Option Metadata
  pub save_domain : Map Addr String
  pub save_address4 : Map String Addr
  pub save_address6 : Map String Addr

-- CreateBucketIfNotExists
abbrev pub addresses_of : Db → AddressBucket
addresses_of db = elim db.addresses [
  | none ↦ record { domains = empty_map; metadata = none }
  | some bucket ↦ bucket
]

abbrev pub bucket_of : Option (Map String Addr) → Map String Addr
bucket_of none = empty_map
bucket_of (some bucket) = bucket

-- FakeIPMetadata, which takes the metadata out of the file.
unfoldable pub cache_metadata : CacheFile → Option Metadata × CacheFile
cache_metadata c = elim c.db.addresses [
  | none ↦ (none, c)
  | some bucket ↦ (
    bucket.metadata,
    record c { db = record c.db { addresses = some (record bucket { metadata = none }) } },
  )
]

-- FakeIPSaveMetadata
unfoldable pub cache_save_metadata : Metadata → CacheFile → CacheFile
cache_save_metadata m c = record c {
  db = record c.db { addresses = some (record (addresses_of c.db) { metadata = some m }) };
}

-- FakeIPSaveMetadataAsync: the timer is made once, and set anew by the later calls.
unfoldable pub cache_save_metadata_async : Metadata → CacheFile → CacheFile
cache_save_metadata_async m c = elim c.save_metadata_timer [
  | none ↦ record c { save_metadata_timer = some m }
  | some first ↦ c
]

-- The function of the timer.
unfoldable pub timer_fires : CacheFile → CacheFile
timer_fires c = elim c.save_metadata_timer [ none ↦ c | some m ↦ cache_save_metadata m c ]

-- The deletion of the old domain and the new entry, in the bucket of the family.
abbrev pub renamed : Option String → String → Addr → Map String Addr → Map String Addr
renamed none domain address bucket = insert domain address bucket
renamed (some old) domain address bucket = insert domain address (delete old bucket)

-- FakeIPStore: bbolt takes no empty key, which an invalid address or an empty domain would be.
unfoldable pub db_store : Addr → String → Db → Db
db_store address domain db =
    if not (is_valid address) || domain == ""
    then db
    else (let old = (addresses_of db).domains address in
        let addresses = some (record (addresses_of db) {
          domains = insert address domain (addresses_of db).domains;
        }) in
        if is4 address
        then record db {
          addresses = addresses;
          domain4 = some (renamed old domain address (bucket_of db.domain4));
        }
        else record db {
          addresses = addresses;
          domain6 = some (renamed old domain address (bucket_of db.domain6));
        })

abbrev pub without : Option String → Map String Addr → Map String Addr
without none m = m
without (some old) m = delete old m

-- The call of FakeIPStoreAsync, up to the goroutine.
unfoldable pub store_begins : Addr → String → CacheFile → CacheFile
store_begins address domain c =
    let old = c.save_domain address in
    let saved = insert address domain c.save_domain in
    if is4 address
    then record c {
      save_domain = saved;
      save_address4 = insert domain address (without old c.save_address4);
    }
    else record c {
      save_domain = saved;
      save_address6 = insert domain address (without old c.save_address6);
    }

-- Its goroutine.
unfoldable pub store_ends : Addr → String → CacheFile → CacheFile
store_ends address domain c =
    let saved = delete address c.save_domain in
    let db = db_store address domain c.db in
    if is4 address
    then record c { db = db; save_domain = saved; save_address4 = delete domain c.save_address4 }
    else record c { db = db; save_domain = saved; save_address6 = delete domain c.save_address6 }

abbrev pub db_load : Addr → Db → Option String
db_load address db = elim ((addresses_of db).domains address) [
  | none ↦ none
  | some domain ↦ if domain == "" then none else some domain
]

-- FakeIPLoad
unfoldable pub cache_load : Addr → CacheFile → Option String
cache_load address c = elim (c.save_domain address) [
  | some domain ↦ some domain
  | none ↦ db_load address c.db
]

-- `unmap` is what M.AddrFromIP makes of the bytes of an address.
abbrev pub db_load_domain : (Addr → Addr) → Option Addr → Option Addr
db_load_domain unmap none = none
db_load_domain unmap (some address) =
    if is_valid (unmap address) then some (unmap address) else none

abbrev pub saved_address : Bool → CacheFile → Map String Addr
saved_address v6 c = if v6 then c.save_address6 else c.save_address4

abbrev pub domain_bucket : Bool → Db → Map String Addr
domain_bucket v6 db = bucket_of (if v6 then db.domain6 else db.domain4)

-- A pending write answers before the file.
abbrev pub found : Option Addr → Option Addr → Option Addr
found (some address) in_file = some address
found none in_file = in_file

-- FakeIPLoadDomain
unfoldable pub cache_load_domain : (Addr → Addr) → String → Bool → CacheFile → Option Addr
cache_load_domain unmap domain v6 c =
    found (saved_address v6 c domain) (db_load_domain unmap (domain_bucket v6 c.db domain))

-- The transaction of FakeIPReset: it deletes three buckets, and deleting one that is missing fails.
unfoldable pub db_reset : Db → Option Db
db_reset db = elim db.addresses [
  | none ↦ none
  | some a ↦ elim db.domain4 [
    | none ↦ none
    | some b ↦ elim db.domain6 [
      | none ↦ none
      | some c ↦ some (record { addresses = none; domain4 = none; domain6 = none })
    ]
  ]
]

-- FakeIPReset: whether it succeeds, and the file after it.
unfoldable pub cache_reset : CacheFile → Bool × CacheFile
cache_reset c = elim (db_reset c.db) [ none ↦ (false, c) | some db ↦ (true, record c { db = db }) ]
