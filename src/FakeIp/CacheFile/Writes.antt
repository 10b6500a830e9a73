-- ===== src/FakeIp/CacheFile/Writes.antt =====
-- The asynchronous writes of experimental/cachefile/fakeip.go.
use sfa_provider.Prelude.{
  String, Option, none, some, true, false, not, List, [], ◌∷◌, ◌==◌, string_key, ◌≡◌, refl, sym, ap,
  ◌∙◌, Map, insert, delete, if◌then◌else◌, arith, Bool-cases, ◌⊎◌, inl, inr, Comparable,
}
use std.Path.{fun_ext}
use sfa_provider.FakeIp.Addr.{Addr, unset, ipv4, ipv6, is4, is_valid, addr_key, addr_beq_iff}
use sfa_provider.FakeIp.Storage.{Metadata}
use sfa_provider.FakeIp.CacheFile.{
  Db, CacheFile, addresses_of, db_load, cache_save_metadata, cache_save_metadata_async, timer_fires,
  db_store, without, store_begins, store_ends, cache_load, saved_address, db_load_domain,
  domain_bucket, found, cache_load_domain,
}

-- A map without a key, after the key is put in and taken out.
delete-insert :
    {K V : Type 0} ⦃c : Comparable K⦄ (k : K) (v : V) (m : Map K V)
    → m k ≡ none
    → delete k (insert k v m) ≡ m
delete-insert {K} {V} ⦃c⦄ k v m e = fun_ext (λ j. at j (Bool-cases (c.equal j k)))
  where
    at : (j : K) → (c.equal j k ≡ true) ⊎ (c.equal j k ≡ false) → delete k (insert k v m) j ≡ m j
    at j (inl h) = rw h (sym (ap m ((c.equal_iff j k).0 h) ∙ e))
    at j (inr h) = rw h refl

-- After FakeIPStore of a valid address with a domain, the file has that domain for the address, and
-- what it had for every other.
pub db_load-db_store :
    (address : Addr) (domain : String) (db : Db) (b : Addr)
    → is_valid address ≡ true
    → (domain == "") ≡ false
    → db_load b (db_store address domain db) ≡ (if b == address then some domain else db_load b db)
unfolding db_store
db_load-db_store address domain db b e f = ground (arith, e, f)

-- Where no write for the address is under way, and none for the domain in its family, a call of
-- FakeIPStoreAsync whose goroutine has ended has written to the file as FakeIPStore does, and has
-- left nothing behind in memory.
pub store_ends-store_begins :
    (address : Addr) (domain : String) (c : CacheFile)
    → c.save_domain address ≡ none
    → saved_address (not (is4 address)) c domain ≡ none
    → store_ends address domain (store_begins address domain c)
      ≡ record c { db = db_store address domain c.db }
unfolding store_ends store_begins
store_ends-store_begins address domain c e f = elim (Bool-cases (is4 address)) [
  | inl h ↦
      let g = ap (λ b. saved_address (not b) c domain) (sym h) ∙ f in
      simp (
        h,
        e,
        delete-insert address domain c.save_domain e,
        delete-insert domain address c.save_address4 g,
      )
  | inr h ↦
      let g = ap (λ b. saved_address (not b) c domain) (sym h) ∙ f in
      simp (
        h,
        e,
        delete-insert address domain c.save_domain e,
        delete-insert domain address c.save_address6 g,
      )
]

still_found :
    (o : Option String) (old domain : String) (address : Addr) (m : Map String Addr)
    (in_file : Option Addr)
    → o ≡ none
    → (old == domain) ≡ false
    → found (m old) in_file ≡ some address
    → found (insert domain address (without o m) old) in_file ≡ some address
still_found none old domain address m in_file e g f = rw g f
still_found (some x) old domain address m in_file e g f = ground (arith, e)

-- While the goroutine of a call that renames an address runs, no other write for the address being
-- under way, the address has the new domain, but the old domain still has the address.
pub old_domain_stays :
    (unmap : Addr → Addr) (address : Addr) (old domain : String) (c : CacheFile)
    → c.save_domain address ≡ none
    → cache_load_domain unmap old (not (is4 address)) c ≡ some address
    → (old == domain) ≡ false
    → (cache_load address (store_begins address domain c) ≡ some domain)
      × (cache_load_domain unmap old (not (is4 address)) (store_begins address domain c)
          ≡ some address)
unfolding store_begins cache_load cache_load_domain
old_domain_stays unmap (unset n) old domain c e f g = (
  ground (arith, (addr_beq_iff (unset n) (unset n)).1 refl),
  still_found (c.save_domain (unset n)) old domain (unset n) c.save_address6
      (db_load_domain unmap (domain_bucket true c.db old)) e g f,
)
old_domain_stays unmap (ipv4 n) old domain c e f g = (
  ground (arith, (addr_beq_iff (ipv4 n) (ipv4 n)).1 refl),
  still_found (c.save_domain (ipv4 n)) old domain (ipv4 n) c.save_address4
      (db_load_domain unmap (domain_bucket false c.db old)) e g f,
)
old_domain_stays unmap (ipv6 n) old domain c e f g = (
  ground (arith, (addr_beq_iff (ipv6 n) (ipv6 n)).1 refl),
  still_found (c.save_domain (ipv6 n)) old domain (ipv6 n) c.save_address6
      (db_load_domain unmap (domain_bucket true c.db old)) e g f,
)

-- The calls of FakeIPSaveMetadataAsync, one after the other.
abbrev pub save_all : List Metadata → CacheFile → CacheFile
save_all [] c = c
save_all (m ∷ ms) c = save_all ms (cache_save_metadata_async m c)

kept_timer :
    (ms : List Metadata) (first : Metadata) (c : CacheFile)
    → c.save_metadata_timer ≡ some first
    → save_all ms c ≡ c
unfolding cache_save_metadata_async
kept_timer [] first c e = refl
kept_timer (m ∷ ms) first c e = ap (save_all ms) (same c e) ∙ kept_timer ms first c e
  where
    same : (c : CacheFile) → c.save_metadata_timer ≡ some first → cache_save_metadata_async m c ≡ c
    same c e = rw e refl

-- Whatever metadata the calls of FakeIPSaveMetadataAsync after the first one are given, the timer
-- saves that of the first.
pub first_metadata_saved :
    (first : Metadata) (later : List Metadata) (c : CacheFile)
    → c.save_metadata_timer ≡ none
    → (addresses_of (timer_fires (save_all (first ∷ later) c)).db).metadata ≡ some first
unfolding timer_fires cache_save_metadata_async cache_save_metadata
first_metadata_saved first later c e =
    ap (λ c. (addresses_of (timer_fires (save_all later c)).db).metadata) (made c e)
    ∙ ap (λ c. (addresses_of (timer_fires c).db).metadata)
        (kept_timer later first (record c { save_metadata_timer = some first }) refl)
  where
    made :
        (c : CacheFile)
        → c.save_metadata_timer ≡ none
        → cache_save_metadata_async first c ≡ record c { save_metadata_timer = some first }
    made c e = rw e refl
