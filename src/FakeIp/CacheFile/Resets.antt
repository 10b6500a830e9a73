-- ===== src/FakeIp/CacheFile/Resets.antt =====
-- When FakeIPReset of experimental/cachefile/fakeip.go deletes nothing.
use sfa_provider.Prelude.{
  ℕ, String, none, some, Bool, true, false, List, [], ◌∷◌, string_key, ◌≡◌, refl, ap, ◌∙◌, arith,
}
use sfa_provider.FakeIp.Addr.{ipv4}
use sfa_provider.FakeIp.CacheFile.{
  CacheFile, Db, db_store, store_begins, store_ends, cache_reset, db_reset,
}

-- Writes of IPv4 addresses, each to its end.
abbrev pub store_all : List (ℕ × String) → CacheFile → CacheFile
store_all [] c = c
store_all (call ∷ calls) c =
    store_all calls (store_ends (ipv4 call.0) call.1 (store_begins (ipv4 call.0) call.1 c))

db_store-domain6 :
    (n : ℕ) (domain : String) (db : Db) → (db_store (ipv4 n) domain db).domain6 ≡ db.domain6
unfolding db_store
db_store-domain6 n domain db = ground arith

store_all-domain6 :
    (calls : List (ℕ × String)) (c : CacheFile) → (store_all calls c).db.domain6 ≡ c.db.domain6
unfolding store_ends store_begins
store_all-domain6 [] c = refl
store_all-domain6 (call ∷ calls) c = store_all-domain6 calls _ ∙ db_store-domain6 call.0 call.1 c.db

db_reset-none : (db : Db) → db.domain6 ≡ none → db_reset db ≡ none
unfolding db_reset
db_reset-none db e = ground (arith, e)

-- A file without a bucket for the domains of IPv6 addresses, as it is after writes of IPv4 addresses
-- alone: whatever they were, FakeIPReset fails and leaves every entry.
pub ipv4_never_reset :
    (calls : List (ℕ × String)) (c : CacheFile)
    → c.db.domain6 ≡ none
    → cache_reset (store_all calls c) ≡ (false, store_all calls c)
unfolding cache_reset
ipv4_never_reset calls c e =
    ap
      (λ x. elim x as (λ y. Bool × CacheFile) [
        | none ↦ (false, store_all calls c)
        | some db ↦ (true, record (store_all calls c) { db = db })
      ])
      (db_reset-none (store_all calls c).db (store_all-domain6 calls c ∙ e))
