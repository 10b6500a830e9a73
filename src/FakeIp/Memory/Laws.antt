-- ===== src/FakeIp/Memory/Laws.antt =====
-- The storage of transport/fakeip/memory.go against the laws of the interface.
use sfa_provider.Prelude.{
  String, Option, none, some, Bool, true, false, not, ◌≡◌, refl, ap, ◌==◌, if◌then◌else◌,
  string_key,
}
use sfa_provider.FakeIp.Addr.{Addr, ipv4, unset, ipv6, is4, addr_key}
use sfa_provider.FakeIp.Storage.Laws.{Laws, bool_beq, is_some_of}
use sfa_provider.FakeIp.Memory.{
  MemoryStorage, memory, memory_store, memory_load, memory_load_domain, drop_old_domain,
  memory_reset,
}

drop_old-address_cache :
    (a : Addr) (o : Option String) (s : MemoryStorage)
    → (drop_old_domain a o s).address_cache ≡ s.address_cache
unfolding drop_old_domain
drop_old-address_cache a none s = refl
drop_old-address_cache (unset n) (some e) s = refl
drop_old-address_cache (ipv4 n) (some e) s = refl
drop_old-address_cache (ipv6 n) (some e) s = refl

load-store :
    (a : Addr) (d : String) (s : MemoryStorage) (b : Addr)
    → memory_load b (memory_store a d s) ≡ (if b == a then some d else memory_load b s)
unfolding memory_load memory_store
load-store (unset n) d s b =
    rw (drop_old-address_cache (unset n) (s.address_cache (unset n)) s) refl
load-store (ipv4 n) d s b = rw (drop_old-address_cache (ipv4 n) (s.address_cache (ipv4 n)) s) refl
load-store (ipv6 n) d s b = rw (drop_old-address_cache (ipv6 n) (s.address_cache (ipv6 n)) s) refl

load_domain-drop_old :
    (a : Addr) (o : Option String) (s : MemoryStorage) (e : String) (v6 : Bool)
    → memory_load_domain e v6 (drop_old_domain a o s) ≡ (
        if bool_beq v6 (not (is4 a))
        then (if is_some_of o e then none else memory_load_domain e v6 s)
        else memory_load_domain e v6 s)
unfolding memory_load_domain drop_old_domain is_some_of
load_domain-drop_old (unset n) none s e false = refl
load_domain-drop_old (unset n) none s e true = refl
load_domain-drop_old (unset n) (some d) s e false = refl
load_domain-drop_old (unset n) (some d) s e true = refl
load_domain-drop_old (ipv4 n) none s e false = refl
load_domain-drop_old (ipv4 n) none s e true = refl
load_domain-drop_old (ipv4 n) (some d) s e false = refl
load_domain-drop_old (ipv4 n) (some d) s e true = refl
load_domain-drop_old (ipv6 n) none s e false = refl
load_domain-drop_old (ipv6 n) none s e true = refl
load_domain-drop_old (ipv6 n) (some d) s e false = refl
load_domain-drop_old (ipv6 n) (some d) s e true = refl

load_domain-store :
    (a : Addr) (d : String) (s : MemoryStorage) (e : String) (v6 : Bool)
    → memory_load_domain e v6 (memory_store a d s) ≡ (
        if bool_beq v6 (not (is4 a))
        then (if e == d
            then some a
            else if is_some_of (memory_load a s) e
            then none
            else memory_load_domain e v6 s)
        else memory_load_domain e v6 s)
unfolding memory_load_domain memory_store memory_load
load_domain-store (unset n) d s e false =
    load_domain-drop_old (unset n) (s.address_cache (unset n)) s e false
load_domain-store (unset n) d s e true =
    ap (λ (o : Option Addr). if e == d then some (unset n) else o)
      (load_domain-drop_old (unset n) (s.address_cache (unset n)) s e true)
load_domain-store (ipv4 n) d s e true =
    load_domain-drop_old (ipv4 n) (s.address_cache (ipv4 n)) s e true
load_domain-store (ipv4 n) d s e false =
    ap (λ (o : Option Addr). if e == d then some (ipv4 n) else o)
      (load_domain-drop_old (ipv4 n) (s.address_cache (ipv4 n)) s e false)
load_domain-store (ipv6 n) d s e false =
    load_domain-drop_old (ipv6 n) (s.address_cache (ipv6 n)) s e false
load_domain-store (ipv6 n) d s e true =
    ap (λ (o : Option Addr). if e == d then some (ipv6 n) else o)
      (load_domain-drop_old (ipv6 n) (s.address_cache (ipv6 n)) s e true)

load_domain-reset :
    (s : MemoryStorage) (e : String) (v6 : Bool) → memory_load_domain e v6 (memory_reset s) ≡ none
unfolding memory_load_domain memory_reset
load_domain-reset s e true = refl
load_domain-reset s e false = refl

-- Lookups after each call of the in-memory storage read as the interface says: the address that
-- was stored names its new domain, that domain resolves to it, the domain that the address named
-- before resolves to nothing in the address's family, and nothing else changes.
pub memory-Laws : Laws memory
unfolding memory
memory-Laws = record {
  load-store = load-store;
  load_domain-store = load_domain-store;
  load-reset = λ s b. refl;
  load_domain-reset = load_domain-reset;
  load-save_metadata_async = λ m s b. refl;
  load_domain-save_metadata_async = λ m s e v6. refl;
}
