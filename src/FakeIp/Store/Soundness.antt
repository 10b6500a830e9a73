-- ===== src/FakeIp/Store/Soundness.antt =====
-- The invariant of the store (transport/fakeip/store.go): its storage is consistent, and its cursors
-- are of the right families.
use sfa_provider.Prelude.{
  String, none, some, Bool, true, false, not, ◌≡◌, refl, sym, ap, inl, inr, arith, Option-cases,
  Bool-cases, ◌==◌, string_key, if◌then◌else◌,
}
use mathlib.Core.Path.{subst}
use text.Mathlib.TextEquality.{eq_iff}
use sfa_provider.FakeIp.Addr.{
  Addr, unset, ipv4, ipv6, is4, is_valid, next, contains, Prefix, prefix_valid, addr_key,
}
use sfa_provider.FakeIp.Storage.{Storage}
use sfa_provider.FakeIp.Storage.Laws.{Laws}
use sfa_provider.FakeIp.Storage.Consistency.{
  Consistent, store-Consistent, save_metadata_async-Consistent, reset-Consistent,
}
use sfa_provider.FakeIp.Store.{
  Store, Config, first_address, next_address, assign, allocate, create, lookup, reset, fresh,
}

-- The ranges lie in the families that their names say, and the IPv4 range has room for the two
-- addresses that are skipped.
pub record RangesFit (c : Config) : Type 0 where
  pub v4 : prefix_valid c.inet4_range ≡ true → is4 (first_address c.inet4_range) ≡ true
  pub v6 : is4 c.inet6_range.addr ≡ false

next-is4_of : (a : Addr) → is4 (next a) ≡ true → is4 a ≡ true
unfolding next
next-is4_of (unset n) h = cc
next-is4_of (ipv4 n) h = refl
next-is4_of (ipv6 n) h = ground arith

contains-is4 : (r : Prefix) (a : Addr) → contains r a ≡ true → is4 a ≡ is4 r.addr
unfolding contains
contains-is4 r a h = ground arith

next_address-is4 :
    (r : Prefix) (a : Addr) → is4 (first_address r) ≡ true → is4 (next_address r a) ≡ true
unfolding next_address first_address
next_address-is4 r a h =
    ground (arith, contains-is4 r (next a), next-is4_of (next r.addr), next-is4_of r.addr)

pub next_address-not_is4 :
    (r : Prefix) (a : Addr) → is4 r.addr ≡ false → is4 (next_address r a) ≡ false
unfolding next_address first_address
next_address-not_is4 r a h =
    ground (arith, contains-is4 r (next a), next-is4_of (next r.addr), next-is4_of r.addr)

module _ {S : Type 0} (st : Storage S) where
  pub record IsSound (s : Store S) : Type 0 where
    pub consistent : Consistent st s.storage
    pub fit : RangesFit s.config
    pub cursor : is_valid s.inet4_current ≡ true → prefix_valid s.inet4_range ≡ true

module _ {S : Type 0} (st : Storage S) (l : Laws st) where
  pub lookup-assign :
      (a : Addr) (d : String) (s : Store S) (b : Addr)
      → lookup st b (assign st a d s) ≡ (if b == a then some d else lookup st b s)
  unfolding lookup assign
  lookup-assign a d s b = rw l.load-save_metadata_async (l.load-store a d s.storage b)

  pub lookup_moved :
      (b : Addr) (s : Store S) (a : Addr)
      → lookup st b (record s { inet6_current = a }) ≡ lookup st b s
  unfolding lookup
  lookup_moved b s a = refl

  pub assign-resolves :
      (a : Addr) (d : String) (s : Store S)
      → st.load_domain d (not (is4 a)) (assign st a d s).storage ≡ some a
  unfolding assign
  assign-resolves a d s =
      rw l.load_domain-save_metadata_async
        (ground (arith, l.load_domain-store a d s.storage d (not (is4 a)), eq_iff d d))

  assign-Consistent :
      (a : Addr) (d : String) (s : Store S)
      → Consistent st s.storage
      → st.load_domain d (not (is4 a)) s.storage ≡ none
      → Consistent st (assign st a d s).storage
  unfolding assign
  assign-Consistent a d s c free =
      save_metadata_async-Consistent st l _ _ (store-Consistent st l a d s.storage c free)

  -- Storing an address of the right family keeps the store sound.
  assign-IsSound :
      (a : Addr) (d : String) (v6 : Bool) (s : Store S)
      → IsSound st s
      → v6 ≡ not (is4 a)
      → st.load_domain d v6 s.storage ≡ none
      → IsSound st (assign st a d s)
  unfolding assign
  assign-IsSound a d v6 s v e free = record {
    consistent =
        assign-Consistent a d s v.consistent
          (subst (λ f. st.load_domain d f s.storage ≡ none) e free);
    fit = v.fit;
    cursor = v.cursor;
  }

  pub allocated4 :
      (s : Store S)
      → IsSound st s
      → is_valid s.inet4_current ≡ true
      → false ≡ not (is4 (next_address s.inet4_range s.inet4_current))
  allocated4 s v e =
      ap not (sym (next_address-is4 s.inet4_range s.inet4_current (v.fit.v4 (v.cursor e))))

  pub allocated6 :
      (s : Store S) → IsSound st s → true ≡ not (is4 (next_address s.inet6_range s.inet6_current))
  allocated6 s v = ap not (sym (next_address-not_is4 s.inet6_range s.inet6_current v.fit.v6))

  moved4-IsSound :
      (s : Store S) (a : Addr)
      → IsSound st s
      → is_valid s.inet4_current ≡ true
      → IsSound st (record s { inet4_current = a })
  moved4-IsSound s a v e = record {
    consistent = v.consistent;
    fit = v.fit;
    cursor = λ _. v.cursor e;
  }

  moved6-IsSound :
      (s : Store S) (a : Addr) → IsSound st s → IsSound st (record s { inet6_current = a })
  moved6-IsSound s a v = record { consistent = v.consistent; fit = v.fit; cursor = v.cursor }

  allocate-IsSound :
      (d : String) (v6 : Bool) (s : Store S)
      → IsSound st s
      → st.load_domain d v6 s.storage ≡ none
      → IsSound st (allocate st d v6 s).1
  unfolding allocate
  allocate-IsSound d false s v free = elim (Bool-cases (is_valid s.inet4_current)) [
    | inl e ↦ rw e (assign-IsSound _ d false _ (moved4-IsSound s _ v e) (allocated4 s v e) free)
    | inr e ↦ rw e v
  ]
  allocate-IsSound d true s v free = elim (Bool-cases (is_valid s.inet6_current)) [
    | inl e ↦ rw e (assign-IsSound _ d true _ (moved6-IsSound s _ v) (allocated6 s v) free)
    | inr e ↦ rw e v
  ]

  -- Create keeps the two directions of the storage in agreement, whatever it returns.
  pub create-IsSound :
      (d : String) (v6 : Bool) (s : Store S) → IsSound st s → IsSound st (create st d v6 s).1
  unfolding create
  create-IsSound d v6 s v = elim (Option-cases (st.load_domain d v6 s.storage)) [
    | inl e ↦ rw (e, create) (allocate-IsSound d v6 s v e)
    | inr (a, e) ↦ rw (e, create) v
  ]

  pub reset-IsSound : (s : Store S) → IsSound st s → IsSound st (reset st s)
  unfolding reset
  reset-IsSound s v = record {
    consistent = reset-Consistent st l s.storage;
    fit = v.fit;
    cursor = v.cursor;
  }

  pub fresh-IsSound : (c : Config) (storage : S) → RangesFit c → IsSound st (fresh st c storage)
  unfolding fresh
  fresh-IsSound c storage fit = record {
    consistent = reset-Consistent st l storage;
    fit = fit;
    cursor = λ h. ground arith;
  }
