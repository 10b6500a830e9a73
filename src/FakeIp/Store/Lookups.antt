-- ===== src/FakeIp/Store/Lookups.antt =====
-- What Create of transport/fakeip/store.go promises its clients, over any storage with the laws.
use sfa_provider.Prelude.{
  String, none, some, Bool, true, false, not, Result, ok, err, ◌≡◌, refl, sym, inl, inr, arith,
  Option-cases, Bool-cases, string_key,
}
use mathlib.Core.Path.{subst}
use sfa_provider.FakeIp.Addr.{Addr, is4, is_valid, addr_key, addr_beq_iff}
use sfa_provider.FakeIp.Storage.{Storage}
use sfa_provider.FakeIp.Storage.Laws.{Laws}
use sfa_provider.FakeIp.Store.{Store, CreateError, next_address, assign, allocate, create, lookup}
use sfa_provider.FakeIp.Store.Soundness.{
  allocated4, allocated6, IsSound, next_address-not_is4, lookup-assign, lookup_moved,
  assign-resolves,
}

module _ {S : Type 0} (st : Storage S) (l : Laws st) where
  -- The address resolves back, and the domain resolves to the address.
  abbrev pub Resolves : String → Bool → Store S → Addr → Type 0
  Resolves d v6 s a = (lookup st a s ≡ some d) × (st.load_domain d v6 s.storage ≡ some a)

  assign-Resolves :
      (a : Addr) (d : String) (v6 : Bool) (s : Store S)
      → v6 ≡ not (is4 a)
      → Resolves d v6 (assign st a d s) a
  assign-Resolves a d v6 s e = (
    ground (arith, lookup-assign st l a d s a, addr_beq_iff a a),
    subst (λ f. st.load_domain d f (assign st a d s).storage ≡ some a) (sym e)
        (assign-resolves st l a d s),
  )

  -- What each result of Create means.
  abbrev pub Outcome : String → Bool → Result CreateError Addr × Store S → Type 0
  Outcome d v6 (ok a, s) = Resolves d v6 s a
  Outcome d v6 (err e, s) = st.load_domain d v6 s.storage ≡ none

  allocate-Outcome :
      (d : String) (v6 : Bool) (s : Store S)
      → IsSound st s
      → st.load_domain d v6 s.storage ≡ none
      → Outcome d v6 (allocate st d v6 s)
  unfolding allocate
  allocate-Outcome d false s v free = elim (Bool-cases (is_valid s.inet4_current)) [
    | inl e ↦ rw e (assign-Resolves _ d false _ (allocated4 st l s v e))
    | inr e ↦ rw e free
  ]
  allocate-Outcome d true s v free = elim (Bool-cases (is_valid s.inet6_current)) [
    | inl e ↦ rw e (assign-Resolves _ d true _ (allocated6 st l s v))
    | inr e ↦ rw e free
  ]

  pub create-Outcome :
      (d : String) (v6 : Bool) (s : Store S) → IsSound st s → Outcome d v6 (create st d v6 s)
  unfolding create
  create-Outcome d v6 s v = elim (Option-cases (st.load_domain d v6 s.storage)) [
    | inl e ↦ rw (e, create) (allocate-Outcome d v6 s v e)
    | inr (a, e) ↦ rw (e, create) (unfold lookup in v.consistent.back d v6 a e, e)
  ]

  -- In a sound store, the address that Create returns looks up to the domain, and asking for the
  -- domain again returns the same address and changes nothing.
  pub create_again :
      (d : String) (v6 : Bool) (s s' : Store S) (a : Addr)
      → IsSound st s
      → create st d v6 s ≡ (ok a, s')
      → (lookup st a s' ≡ some d) × (create st d v6 s' ≡ (ok a, s'))
  create_again d v6 s s' a v h =
      let r = subst (Outcome d v6) h (create-Outcome d v6 s v) in
      (r.0, unfold create in rw (r.1, create) refl)

  -- An IPv6 allocation leaves the IPv4 addresses alone.
  pub lookup-create_ipv6 :
      (d : String) (s : Store S) (b : Addr)
      → IsSound st s
      → is4 b ≡ true
      → lookup st b (create st d true s).1 ≡ lookup st b s
  unfolding create allocate
  lookup-create_ipv6 d s b v is_v4 =
      let a : Addr = next_address s.inet6_range s.inet6_current in
      ground (
        arith,
        next_address-not_is4 s.inet6_range s.inet6_current v.fit.v6,
        addr_beq_iff b a,
        lookup-assign st l a d (record s { inet6_current = a }) b,
        lookup_moved st l b s a,
      )
