-- ===== src/FakeIp/Store/Served.antt =====
-- Create of transport/fakeip/store.go at any time after a fresh start: the cursor of a family that has
-- a range stays valid.
use sfa_provider.Prelude.{
  String, some, Bool, true, false, not, List, [], ◌∷◌, ok, err, Result, ◌≡◌, refl, if_intro,
  if_elim, elim_Option, arith,
}
use sfa_provider.FakeIp.Addr.{
  Addr, unset, ipv4, ipv6, is4, is_valid, next, contains, Prefix, prefix_valid,
}
use sfa_provider.FakeIp.Storage.{Storage}
use sfa_provider.FakeIp.Storage.Laws.{Laws}
use sfa_provider.FakeIp.Store.{
  Store, Config, CreateError, first_address, next_address, initial_cursor, assign, allocate, create,
  lookup, reset, fresh,
}
use sfa_provider.FakeIp.Store.Soundness.{RangesFit, IsSound, create-IsSound, fresh-IsSound}
use sfa_provider.FakeIp.Store.Lookups.{Outcome, create-Outcome}
use sfa_provider.FakeIp.Store.Session.{Call, creates, resets, call, run, run-IsSound}

abbrev pub range_of : Bool → Config → Prefix
range_of true c = c.inet6_range
range_of false c = c.inet4_range

contains-valid : (r : Prefix) (a : Addr) → contains r a ≡ true → is_valid a ≡ true
unfolding contains
contains-valid r (unset n) h = ground arith
contains-valid r (ipv4 n) h = refl
contains-valid r (ipv6 n) h = refl

next_address-valid :
    (r : Prefix) (a : Addr) → is_valid (first_address r) ≡ true → is_valid (next_address r a) ≡ true
unfolding next_address
next_address-valid r a h =
    if_elim (λ x. is_valid x ≡ true) (contains r (next a)) _ _
      (λ inside. contains-valid r (next a) inside) (λ outside. h)

module _ {S : Type 0} (st : Storage S) where
  abbrev cursor_of : Bool → Store S → Addr
  cursor_of true s = s.inet6_current
  cursor_of false s = s.inet4_current

  -- The family has a range, and its cursor is an address.
  abbrev IsReady : Bool → Store S → Type 0
  IsReady v6 s =
      (is_valid (cursor_of v6 s) ≡ true) × (is_valid (first_address (range_of v6 s.config)) ≡ true)

  allocate-IsReady :
      (d : String) (family v6 : Bool) (s : Store S)
      → IsReady v6 s
      → IsReady v6 (allocate st d family s).1
  unfolding allocate assign
  allocate-IsReady d false false s h =
      if_intro (λ (r : Result CreateError Addr × Store S). IsReady false r.1)
        (is_valid s.inet4_current) _ _ (next_address-valid s.inet4_range s.inet4_current h.1, h.1) h
  allocate-IsReady d false true s h =
      if_intro (λ (r : Result CreateError Addr × Store S). IsReady true r.1)
        (is_valid s.inet4_current) _ _ h h
  allocate-IsReady d true false s h =
      if_intro (λ (r : Result CreateError Addr × Store S). IsReady false r.1)
        (is_valid s.inet6_current) _ _ h h
  allocate-IsReady d true true s h =
      if_intro (λ (r : Result CreateError Addr × Store S). IsReady true r.1)
        (is_valid s.inet6_current) _ _ (next_address-valid s.inet6_range s.inet6_current h.1, h.1) h

  create-IsReady :
      (d : String) (family v6 : Bool) (s : Store S)
      → IsReady v6 s
      → IsReady v6 (create st d family s).1
  unfolding create
  create-IsReady d family v6 s h =
      elim_Option (λ (r : Result CreateError Addr × Store S). IsReady v6 r.1)
        (st.load_domain d family s.storage) _ _ (λ missing. allocate-IsReady d family v6 s h)
        (λ a found. h)

  call-IsReady : (v6 : Bool) (c : Call) (s : Store S) → IsReady v6 s → IsReady v6 (call st c s)
  unfolding call reset
  call-IsReady v6 (creates d family) s h = create-IsReady d family v6 s h
  call-IsReady true resets s h = h
  call-IsReady false resets s h = h

  run-IsReady : (v6 : Bool) (cs : List Call) (s : Store S) → IsReady v6 s → IsReady v6 (run st cs s)
  unfolding run
  run-IsReady v6 [] s h = h
  run-IsReady v6 (c ∷ cs) s h = run-IsReady v6 cs (call st c s) (call-IsReady v6 c s h)

  fresh-IsReady :
      (v6 : Bool) (c : Config) (storage : S)
      → prefix_valid (range_of v6 c) ≡ true
      → is_valid (first_address (range_of v6 c)) ≡ true
      → IsReady v6 (fresh st c storage)
  unfolding fresh initial_cursor
  fresh-IsReady true c storage p h = (ground (arith, p, h), h)
  fresh-IsReady false c storage p h = (ground (arith, p, h), h)

  abbrev IsCreated : Result CreateError Addr × Store S → Type 0
  IsCreated (ok a, s) = Unit
  IsCreated (err e, s) = ⊥

  ready-IsCreated :
      (d : String) (v6 : Bool) (s : Store S) → IsReady v6 s → IsCreated (create st d v6 s)
  unfolding create allocate
  ready-IsCreated d true s h =
      elim_Option IsCreated (st.load_domain d true s.storage) _ _
        (λ missing.
          if_elim IsCreated (is_valid s.inet6_current) _ _ (λ ready. tt)
            (λ stale. absurd (ground (arith, stale, h.0))))
        (λ a found. tt)
  ready-IsCreated d false s h =
      elim_Option IsCreated (st.load_domain d false s.storage) _ _
        (λ missing.
          if_elim IsCreated (is_valid s.inet4_current) _ _ (λ ready. tt)
            (λ stale. absurd (ground (arith, stale, h.0))))
        (λ a found. tt)

module _ {S : Type 0} (st : Storage S) (l : Laws st) where
  Serves : String → Bool → Result CreateError Addr × Store S → Type 0
  Serves d v6 r = (a : Addr) × (r.0 ≡ ok a) × (v6 ≡ not (is4 a)) × (lookup st a r.1 ≡ some d)

  created-Serves :
      (d : String) (v6 : Bool) (r : Result CreateError Addr × Store S)
      → IsCreated st r
      → Outcome st l d v6 r
      → IsSound st r.1
      → Serves d v6 r
  unfolding Serves
  created-Serves d v6 (ok a, s) h resolves sound =
      (a, refl, sound.consistent.family d v6 a resolves.1, resolves.0)
  created-Serves d v6 (err e, s) h resolves sound = absurd h

  -- Where the family that is asked for has a range whose third address exists, after a fresh start and
  -- any sequence of Create and Reset calls, Create returns an address of the family for every domain,
  -- and the address then looks up to the domain.
  pub create_serves :
      (c : Config) (storage : S) (cs : List Call) (d : String) (v6 : Bool)
      → RangesFit c
      → prefix_valid (range_of v6 c) ≡ true
      → is_valid (first_address (range_of v6 c)) ≡ true
      → let s = run st cs (fresh st c storage) in
        (a : Addr) × ((create st d v6 s).0 ≡ ok a)
        × (v6 ≡ not (is4 a))
        × (lookup st a (create st d v6 s).1 ≡ some d)
  unfolding Serves
  create_serves c storage cs d v6 fit p h =
      let s = run st cs (fresh st c storage) in
      let sound = run-IsSound st l cs _ (fresh-IsSound st l c storage fit) in
      created-Serves d v6 (create st d v6 s)
        (ready-IsCreated st d v6 s (run-IsReady st v6 cs _ (fresh-IsReady st v6 c storage p h)))
        (create-Outcome st l d v6 s sound) (create-IsSound st l d v6 s sound)
