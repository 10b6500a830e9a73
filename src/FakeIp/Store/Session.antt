-- ===== src/FakeIp/Store/Session.antt =====
-- Histories of calls of Create and Reset (transport/fakeip/store.go) from a fresh start.
use sfa_provider.Prelude.{String, some, Bool, not, List, [], ◌∷◌, ◌≡◌, ◌↔◌}
use sfa_provider.FakeIp.Addr.{Addr, is4}
use sfa_provider.FakeIp.Storage.{Storage}
use sfa_provider.FakeIp.Storage.Laws.{Laws}
use sfa_provider.FakeIp.Store.{Store, Config, create, reset, fresh, lookup}
use sfa_provider.FakeIp.Store.Soundness.{
  RangesFit, IsSound, create-IsSound, reset-IsSound, fresh-IsSound,
}

pub data Call : Type 0 where
  creates : String → Bool → Call
  resets : Call

module _ {S : Type 0} (st : Storage S) where
  -- One call of a client.
  unfoldable pub call : Call → Store S → Store S
  call (creates domain v6) s = (create st domain v6 s).1
  call resets s = reset st s

  unfoldable pub run : List Call → Store S → Store S
  unfolding call
  run [] s = s
  run (c ∷ cs) s = run cs (call c s)

module _ {S : Type 0} (st : Storage S) (l : Laws st) where
  call-IsSound : (c : Call) (s : Store S) → IsSound st s → IsSound st (call st c s)
  unfolding call
  call-IsSound (creates domain v6) s v = create-IsSound st l domain v6 s v
  call-IsSound resets s v = reset-IsSound st l s v

  pub run-IsSound : (cs : List Call) (s : Store S) → IsSound st s → IsSound st (run st cs s)
  unfolding run
  run-IsSound [] s v = v
  run-IsSound (c ∷ cs) s v = run-IsSound cs (call st c s) (call-IsSound c s v)

  -- After a fresh start and any sequence of Create and Reset calls the two tables are inverse to
  -- each other: an address looks up to a domain exactly if the domain resolves to it, and a domain
  -- resolves only to addresses of the family that was asked for. So no two domains share one.
  pub tables_inverse :
      (c : Config) (storage : S) (cs : List Call) (d : String) (v6 : Bool) (a : Addr)
      → RangesFit c
      → let s = run st cs (fresh st c storage) in
        (st.load_domain d v6 s.storage ≡ some a) ↔ ((lookup st a s ≡ some d) × (v6 ≡ not (is4 a)))
  unfolding lookup
  tables_inverse c storage cs d v6 a fit =
      let s = run-IsSound cs (fresh st c storage) (fresh-IsSound st l c storage fit) in
      (
        λ h. (s.consistent.back d v6 a h, s.consistent.family d v6 a h),
        λ h. rw h.1 (s.consistent.forth d a h.0),
      )
