-- ===== src/FakeIp/Store/Bounds.antt =====
-- Where the addresses that Create of transport/fakeip/store.go hands out lie.
use sfa_provider.Prelude.{
  ℕ, ◌+◌, ◌≤◌, ◌<◌, ◌^◌, String, none, true, false, ok, ◌≡◌, refl, sym, ap, ◌∙◌, arith,
}
use mathlib.Core.Path.{subst}
use sfa_provider.FakeIp.Addr.{Addr, ipv4, is4, contains}
use sfa_provider.FakeIp.Storage.{Storage}
use sfa_provider.FakeIp.Storage.Laws.{Laws}
use sfa_provider.FakeIp.Store.{Store, Config, next_address, assign, create, fresh}
use sfa_provider.FakeIp.Store.Cycle.{
  Range4, limit, contains_range, first4, block_le, not_contains_past, next4_stuck,
}
use sfa_provider.FakeIp.Store.Stability.{
  Cycling, step, step_cycle, allocate4_lem, ipv4_injective, allocate4-result,
}

module _ {S : Type 0} (st : Storage S) where
  -- After a fresh start over an IPv4 range with room the cursor stands in its cycle.
  pub fresh-Cycling :
      (c : Config) (storage : S) (m bits : ℕ)
      → Range4 c.inet4_range m bits
      → m + 2 < limit m bits
      → is4 c.inet6_range.addr ≡ false
      → Cycling m bits (fresh st c storage)
  unfolding fresh
  fresh-Cycling c storage m bits r room v6 = record {
    range = r;
    room = room;
    v6 = v6;
    at = m + 2;
    current = ground (arith, r.bits_eq, first4 r room);
    low = omega arith;
    high = room;
  }

module _ {S : Type 0} (st : Storage S) (l : Laws st) (m bits : ℕ) where
  -- A newly created IPv4 address lies in the range, past its second address.
  pub created_in_range :
      (d : String) (s s' : Store S) (x : ℕ)
      → Cycling m bits s
      → st.load_domain d false s.storage ≡ none
      → create st d false s ≡ (ok (ipv4 x), s')
      → (contains s.inet4_range (ipv4 x) ≡ true) × (m + 2 ≤ x)
  unfolding create
  created_in_range d s s' x v free h =
      let c = step_cycle st l m bits v.at v.room v.low in
      let done = sym (allocate4_lem st l m bits d s v) ∙ (rw (free, create) at h) in
      let e = ipv4_injective st l m bits _ x _ s' done in
      subst (λ (y : ℕ). (contains s.inet4_range (ipv4 y) ≡ true) × (m + 2 ≤ y)) e.0
        (contains_range v.range (step m bits v.at) (omega (arith, block_le v.range, c.0)) c.1, c.0)

module _ {S : Type 0} (st : Storage S) where
  -- An IPv4 range with no room past its second address is accepted all the same: every domain
  -- that is new is given the one address after it, which lies outside the range, and the cursor
  -- stays on that address.
  pub tiny_range :
      (d : String) (s : Store S) (m bits : ℕ)
      → Range4 s.inet4_range m bits
      → limit m bits ≤ m + 2
      → m + 2 < 2 ^ 32
      → s.inet4_current ≡ ipv4 (m + 2)
      → st.load_domain d false s.storage ≡ none
      → ((create st d false s).0 ≡ ok (ipv4 (m + 2)))
        × (contains s.inet4_range (ipv4 (m + 2)) ≡ false)
        × ((create st d false s).1.inet4_current ≡ ipv4 (m + 2))
  unfolding create assign
  tiny_range d s m bits range tiny fits current free =
      let a : Addr = next_address s.inet4_range s.inet4_current in
      let stuck : a ≡ ipv4 (m + 2) =
        ap (next_address s.inet4_range) current ∙ next4_stuck range tiny fits in
      let result = allocate4-result st d s (rw current) in
      rw (free, create) (rw result (rw stuck (refl, not_contains_past range (m + 2) tiny, refl)))
