-- ===== src/FakeIp/Store/Stability.antt =====
-- How long an IPv4 address keeps its domain (Create of transport/fakeip/store.go): the distance of the
-- cursor from the address along its cycle.
use sfa_provider.Prelude.{
  ℕ, suc, ◌+◌, ◌<◌, ◌≤◌, String, none, some, Bool, true, false, List, [], ◌∷◌, Result, ok, ◌≡◌,
  refl, sym, ap, ◌⊎◌, inl, inr, arith, Option-cases, Bool-cases, length, if◌then◌else◌, ◌∙◌, ltb,
  ◌≢◌,
}
use mathlib.Core.Path.{subst}
use sfa_provider.FakeIp.Addr.{Addr, ipv4, is4, is_valid, addr_key, addr_beq_iff}
use sfa_provider.FakeIp.Storage.{Storage}
use sfa_provider.FakeIp.Storage.Laws.{Laws}
use sfa_provider.FakeIp.Store.{Store, CreateError, next_address, assign, allocate, create, lookup}
use sfa_provider.FakeIp.Store.Cycle.{Range4, limit, next4_in, next4_wrap}
use sfa_provider.FakeIp.Store.Soundness.{next_address-not_is4, lookup-assign}

-- The cursor stands in the cycle of a range that has one.
pub record Cycling {S : Type 0} (m bits : ℕ) (s : Store S) : Type 0 where
  pub range : Range4 s.inet4_range m bits
  pub room : m + 2 < limit m bits
  pub v6 : is4 s.inet6_range.addr ≡ false
  pub at : ℕ
  pub current : s.inet4_current ≡ ipv4 at
  pub low : m + 2 ≤ at
  pub high : at < limit m bits

-- Where the cursor goes from `c`.
pub step : ℕ → ℕ → ℕ → ℕ
step m bits c = if ltb (c + 1) (limit m bits) then c + 1 else m + 2

-- `n` steps of the cursor from `c` do not reach `x`.
abbrev pub Ahead : ℕ → ℕ → ℕ → ℕ → ℕ → Type 0
Ahead m bits x c n = ((x ≤ c) × (c + n + m + 2 < limit m bits + x)) ⊎ ((c < x) × (c + n < x))

module _ {S : Type 0} (st : Storage S) where
  pub allocate4-result :
      (e : String) (s : Store S)
      → is_valid s.inet4_current ≡ true
      → let a = next_address s.inet4_range s.inet4_current in
        allocate st e false s ≡ (ok a, assign st a e (record s { inet4_current = a }))
  unfolding allocate
  allocate4-result e s h = rw h

  -- A sequence of Create calls.
  pub creates : List (String × Bool) → Store S → Store S
  creates [] s = s
  creates ((e, v6) ∷ calls) s = creates calls (create st e v6 s).1

module _ {S : Type 0} (st : Storage S) (l : Laws st) (m bits : ℕ) where
  next-step :
      (s : Store S) (v : Cycling m bits s)
      → next_address s.inet4_range s.inet4_current ≡ ipv4 (step m bits v.at)
  unfolding step
  next-step s v = rw v.current (elim (Bool-cases (ltb (v.at + 1) (limit m bits))) [
    | inl e ↦ rw e (next4_in v.range v.at v.low (ground arith))
    | inr e ↦ rw e (next4_wrap v.range v.at v.room (ground (arith, v.high)))
  ])

  pub step_cycle :
      (c : ℕ)
      → m + 2 < limit m bits
      → (m + 2 ≤ c)
      → (m + 2 ≤ step m bits c) × (step m bits c < limit m bits)
  unfolding step
  step_cycle c room lo = ground arith

  step-Ahead :
      (x c n : ℕ)
      → m + 2 ≤ c
      → c < limit m bits
      → x < limit m bits
      → m + 2 ≤ x
      → Ahead m bits x c (suc n)
      → Ahead m bits x (step m bits c) n × (step m bits c ≢ x)
  unfolding step
  step-Ahead x c n lo hi hx lx a = ground arith

  -- `x` holds the domain `d`, and `n` more allocations leave it so.
  record Holding (x : ℕ) (d : String) (n : ℕ) (s : Store S) : Type 0 where
    cycling : Cycling m bits s
    kept : lookup st (ipv4 x) s ≡ some d
    ahead : Ahead m bits x cycling.at n
    low : m + 2 ≤ x
    high : x < limit m bits

  pub moved : (e : String) (s : Store S) (v : Cycling m bits s) → Store S
  moved e s v =
      assign st (ipv4 (step m bits v.at)) e (record s { inet4_current = ipv4 (step m bits v.at) })

  abbrev made : String → Store S → Addr → Result CreateError Addr × Store S
  made e s a = (ok a, assign st a e (record s { inet4_current = a }))

  pub allocate4_lem :
      (e : String) (s : Store S) (v : Cycling m bits s)
      → allocate st e false s ≡ (ok (ipv4 (step m bits v.at)), moved e s v)
  unfolding moved
  allocate4_lem e s v = allocate4-result st e s (rw v.current) ∙ ap (made e s) (next-step s v)

  moved-Cycling : (e : String) (s : Store S) (v : Cycling m bits s) → Cycling m bits (moved e s v)
  unfolding moved assign
  moved-Cycling e s v =
      let c = step_cycle v.at v.room v.low in
      record {
        range = v.range;
        room = v.room;
        v6 = v.v6;
        at = step m bits v.at;
        current = refl;
        low = c.0;
        high = c.1;
      }

  moved-Holding :
      (x : ℕ) (d : String) (n : ℕ) (e : String) (s : Store S) (v : Holding x d (suc n) s)
      → Holding x d n (moved e s v.cycling)
  unfolding moved lookup
  moved-Holding x d n e s v =
      let g = step-Ahead x v.cycling.at n v.cycling.low v.cycling.high v.high v.low v.ahead in
      record {
        cycling = moved-Cycling e s v.cycling;
        kept =
            lookup-assign st l (ipv4 (step m bits v.cycling.at)) e _ (ipv4 x)
            ∙ ground (arith, g.1, v.kept);
        ahead = unfold moved-Cycling in g.0;
        low = v.low;
        high = v.high;
      }

  -- An IPv6 allocation moves no IPv4 cursor and stores no IPv4 address.
  allocate6-Holding :
      (x : ℕ) (d : String) (n : ℕ) (e : String) (s : Store S)
      → Holding x d n s
      → Holding x d n (allocate st e true s).1
  unfolding allocate assign lookup
  allocate6-Holding x d n e s v = elim (Bool-cases (is_valid s.inet6_current)) [
    | inl h ↦ rw h (record {
      cycling = record {
        range = v.cycling.range;
        room = v.cycling.room;
        v6 = v.cycling.v6;
        at = v.cycling.at;
        current = v.cycling.current;
        low = v.cycling.low;
        high = v.cycling.high;
      };
      kept =
          lookup-assign st l (next_address s.inet6_range s.inet6_current) e
            (record s { inet6_current = next_address s.inet6_range s.inet6_current }) (ipv4 x)
          ∙ ground (
            arith,
            next_address-not_is4 s.inet6_range s.inet6_current v.cycling.v6,
            addr_beq_iff (ipv4 x) (next_address s.inet6_range s.inet6_current),
            v.kept,
          );
      ahead = v.ahead;
      low = v.low;
      high = v.high;
    })
    | inr h ↦ rw h v
  ]

  less-Ahead : (x c n : ℕ) → Ahead m bits x c (suc n) → Ahead m bits x c n
  less-Ahead x c n a = ground arith

  less-Holding :
      (x : ℕ) (d : String) (n : ℕ) (s : Store S) → Holding x d (suc n) s → Holding x d n s
  less-Holding x d n s v = record {
    cycling = v.cycling;
    kept = v.kept;
    ahead = less-Ahead x v.cycling.at n v.ahead;
    low = v.low;
    high = v.high;
  }

  allocate-Holding :
      (x : ℕ) (d : String) (n : ℕ) (e : String) (v6 : Bool) (s : Store S)
      → Holding x d (suc n) s
      → Holding x d n (allocate st e v6 s).1
  allocate-Holding x d n e true s v = allocate6-Holding x d n e s (less-Holding x d n s v)
  allocate-Holding x d n e false s v =
      subst (Holding x d n) (ap (λ p. p.1) (sym (allocate4_lem e s v.cycling)))
        (moved-Holding x d n e s v)

  create-Holding :
      (x : ℕ) (d : String) (n : ℕ) (e : String) (v6 : Bool) (s : Store S)
      → Holding x d (suc n) s
      → Holding x d n (create st e v6 s).1
  unfolding create
  create-Holding x d n e v6 s v = elim (Option-cases (st.load_domain e v6 s.storage)) [
    | inl h ↦ rw (h, create) (allocate-Holding x d n e v6 s v)
    | inr (a, h) ↦ rw (h, create) (less-Holding x d n s v)
  ]

  creates-Holding :
      (x : ℕ) (d : String) (calls : List (String × Bool)) (s : Store S)
      → Holding x d (length calls) s
      → lookup st (ipv4 x) (creates st calls s) ≡ some d
  unfolding creates
  creates-Holding x d [] s v = v.kept
  creates-Holding x d ((e, v6) ∷ calls) s v =
      creates-Holding x d calls (create st e v6 s).1 (create-Holding x d (length calls) e v6 s v)

  moved-starts :
      (d : String) (s : Store S) (n : ℕ) (v : Cycling m bits s)
      → n + m + 2 < limit m bits
      → Holding (step m bits v.at) d n (moved d s v)
  unfolding moved lookup
  moved-starts d s n v room =
      let c = step_cycle v.at v.room v.low in
      record {
        cycling = moved-Cycling d s v;
        kept =
            lookup-assign st l (ipv4 (step m bits v.at)) d
              (record s { inet4_current = ipv4 (step m bits v.at) }) (ipv4 (step m bits v.at))
            ∙ ground (arith, addr_beq_iff (ipv4 (step m bits v.at)) (ipv4 (step m bits v.at)));
        ahead = unfold moved-Cycling in inl (omega arith, omega arith);
        low = c.0;
        high = c.1;
      }

  pub ipv4_injective :
      {E : Type 0} (x y : ℕ) (s t : Store S)
      → ◌≡◌ {A = Result E Addr × Store S} (ok (ipv4 x), s) (ok (ipv4 y), t)
      → (x ≡ y) × (s ≡ t)
  ipv4_injective x y s t h = ground arith

  -- An IPv4 address that Create has newly given to a domain looks up to that domain after any
  -- further calls of Create, as long as they are fewer than the addresses of the range past the
  -- second one.
  pub address_stays :
      (d : String) (s s' : Store S) (x : ℕ) (calls : List (String × Bool))
      → Cycling m bits s
      → st.load_domain d false s.storage ≡ none
      → create st d false s ≡ (ok (ipv4 x), s')
      → length calls + m + 2 < limit m bits
      → lookup st (ipv4 x) (creates st calls s') ≡ some d
  unfolding create
  address_stays d s s' x calls v free h room =
      let done = sym (allocate4_lem d s v) ∙ (rw (free, create) at h) in
      let e = ipv4_injective (step m bits v.at) x (moved d s v) s' done in
      creates-Holding x d calls s' (
        subst (λ y. Holding y d (length calls) s') e.0
          (subst (Holding (step m bits v.at) d (length calls)) e.1
            (moved-starts d s (length calls) v room)))
