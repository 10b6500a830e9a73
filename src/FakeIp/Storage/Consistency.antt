-- ===== src/FakeIp/Storage/Consistency.antt =====
-- The two directions of a FakeIPStorage (adapter/fakeip.go): from addresses to domains and back.
use sfa_provider.Prelude.{String, none, some, Bool, not, ◌≡◌, arith, string_key}
use text.Mathlib.TextEquality.{eq_iff}
use sfa_provider.FakeIp.Addr.{Addr, is4, addr_key, addr_beq_iff}
use sfa_provider.FakeIp.Storage.{Storage, Metadata}
use sfa_provider.FakeIp.Storage.Laws.{Laws, is_some_of_iff}

module _ {S : Type 0} (st : Storage S) where
  pub record Consistent (s : S) : Type 0 where
    pub family :
        (e : String) (v6 : Bool) (a : Addr) → st.load_domain e v6 s ≡ some a → v6 ≡ not (is4 a)
    pub back :
        (e : String) (v6 : Bool) (a : Addr) → st.load_domain e v6 s ≡ some a → st.load a s ≡ some e
    pub forth :
        (e : String) (a : Addr) → st.load a s ≡ some e → st.load_domain e (not (is4 a)) s ≡ some a

module _ {S : Type 0} (st : Storage S) (l : Laws st) where
  store-back :
      (a : Addr) (d : String) (s : S) (e : String) (v6 : Bool) (b : Addr)
      → Consistent st s
      → st.load_domain e v6 (st.store a d s) ≡ some b
      → st.load b (st.store a d s) ≡ some e
  store-back a d s e v6 b c h = ground (
    arith,
    l.load-store a d s b,
    l.load_domain-store a d s e v6,
    eq_iff e d,
    addr_beq_iff b a,
    is_some_of_iff (st.load a s) e,
    c.back e v6 b,
    c.family e v6 b,
  )

  store-family :
      (a : Addr) (d : String) (s : S) (e : String) (v6 : Bool) (b : Addr)
      → Consistent st s
      → st.load_domain e v6 (st.store a d s) ≡ some b
      → v6 ≡ not (is4 b)
  store-family a d s e v6 b c h =
      ground (arith, l.load_domain-store a d s e v6, eq_iff e d, c.family e v6 b)

  store-forth :
      (a : Addr) (d : String) (s : S) (e : String) (b : Addr)
      → Consistent st s
      → st.load_domain d (not (is4 a)) s ≡ none
      → st.load b (st.store a d s) ≡ some e
      → st.load_domain e (not (is4 b)) (st.store a d s) ≡ some b
  store-forth a d s e b c fresh h = ground (
    arith,
    l.load-store a d s b,
    l.load_domain-store a d s e (not (is4 b)),
    eq_iff e d,
    addr_beq_iff b a,
    is_some_of_iff (st.load a s) e,
    c.forth e b,
    c.forth e a,
  )

  -- A domain without an address in the family may be stored.
  pub store-Consistent :
      (a : Addr) (d : String) (s : S)
      → Consistent st s
      → st.load_domain d (not (is4 a)) s ≡ none
      → Consistent st (st.store a d s)
  store-Consistent a d s c fresh = record {
    family = λ e v6 b h. store-family a d s e v6 b c h;
    back = λ e v6 b h. store-back a d s e v6 b c h;
    forth = λ e b h. store-forth a d s e b c fresh h;
  }

  pub reset-Consistent : (s : S) → Consistent st (st.reset s)
  reset-Consistent s = record {
    family = λ e v6 b h. cc (l.load_domain-reset s e v6);
    back = λ e v6 b h. cc (l.load_domain-reset s e v6);
    forth = λ e b h. cc (l.load-reset s b);
  }

  pub save_metadata_async-Consistent :
      (m : Metadata) (s : S) → Consistent st s → Consistent st (st.save_metadata_async m s)
  save_metadata_async-Consistent m s c = record {
    family = λ e v6 b h. c.family e v6 b (rw l.load_domain-save_metadata_async at h);
    back = λ e v6 b h.
        rw l.load-save_metadata_async (c.back e v6 b (rw l.load_domain-save_metadata_async at h));
    forth = λ e b h.
        rw l.load_domain-save_metadata_async (c.forth e b (rw l.load-save_metadata_async at h));
  }
