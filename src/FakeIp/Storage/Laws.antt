-- ===== src/FakeIp/Storage/Laws.antt =====
-- What a client of FakeIPStorage (adapter/fakeip.go) relies on: how a lookup reads after each call.
use sfa_provider.Prelude.{
  String, Option, none, some, Bool, true, false, not, ◌≡◌, ◌↔◌, arith, ◌==◌, if◌then◌else◌,
  string_key,
}
use text.Mathlib.TextEquality.{eq_iff}
use sfa_provider.FakeIp.Addr.{Addr, is4, addr_key}
use sfa_provider.FakeIp.Storage.{Storage, Metadata}

-- The tests on `bool`.
abbrev pub bool_beq : Bool → Bool → Bool
bool_beq a b = if a then b else not b

-- The domain that the address named before, if that is `e`.
unfoldable pub is_some_of : Option String → String → Bool
is_some_of none e = false
is_some_of (some d) e = e == d

pub is_some_of_iff : (o : Option String) (e : String) → (is_some_of o e ≡ true) ↔ (o ≡ some e)
unfolding is_some_of
is_some_of_iff none e = ground arith
is_some_of_iff (some d) e = ground (arith, eq_iff e d)

pub record Laws {S : Type 0} (st : Storage S) : Type 0 where
  pub load-store :
      (a : Addr) (d : String) (s : S) (b : Addr)
      → st.load b (st.store a d s) ≡ (if b == a then some d else st.load b s)
  -- Storing drops the domain that the address named before, in the address's family alone.
  pub load_domain-store :
      (a : Addr) (d : String) (s : S) (e : String) (v6 : Bool)
      → st.load_domain e v6 (st.store a d s) ≡ (
          if bool_beq v6 (not (is4 a))
          then (if e == d
              then some a
              else if is_some_of (st.load a s) e
              then none
              else st.load_domain e v6 s)
          else st.load_domain e v6 s)
  pub load-reset : (s : S) (b : Addr) → st.load b (st.reset s) ≡ none
  pub load_domain-reset : (s : S) (e : String) (v6 : Bool) → st.load_domain e v6 (st.reset s) ≡ none
  pub load-save_metadata_async :
      (m : Metadata) (s : S) (b : Addr) → st.load b (st.save_metadata_async m s) ≡ st.load b s
  pub load_domain-save_metadata_async :
      (m : Metadata) (s : S) (e : String) (v6 : Bool)
      → st.load_domain e v6 (st.save_metadata_async m s) ≡ st.load_domain e v6 s
