-- ===== src/FakeIp/Store.antt =====
-- transport/fakeip/store.go, over any storage of the interface. `Config` is what `NewStore` sets;
-- a `Store` is what it is after `Start`. An exclude rule is seen through the errors of its
-- `Start` and `Close`.
pub mod Soundness
pub mod Lookups
pub mod Cycle
pub mod Stability
pub mod Session
pub mod Served
pub mod Bounds
use sfa_provider.Prelude.{
  String, Option, none, some, Bool, true, false, ◌&&◌, ◌||◌, Result, ok, err, nat_eq, if◌then◌else◌,
}
use sfa_provider.FakeIp.Addr.{Addr, unset, Prefix, next, contains, is_valid, prefix_valid, addr_beq}
use sfa_provider.FakeIp.Storage.{Storage, Metadata}

pub record ExcludeRule : Type 0 where
  pub start_error : Option String
  pub close_error : Option String

pub record Config : Type 0 where
  pub inet4_range : Prefix
  pub inet6_range : Prefix
  pub exclude_rule : Option ExcludeRule

pub record Store (S : Type 0) : Type 0 where
  pub config : Config
  pub open config use *
  pub storage : S
  pub inet4_current : Addr
  pub inet6_current : Addr

pub data CreateError : Type 0 where
  missing_ipv4_range missing_ipv6_range : CreateError

abbrev pub prefix_beq : Prefix → Prefix → Bool
prefix_beq p q = addr_beq p.addr q.addr && nat_eq p.bits_plus_one q.bits_plus_one

-- range.Addr().Next().Next()
unfoldable pub first_address : Prefix → Addr
unfolding next
first_address range = next (next range.addr)

-- `nextAddress` of Create.
unfoldable pub next_address : Prefix → Addr → Addr
unfolding first_address contains
next_address range current =
    let n = next current in if contains range n then n else first_address range

-- The cursor that Start sets where no metadata is found.
unfoldable pub initial_cursor : Prefix → Addr
unfolding first_address
initial_cursor range = if prefix_valid range then first_address range else unset 0

abbrev pub same_ranges : Config → Metadata → Bool
same_ranges c m = prefix_beq m.inet4_range c.inet4_range && prefix_beq m.inet6_range c.inet6_range

-- An error of the exclude rule, where there is one.
abbrev pub exclude_error : (ExcludeRule → Option String) → Option ExcludeRule → Option String
exclude_error f none = none
exclude_error f (some r) = f r

module _ {S : Type 0} where
  -- The cursors of the metadata that a former run saved.
  abbrev pub resume : Config → Metadata → S → Store S
  resume c m storage = record {
    config = c;
    storage = storage;
    inet4_current = m.inet4_current;
    inet6_current = m.inet6_current;
  }

  -- The metadata that Create and Close save.
  abbrev pub metadata_of : Store S → Metadata
  metadata_of s = record {
    inet4_range = s.inet4_range;
    inet6_range = s.inet6_range;
    inet4_current = s.inet4_current;
    inet6_current = s.inet6_current;
  }

  -- Contains
  pub store_contains : Store S → Addr → Bool
  store_contains s address = contains s.inet4_range address || contains s.inet6_range address

module _ {S : Type 0} (st : Storage S) where
  -- A fresh start: the cursors at the head of the ranges, and an empty storage.
  unfoldable pub fresh : Config → S → Store S
  unfolding initial_cursor
  fresh c storage = record {
    config = c;
    storage = st.reset storage;
    inet4_current = initial_cursor c.inet4_range;
    inet6_current = initial_cursor c.inet6_range;
  }

  abbrev pub restore : Config → Option Metadata → S → Store S
  restore c none storage = fresh c storage
  restore c (some m) storage = if same_ranges c m then resume c m storage else fresh c storage

  -- Start: the store, and the error of the exclude rule.
  unfoldable pub start : Config → S → Store S × Option String
  unfolding fresh
  start c storage =
      let (m, storage') = st.metadata storage in
      (restore c m storage', exclude_error (λ r. r.start_error) c.exclude_rule)

  -- Close: an error of the exclude rule keeps the metadata from being saved.
  unfoldable pub close : Store S → Store S × Option String
  close s = elim (exclude_error (λ r. r.close_error) s.exclude_rule) [
    | some e ↦ (s, some e)
    | none ↦ (record s { storage = st.save_metadata (metadata_of s) s.storage }, none)
  ]

  -- The end of Create: the pair is stored, and the metadata with the new cursor.
  unfoldable pub assign : Addr → String → Store S → Store S
  assign address domain s = record s {
    storage = st.save_metadata_async (metadata_of s) (st.store address domain s.storage);
  }

  -- Create where the domain has no address yet.
  unfoldable pub allocate : String → Bool → Store S → Result CreateError Addr × Store S
  unfolding assign next_address
  allocate domain false s =
      if is_valid s.inet4_current
      then (let address = next_address s.inet4_range s.inet4_current in
          (ok address, assign address domain (record s { inet4_current = address })))
      else (err missing_ipv4_range, s)
  allocate domain true s =
      if is_valid s.inet6_current
      then (let address = next_address s.inet6_range s.inet6_current in
          (ok address, assign address domain (record s { inet6_current = address })))
      else (err missing_ipv6_range, s)

  -- Create
  unfoldable pub create : String → Bool → Store S → Result CreateError Addr × Store S
  unfolding allocate
  create domain v6 s = elim (st.load_domain domain v6 s.storage) [
    | some address ↦ (ok address, s)
    | none ↦ allocate domain v6 s
  ]

  -- Lookup
  unfoldable pub lookup : Addr → Store S → Option String
  lookup address s = st.load address s.storage

  -- Reset
  unfoldable pub reset : Store S → Store S
  reset s = record s { storage = st.reset s.storage }
