-- ===== src/FakeIp/Storage.antt =====
-- The interface `adapter.FakeIPStorage` (adapter/fakeip.go) over a state `S`, and the metadata
-- (adapter/fakeip_metadata.go). The mutexes, the logger and the error that the asynchronous
-- calls drop are left out: a call is one step of the state.
use sfa_provider.Prelude.{String, Option, Bool}
pub mod Laws
pub mod Consistency
use sfa_provider.FakeIp.Addr.{Addr, Prefix}

pub record Metadata : Type 0 where
  pub inet4_range : Prefix
  pub inet6_range : Prefix
  pub inet4_current : Addr
  pub inet6_current : Addr

pub record Storage (S : Type 0) : Type 0 where
  -- FakeIPMetadata may consume what it returns.
  pub metadata : S → Option Metadata × S
  pub save_metadata : Metadata → S → S
  pub save_metadata_async : Metadata → S → S
  pub store : Addr → String → S → S
  pub load : Addr → S → Option String
  pub load_domain : String → Bool → S → Option Addr
  pub reset : S → S
