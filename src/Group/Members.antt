-- ===== src/Group/Members.antt =====
-- The members of a group as the groups see them (adapter.Outbound, adapter.OutboundGroup and RealTag
-- of outbound/selector.go), and the delays measured for them (common/urltest/urltest.go). The hook
-- that tells a listener of a change is left out.
use sfa_provider.Prelude.{
  ℕ, String, Option, none, some, Bool, true, false, List, Map, insert, delete, empty_map, any,
  string_key,
}

pub data Network : Type 0 where
  tcp udp : Network

abbrev pub same_network : Network → Network → Bool
same_network tcp tcp = true
same_network tcp udp = false
same_network udp tcp = false
same_network udp udp = true

-- adapter.Outbound. `identity` is the object, which `!=` compares; `now` is the answer of Now,
-- where the outbound is a group itself.
pub record Outbound : Type 0 where
  pub identity : ℕ
  pub tag : String
  pub networks : List Network
  pub now : Option String

-- RealTag
abbrev pub real_tag : Outbound → String
real_tag detour = elim detour.now [ some tag ↦ tag | none ↦ detour.tag ]

-- common.Contains(detour.Network(), network)
abbrev pub supports : Network → Outbound → Bool
supports network detour = any (same_network network) detour.networks

pub record History : Type 0 where
  pub time : ℕ
  pub delay : ℕ

pub record HistoryStorage : Type 0 where
  pub delay_history : Map String History

-- NewHistoryStorage
abbrev pub new_history_storage : HistoryStorage
new_history_storage = record { delay_history = empty_map }

-- LoadURLTestHistory
abbrev pub load_history : HistoryStorage → String → Option History
load_history s tag = s.delay_history tag

-- StoreURLTestHistory
abbrev pub store_history : String → History → HistoryStorage → HistoryStorage
store_history tag history s = record { delay_history = insert tag history s.delay_history }

-- DeleteURLTestHistory
abbrev pub delete_history : String → HistoryStorage → HistoryStorage
delete_history tag s = record { delay_history = delete tag s.delay_history }
