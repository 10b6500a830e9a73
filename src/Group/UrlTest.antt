-- ===== src/Group/UrlTest.antt =====
-- `URLTestGroup` of outbound/urltest.go: the choice of the member with the lowest measured delay.
-- Delays and the tolerance are uint16, whose sum wraps around.
pub mod Scan
pub mod Settled
pub mod Twice
pub mod Zero
use sfa_provider.Prelude.{
  ℕ, ◌+◌, ◌%◌, Option, none, some, Bool, true, false, not, List, [], ◌∷◌, ◌&&◌, ◌||◌, ltb, nat_eq,
  if◌then◌else◌,
}
use sfa_provider.Group.Members.{
  Network, tcp, udp, Outbound, real_tag, supports, HistoryStorage, load_history,
}
use sfa_provider.Group.Interrupt.{InterruptGroup, interrupt}

pub record UrlTestGroup : Type 0 where
  pub outbounds : List Outbound
  pub tolerance : ℕ
  pub history : HistoryStorage
  pub selected_outbound_tcp : Option Outbound
  pub selected_outbound_udp : Option Outbound
  pub interrupt_group : InterruptGroup
  pub interrupt_external_connections : Bool

abbrev pub selected : Network → UrlTestGroup → Option Outbound
selected tcp g = g.selected_outbound_tcp
selected udp g = g.selected_outbound_udp

-- minOutbound and minDelay.
abbrev pub Candidate : Type 0
Candidate = Option Outbound × ℕ

-- The switch at the head of Select: the member that is selected, where it has been measured.
abbrev pub measured : HistoryStorage → Option Outbound → Candidate
measured h none = (none, 0)
measured h (some detour) = elim (load_history h (real_tag detour)) [
  | some history ↦ (some detour, history.delay)
  | none ↦ (none, 0)
]

-- One round of the loop.
unfoldable pub improve : Network → ℕ → HistoryStorage → Outbound → Candidate → Candidate
improve network tolerance h detour (min_outbound, min_delay) =
    if not (supports network detour)
    then (min_outbound, min_delay)
    else elim (load_history h (real_tag detour)) [
      | none ↦ (min_outbound, min_delay)
      | some history ↦
          if nat_eq min_delay 0 || ltb ((history.delay + tolerance) % 65536) min_delay
          then (some detour, history.delay)
          else (min_outbound, min_delay)
    ]

unfoldable pub scan : Network → ℕ → HistoryStorage → List Outbound → Candidate → Candidate
scan network tolerance h [] c = c
scan network tolerance h (detour ∷ detours) c =
    scan network tolerance h detours (improve network tolerance h detour c)

-- The second loop: the first member that supports the network.
unfoldable pub first_supporting : Network → List Outbound → Option Outbound
first_supporting network [] = none
first_supporting network (detour ∷ detours) =
    if supports network detour then some detour else first_supporting network detours

-- Select
unfoldable pub select : Network → UrlTestGroup → Option Outbound × Bool
unfolding scan first_supporting
select network g =
    let c =
      scan network g.tolerance g.history g.outbounds (measured g.history (selected network g)) in
    elim c.0 [
      | some detour ↦ (some detour, true)
      | none ↦ (first_supporting network g.outbounds, false)
    ]

abbrev pub store_selected : Network → Outbound → UrlTestGroup → UrlTestGroup
store_selected tcp detour g = record g { selected_outbound_tcp = some detour }
store_selected udp detour g = record g { selected_outbound_udp = some detour }

-- `outbound != nil && (selected == nil || (exists && outbound != selected))`
abbrev pub replaces : Option Outbound → Bool → Outbound → Bool
replaces none exists detour = true
replaces (some old) exists detour = exists && not (nat_eq detour.identity old.identity)

-- One of the two blocks of performUpdateCheck, and whether it set `updated`.
abbrev pub take_choice : Network → Option Outbound × Bool → UrlTestGroup → UrlTestGroup × Bool
take_choice network (none, exists) g = (g, false)
take_choice network (some detour, exists) g =
    if replaces (selected network g) exists detour
    then (store_selected network detour g, true)
    else (g, false)

unfoldable pub update_network : Network → UrlTestGroup → UrlTestGroup × Bool
update_network network g = take_choice network (select network g) g

abbrev pub interrupt_if : Bool → UrlTestGroup → UrlTestGroup
interrupt_if false g = g
interrupt_if true g = record g {
  interrupt_group = interrupt g.interrupt_external_connections g.interrupt_group;
}

-- performUpdateCheck
unfoldable pub perform_update_check : UrlTestGroup → UrlTestGroup
perform_update_check g =
    let (g', updated_tcp) = update_network tcp g in
    let (g'', updated_udp) = update_network udp g' in interrupt_if (updated_tcp || updated_udp) g''
