-- ===== src/Group/Tests.antt =====
-- Groups of two members.
use sfa_provider.Prelude.{ℕ, Option, none, some, true, false, [], ◌∷◌, ◌≡◌, refl, arith, string_key}
use sfa_provider.Group.Members.{
  tcp, udp, Outbound, HistoryStorage, new_history_storage, store_history,
}
use sfa_provider.Group.Interrupt.{
  new_group, new_conn, interrupt, close_hit, keep_missed, InterruptGroup,
}
use sfa_provider.Group.UrlTest.{
  UrlTestGroup, select, scan, improve, first_supporting, perform_update_check, update_network,
}
use sfa_provider.Group.UrlTest.Scan.{Regular}
use sfa_provider.Group.UrlTest.Settled.{IsBest, select-IsBest}
use sfa_provider.Group.UrlTest.Twice.{check_twice}

abbrev near : Outbound
near = record { identity = 1; tag = "near"; networks = tcp ∷ udp ∷ []; now = none }

-- A group whose answer to Now is "inner".
abbrev far : Outbound
far = record { identity = 2; tag = "far"; networks = tcp ∷ []; now = some "inner" }

abbrev history_of : ℕ → ℕ → HistoryStorage
history_of near_delay far_delay =
    store_history "near" (record { time = 1; delay = near_delay })
      (store_history "inner" (record { time = 2; delay = far_delay }) new_history_storage)

abbrev group : ℕ → ℕ → Option Outbound → UrlTestGroup
group near_delay far_delay old = record {
  outbounds = near ∷ far ∷ [];
  tolerance = 50;
  history = history_of near_delay far_delay;
  selected_outbound_tcp = old;
  selected_outbound_udp = none;
  interrupt_group = record new_group {
    connections = record { conn = 7; is_external = false } ∷ [];
  };
  interrupt_external_connections = false;
}

-- The slower member is kept as long as the other is not faster by more than the tolerance.
kept_within_tolerance : select tcp (group 100 140 (some far)) ≡ (some far, true)
unfolding select scan improve
kept_within_tolerance = refl

left_past_tolerance : select tcp (group 100 151 (some far)) ≡ (some near, true)
unfolding select scan improve
left_past_tolerance = refl

interrupts_on_change :
    (perform_update_check (group 100 151 (some far))).interrupt_group
    ≡ record { connections = []; closed = 7 ∷ [] }
unfolding perform_update_check update_network select scan improve interrupt close_hit keep_missed
    first_supporting
interrupts_on_change = refl

history-Regular : Regular 50 (history_of 100 151)
history-Regular tag x e = ground arith

select-IsBest_example :
    IsBest tcp (group 100 151 (some far)) (select tcp (group 100 151 (some far)))
select-IsBest_example = select-IsBest tcp (group 100 151 (some far)) history-Regular

check_twice_example :
    perform_update_check (perform_update_check (group 100 151 (some far)))
    ≡ perform_update_check (group 100 151 (some far))
check_twice_example = check_twice (group 100 151 (some far)) history-Regular

-- An external connection between two internal ones.
abbrev tracked : InterruptGroup
tracked = new_conn 3 false (new_conn 2 true (new_conn 1 false new_group))

external_stays :
    interrupt false tracked
    ≡ record { connections = record { conn = 2; is_external = true } ∷ []; closed = 1 ∷ 3 ∷ [] }
unfolding interrupt close_hit keep_missed new_conn
external_stays = refl
