-- ===== src/Boot/Round.antt =====
-- One round of startOutbounds takes steps of Order, and at least one where it says so
-- (box_outbound.go).
use mathlib.Core.List.{Memᴰ}
use sfa_provider.Prelude.{
  ◌≤◌, ◌<◌, String, some, Bool, true, false, not, List, [], ◌∷◌, string_key, ◌≡◌, refl, length, all,
  arith, Result, ok, err, elim_Bool, elim_Option,
}
use sfa_provider.Boot.{Outbound, StartError, start_failed, is_ready, start_round}
use sfa_provider.Boot.Order.{Order, next, is_ready-ready}

-- None of the outbounds can be started.
abbrev pub blocked : List String → List Outbound → Bool
blocked started outbounds = all (λ o. not (is_ready started o)) outbounds

-- The result of a round, with what is known of it.
abbrev pub RoundFrom : List Outbound → Result StartError (List String × Bool) → Type 0
RoundFrom outbounds (ok (started, go_on)) = Order outbounds started
RoundFrom outbounds (err e) =
    (o : Outbound) × (m : String) × Memᴰ o outbounds
    × (o.starts ≡ some m)
    × (e ≡ start_failed o.tag m)

pub start_round-Order :
    (outbounds pending : List Outbound) (started : List String) (go_on : Bool)
    → ((o : Outbound) → Memᴰ o pending → Memᴰ o outbounds)
    → Order outbounds started
    → RoundFrom outbounds (start_round pending started go_on)
unfolding start_round
start_round-Order outbounds [] started go_on sub r = r
start_round-Order outbounds (o ∷ pending) started go_on sub r =
    elim_Bool (RoundFrom outbounds) (is_ready started o) _ _
      (λ e. start_round-Order outbounds pending started go_on later r)
      (λ e.
        elim_Option (RoundFrom outbounds) o.starts _ _
          (λ s. start_round-Order outbounds pending (o.tag ∷ started) true later (
            next o (sub o (Memᴰ.head refl)) (is_ready-ready started o e).0
              (is_ready-ready started o e).1 s r))
          (λ m s. (o, m, sub o (Memᴰ.head refl), s, refl)))
  where
    later : (x : Outbound) → Memᴰ x pending → Memᴰ x outbounds
    later x m = sub x (Memᴰ.tail m)

pub start_round_mono :
    (pending : List Outbound) (started : List String) (go_on : Bool) (later : List String)
    (b : Bool)
    → start_round pending started go_on ≡ ok (later, b)
    → length started ≤ length later
unfolding start_round
start_round_mono [] started go_on later b h = ground (arith)
start_round_mono (o ∷ pending) started go_on later b h = ground (
  arith,
  start_round_mono pending started go_on later b,
  start_round_mono pending (o.tag ∷ started) true later b,
)

-- A round that goes on has started another outbound.
pub start_round-progress :
    (pending : List Outbound) (started : List String) (later : List String)
    → start_round pending started false ≡ ok (later, true)
    → length started < length later
unfolding start_round
start_round-progress [] started later h = ground (arith)
start_round-progress (o ∷ pending) started later h = ground (
  arith,
  start_round-progress pending started later,
  start_round_mono pending (o.tag ∷ started) true later true,
)

-- A round that does not go on has changed nothing, since no outbound is ready.
pub start_round-blocked :
    (pending : List Outbound) (started : List String) (go_on : Bool) (later : List String)
    → start_round pending started go_on ≡ ok (later, false)
    → (later ≡ started) × (go_on ≡ false) × (blocked started pending ≡ true)
unfolding start_round
start_round-blocked [] started go_on later h = ground (arith)
start_round-blocked (o ∷ pending) started go_on later h = ground (
  arith,
  start_round-blocked pending started go_on later,
  start_round-blocked pending (o.tag ∷ started) true later,
)
