-- ===== src/Group/UrlTest/Twice.antt =====
-- performUpdateCheck of outbound/urltest.go, run twice: the blocks for the two networks, and the calls
-- that they make again.
use sfa_provider.Prelude.{
  ℕ, Option, none, some, Bool, true, false, List, [], ◌∷◌, ◌||◌, if◌then◌else◌, ◌≡◌, refl, sym, ap,
  ◌∙◌, inl, inr, arith, All, Bool-cases,
}
use mathlib.Core.Path.{subst}
use sfa_provider.Group.Members.{Network, tcp, udp, Outbound, HistoryStorage}
use sfa_provider.Group.UrlTest.{
  UrlTestGroup, selected, Candidate, measured, select, replaces, store_selected, take_choice,
  update_network, interrupt_if, perform_update_check,
}
use sfa_provider.Group.UrlTest.Scan.{
  Regular, Within, IsMeasured, measured-IsMeasured, scan_lem, Within-unseen,
}
use sfa_provider.Group.UrlTest.Settled.{answer, start, final, select-answer, keeps}

keeps-stored :
    (network : Network) (g : UrlTestGroup) (d : Outbound)
    → Regular g.tolerance g.history
    → All (Within network g.tolerance g.history (measured g.history (some d))) g.outbounds
    → update_network network (store_selected network d g) ≡ (store_selected network d g, false)
keeps-stored tcp g d r w = keeps tcp (record g { selected_outbound_tcp = some d }) d r refl w
keeps-stored udp g d r w = keeps udp (record g { selected_outbound_udp = some d }) d r refl w

measured-again :
    (h : HistoryStorage) (network : Network) (tolerance : ℕ) (d : Outbound) (m : ℕ)
    → IsMeasured network tolerance h (some d, m)
    → measured h (some d) ≡ (some d, m)
measured-again h network tolerance d m (x, l, e) =
    ap (λ o. elim o as (λ y. Candidate) [ some y ↦ (some d, y.delay) | none ↦ (none, 0) ]) l
    ∙ ap (λ n. (some d, n)) e

All-unseen :
    (network : Network) (tolerance : ℕ) (h : HistoryStorage) (c : Candidate)
    (detours : List Outbound)
    → All (Within network tolerance h (none, 0)) detours
    → All (Within network tolerance h c) detours
All-unseen network tolerance h c [] w = tt
All-unseen network tolerance h c (d ∷ ds) w =
    (Within-unseen network tolerance h c d w.0, All-unseen network tolerance h c ds w.1)

-- Whether performUpdateCheck takes the choice.
abbrev changes : Option Outbound → Option Outbound × Bool → Bool
changes old (none, exists) = false
changes old (some d, exists) = replaces old exists d

take_choice-changes :
    (network : Network) (g : UrlTestGroup) (r : Option Outbound × Bool)
    → (take_choice network r g).1 ≡ changes (selected network g) r
take_choice-changes network g (none, exists) = refl
take_choice-changes network g (some d, exists) = ground arith

take_choice-Quiet :
    (network : Network) (g : UrlTestGroup) (r : Option Outbound × Bool)
    → changes (selected network g) r ≡ false
    → take_choice network r g ≡ (g, false)
take_choice-Quiet network g (none, exists) e = refl
take_choice-Quiet network g (some d, exists) e =
    ap (λ b. if b then (store_selected network d g, true) else (g, false)) e

abbrev Quiet : Network → UrlTestGroup → Type 0
Quiet network g = changes (selected network g) (select network g) ≡ false

Quiet-unchanged :
    (network : Network) (g : UrlTestGroup) → Quiet network g → update_network network g ≡ (g, false)
unfolding update_network
Quiet-unchanged network g e = take_choice-Quiet network g (select network g) e

unchanged-Quiet :
    (network : Network) (g : UrlTestGroup) → update_network network g ≡ (g, false) → Quiet network g
unfolding update_network
unchanged-Quiet network g e =
    sym (take_choice-changes network g (select network g)) ∙ ap (λ x. x.1) e

taken-Quiet :
    (network : Network) (g : UrlTestGroup) (c : Candidate)
    → Regular g.tolerance g.history
    → select network g ≡ answer network g c
    → IsMeasured network g.tolerance g.history c
    → All (Within network g.tolerance g.history c) g.outbounds
    → (d : Outbound) → (answer network g c).0 ≡ some d
    → Quiet network (store_selected network d g)
taken-Quiet network g (some x, m) r s p w d e =
    unchanged-Quiet network (store_selected network d g) (
      keeps-stored network g d r (
        subst (λ o. All (Within network g.tolerance g.history (measured g.history o)) g.outbounds) e
          (subst (λ c. All (Within network g.tolerance g.history c) g.outbounds)
            (sym (measured-again g.history network g.tolerance x m p)) w)))
taken-Quiet network g (none, m) r s p w d e = unchanged-Quiet network (store_selected network d g) (
    keeps-stored network g d r
      (All-unseen network g.tolerance g.history (measured g.history (some d)) g.outbounds w))

abbrev branch : Network → Outbound → UrlTestGroup → Bool → UrlTestGroup × Bool
branch network d g b = if b then (store_selected network d g, true) else (g, false)

-- What holds of a group before and after a new choice, holds after one of the blocks.
taking :
    (P : UrlTestGroup → Type 0) (network : Network) (g : UrlTestGroup) (r : Option Outbound × Bool)
    → P g
    → ((d : Outbound) → P (store_selected network d g))
    → P (take_choice network r g).0
taking P network g (none, exists) p f = p
taking P network g (some d, exists) p f = on (replaces (selected network g) exists d)
  where
    on : (b : Bool) → P (branch network d g b).0
    on true = f d
    on false = p

chosen-Quiet :
    (network : Network) (g : UrlTestGroup) (o : Option Outbound) (exists : Bool)
    → Regular g.tolerance g.history
    → select network g ≡ (o, exists)
    → changes (selected network g) (o, exists) ≡ true
    → Quiet network (take_choice network (o, exists) g).0
chosen-Quiet network g none exists r e t = cc
chosen-Quiet network g (some d) exists r e t =
    let s =
      scan_lem network g.tolerance g.history g.outbounds (start network g) r
        (measured-IsMeasured network g.tolerance g.history (selected network g)) in
    subst (λ b. Quiet network (branch network d g b).0) (sym t)
      (taken-Quiet network g (final network g) r (select-answer network g) s.0 s.2 d
        (ap (λ x. x.0) (sym (select-answer network g) ∙ e)))

update-Quiet :
    (network : Network) (g : UrlTestGroup)
    → Regular g.tolerance g.history
    → Quiet network (update_network network g).0
unfolding update_network
update-Quiet network g r = elim (Bool-cases (changes (selected network g) (select network g))) [
  | inl t ↦ chosen-Quiet network g (select network g).0 (select network g).1 r refl t
  | inr e ↦ subst (λ x. Quiet network x.0) (sym (Quiet-unchanged network g e)) e
]

-- The choice for one network does not depend on the other, nor on the connections.
udp-Quiet : (g : UrlTestGroup) → Quiet tcp g → Quiet tcp (update_network udp g).0
unfolding select update_network
udp-Quiet g q = taking (Quiet tcp) udp g (select udp g) q (λ d. q)

interrupt-Quiet :
    (network : Network) (g : UrlTestGroup) (b : Bool)
    → Quiet network g
    → Quiet network (interrupt_if b g)
unfolding select
interrupt-Quiet network g false q = q
interrupt-Quiet tcp g true q = q
interrupt-Quiet udp g true q = q

-- Where both choices are quiet, a check changes nothing.
Quiet-check : (g : UrlTestGroup) → Quiet tcp g → Quiet udp g → perform_update_check g ≡ g
unfolding perform_update_check
Quiet-check g t u =
    let e = Quiet-unchanged tcp g t in let f = Quiet-unchanged udp g u in rw e (rw f refl)

store_selected-Regular :
    (network : Network) (g : UrlTestGroup) (d : Outbound)
    → Regular g.tolerance g.history
    → Regular (store_selected network d g).tolerance (store_selected network d g).history
store_selected-Regular tcp g d r = r
store_selected-Regular udp g d r = r

update-Regular :
    (network : Network) (g : UrlTestGroup)
    → Regular g.tolerance g.history
    → Regular (update_network network g).0.tolerance (update_network network g).0.history
unfolding update_network
update-Regular network g r =
    taking (λ x. Regular x.tolerance x.history) network g (select network g) r
      (λ d. store_selected-Regular network g d r)

-- Where the delays are regular, checking the choice a second time changes nothing: no member is
-- chosen anew, and no connection is interrupted again.
pub check_twice :
    (g : UrlTestGroup)
    → Regular g.tolerance g.history
    → perform_update_check (perform_update_check g) ≡ perform_update_check g
unfolding perform_update_check
check_twice g r =
    let after_tcp = update_network tcp g in
    let after_udp = update_network udp after_tcp.0 in
    let b = after_tcp.1 || after_udp.1 in
    Quiet-check (interrupt_if b after_udp.0)
      (interrupt-Quiet tcp after_udp.0 b (udp-Quiet after_tcp.0 (update-Quiet tcp g r)))
      (interrupt-Quiet udp after_udp.0 b (update-Quiet udp after_tcp.0 (update-Regular tcp g r)))
