-- ===== src/Route/DefaultRule/Matching.antt =====
-- The answer of a default rule of plain conditions, as the manual states it: within a group of
-- conditions one has to hold, the groups and the other conditions hold together, and `invert`
-- flips the answer (docs/configuration/route/rule.md).
use sfa_provider.Prelude.{
  Bool, true, false, not, List, [], ◌∷◌, ◌&&◌, ◌||◌, ◌≡◌, refl, is_empty, any, all, if◌then◌else◌,
  arith, ◌∙◌, ap, Bool-cases, inl, inr,
}
use sfa_provider.Route.Context.{InboundContext, no_flags, with_flags}
use sfa_provider.Route.Item.{RuleItem, test, match_all, match_all_lem, mark}
use sfa_provider.Route.DefaultRule.{DefaultRule, conclude, match_default}
use sfa_provider.Route.DefaultRule.Meaning.{
  PlainRule, nonempty, tried, try_groups_lem, ip_cidr_counts, destination_hit,
}

module _ (r : DefaultRule) (m : InboundContext) where
  -- A group without conditions holds.
  abbrev pub group_holds : List RuleItem → Bool
  group_holds items = is_empty items || any (test m) items

  abbrev pub destination_holds : Bool
  destination_holds =
      (is_empty r.destination_address_items
        && not (ip_cidr_counts r m && nonempty r.destination_ip_cidr_items))
      || destination_hit r m

  abbrev pub conditions_hold : Bool
  conditions_hold =
      group_holds r.source_address_items
      && group_holds r.source_port_items
      && destination_holds
      && group_holds r.destination_port_items
      && all (test m) r.items

  -- Some condition counts.
  abbrev pub has_conditions : Bool
  has_conditions =
      nonempty r.source_address_items
      || nonempty r.source_port_items
      || nonempty r.destination_address_items
      || (ip_cidr_counts r m && nonempty r.destination_ip_cidr_items)
      || nonempty r.destination_port_items
      || nonempty r.items

  abbrev pub meaning : Bool
  meaning =
      if is_empty r.all_items
      then true
      else if not has_conditions
      then true
      else if conditions_hold
      then not r.invert
      else r.invert

any_empty :
    (t : RuleItem → Bool) (items : List RuleItem) → is_empty items ≡ true → any t items ≡ false
any_empty t [] h = refl
any_empty t (x ∷ xs) h = cc

all_empty :
    (t : RuleItem → Bool) (items : List RuleItem) → is_empty items ≡ true → all t items ≡ true
all_empty t [] h = refl
all_empty t (x ∷ xs) h = cc

did_match-mark :
    (items : List RuleItem) (m : InboundContext)
    → (mark items m).did_match ≡ (nonempty items || m.did_match)
did_match-mark [] m = refl
did_match-mark (x ∷ xs) m = refl

module _ (r : DefaultRule) (m : InboundContext) (p : PlainRule r) where
  -- What is left of Match after the blocks and the loop.
  rest : Bool × InboundContext → Bool × InboundContext
  rest (passed, m') = if passed then (conclude r m', m') else (r.invert, m')

  match_default-rest :
      is_empty r.all_items ≡ false
      → match_default r (with_flags no_flags m)
        ≡ rest (all (test m) r.items, mark r.items (with_flags (tried r m) m))
  unfolding match_default rest
  match_default-rest e = rw e (
      ap (λ x. rest (match_all r.items x)) (try_groups_lem r m p)
      ∙ ap rest (match_all_lem r.items m (tried r m) p.items))

  rest-meaning :
      is_empty r.all_items ≡ false
      → (rest (all (test m) r.items, mark r.items (with_flags (tried r m) m))).0 ≡ meaning r m
  unfolding rest conclude
  rest-meaning e = ground (
    arith,
    any_empty (test m) r.source_address_items,
    any_empty (test m) r.source_port_items,
    any_empty (test m) r.destination_address_items,
    any_empty (test m) r.destination_ip_cidr_items,
    any_empty (test m) r.destination_port_items,
    all_empty (test m) r.items,
  )

-- From a reset rule cache, a rule whose conditions all are plain answers by its meaning.
pub match_default_lem :
    (r : DefaultRule) (m : InboundContext)
    → PlainRule r
    → (match_default r (with_flags no_flags m)).0 ≡ meaning r m
unfolding match_default
match_default_lem r m p = elim (Bool-cases (is_empty r.all_items)) [
  | inl e ↦ rw e refl
  | inr e ↦ ap (λ x. x.0) (match_default-rest r m p e) ∙ rest-meaning r m p e
]

rest-metadata :
    (r : DefaultRule) (m : InboundContext) (p : PlainRule r) (b : Bool) (x : InboundContext)
    → (rest r m p (b, x)).1 ≡ x
unfolding rest
rest-metadata r m p true x = refl
rest-metadata r m p false x = refl

mark-flags :
    (items : List RuleItem) (x : InboundContext)
    → with_flags no_flags (mark items x) ≡ with_flags no_flags x
mark-flags [] x = refl
mark-flags (y ∷ ys) x = refl

-- Matching such a rule writes to nothing but the flags.
pub match_default-flags :
    (r : DefaultRule) (m : InboundContext)
    → PlainRule r
    → with_flags no_flags (match_default r (with_flags no_flags m)).1 ≡ with_flags no_flags m
unfolding match_default
match_default-flags r m p = elim (Bool-cases (is_empty r.all_items)) [
  | inl e ↦ rw e refl
  | inr e ↦
      ap (λ x. with_flags no_flags x.1) (match_default-rest r m p e)
      ∙ ap (with_flags no_flags)
          (rest-metadata r m p (all (test m) r.items) (mark r.items (with_flags (tried r m) m)))
      ∙ mark-flags r.items (with_flags (tried r m) m)
]
