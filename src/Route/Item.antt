-- ===== src/Route/Item.antt =====
-- The interface `RuleItem` (route/rule_item_*.go): a condition, whose Match may write to the
-- metadata. The type test `item.(*RuleSetItem)` is the field `is_rule_set`; `contains_ip_cidr` is
-- ContainsDestinationIPCIDRRule of a rule-set item.
use sfa_provider.Prelude.{
  Bool, true, false, List, [], ◌∷◌, ◌&&◌, ◌≡◌, refl, any, all, All, if◌then◌else◌, arith,
  Bool-cases, ◌⊎◌, inl, inr, ap, ◌∙◌,
}
use sfa_provider.Route.Context.{InboundContext, MatchFlags, with_flags, set_did_match}

pub record RuleItem : Type 0 where
  pub is_rule_set : Bool
  pub matches : InboundContext → Bool × InboundContext
  pub contains_ip_cidr : Bool

-- `for _, item := range items { if item.Match(metadata) { ...; break } }`
unfoldable pub match_any : List RuleItem → InboundContext → Bool × InboundContext
match_any [] m = (false, m)
match_any (item ∷ items) m =
    let (hit, m') = item.matches m in if hit then (true, m') else match_any items m'

-- The loop over `r.items`, which stops at the first condition that fails.
unfoldable pub match_all : List RuleItem → InboundContext → Bool × InboundContext
match_all [] m = (true, m)
match_all (item ∷ items) m =
    let (hit, m') = item.matches (if item.is_rule_set then m else set_did_match m) in
    if hit then match_all items m' else (false, m')

-- What a condition answers.
abbrev pub test : InboundContext → RuleItem → Bool
test m item = (item.matches m).0

-- A condition of the connection alone: it is no rule set, writes nothing, and its answer does not
-- depend on the flags.
pub record Plain (item : RuleItem) : Type 0 where
  pub no_rule_set : item.is_rule_set ≡ false
  pub steady : (m : InboundContext) → item.matches m ≡ (test m item, m)
  pub flagless : (m : InboundContext) (f : MatchFlags) → test (with_flags f m) item ≡ test m item

pub match_any_lem :
    (items : List RuleItem) (m : InboundContext) (f : MatchFlags)
    → All Plain items
    → match_any items (with_flags f m) ≡ (any (test m) items, with_flags f m)
unfolding match_any
match_any_lem [] m f p = refl
match_any_lem (item ∷ items) m f p =
    let s = p.0.steady (with_flags f m) in
    let t = p.0.flagless m f in ground (arith, s, t, match_any_lem items m f p.1)

-- Whether `match_all` marks that a condition was tested.
abbrev pub mark : List RuleItem → InboundContext → InboundContext
mark [] m = m
mark (item ∷ items) m = set_did_match m

-- The flags after a condition was tested.
abbrev pub marked : MatchFlags → MatchFlags
marked f = record f { did_match = true }

mark-marked :
    (items : List RuleItem) (m : InboundContext) (f : MatchFlags)
    → mark items (with_flags (marked f) m) ≡ with_flags (marked f) m
mark-marked [] m f = refl
mark-marked (item ∷ items) m f = refl

tested :
    (item : RuleItem) (m : InboundContext) (f : MatchFlags)
    → Plain item
    → item.matches (if item.is_rule_set then with_flags f m else set_did_match (with_flags f m))
      ≡ (test m item, with_flags (marked f) m)
tested item m f p =
    ap (λ b. item.matches (if b then with_flags f m else with_flags (marked f) m)) p.no_rule_set
    ∙ p.steady (with_flags (marked f) m)
    ∙ ap (λ t. (t, with_flags (marked f) m)) (p.flagless m (marked f))

pub match_all_lem :
    (items : List RuleItem) (m : InboundContext) (f : MatchFlags)
    → All Plain items
    → match_all items (with_flags f m) ≡ (all (test m) items, mark items (with_flags f m))
unfolding match_all
match_all_lem [] m f p = refl
match_all_lem (item ∷ items) m f p =
    ap (λ (r : Bool × InboundContext). if r.0 then match_all items r.1 else (false, r.1))
      (tested item m f p.0)
    ∙ after (Bool-cases (test m item)) (match_all_lem items m (marked f) p.1)
  where
    after :
        (test m item ≡ true) ⊎ (test m item ≡ false)
        → match_all items (with_flags (marked f) m)
          ≡ (all (test m) items, mark items (with_flags (marked f) m))
        → (if test m item
            then match_all items (with_flags (marked f) m)
            else (false, with_flags (marked f) m))
          ≡ (test m item && all (test m) items, with_flags (marked f) m)
    after (inl e) ih = rw e (ih ∙ ap (λ x. (all (test m) items, x)) (mark-marked items m f))
    after (inr e) ih = rw e
