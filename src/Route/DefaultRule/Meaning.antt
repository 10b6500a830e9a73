-- ===== src/Route/DefaultRule/Meaning.antt =====
-- What a default rule of plain conditions means, as a formula over the answers of its conditions.
use sfa_provider.Prelude.{
  Bool, true, false, not, List, [], ◌∷◌, ◌&&◌, ◌||◌, ◌≡◌, refl, is_empty, any, All, if◌then◌else◌,
  arith, ◌∙◌, ap, sym,
}
use sfa_provider.Route.Context.{InboundContext, MatchFlags, no_flags, with_flags}
use sfa_provider.Route.Item.{RuleItem, Plain, test, match_any_lem, marked}
use sfa_provider.Route.DefaultRule.{
  DefaultRule, try_group, try_groups, try_source_address, try_source_port, try_destination_address,
  try_destination_ip_cidr, try_destination_port,
}

abbrev pub nonempty : List RuleItem → Bool
nonempty items = not (is_empty items)

try_group_lem :
    (active : Bool) (g : MatchFlags → MatchFlags) (items : List RuleItem) (m : InboundContext)
    (f : MatchFlags)
    → All Plain items
    → try_group active (λ x. with_flags (g x.flags) x) items (with_flags f m)
      ≡ with_flags (if active then (if any (test m) items then g (marked f) else marked f) else f) m
unfolding try_group
try_group_lem active g items m f p = ground (arith, match_any_lem items m (marked f) p)

abbrev marks : MatchFlags → Bool → MatchFlags
marks f b = record f { did_match = f.did_match || b }

marks-false : (f : MatchFlags) → marks f false ≡ f
marks-false f = ground arith

marks-true : (f : MatchFlags) → marks f true ≡ marked f
marks-true f = ground arith

-- One block with its own flag, which `put` writes, where the flag is not set yet.
group_step :
    (put : Bool → MatchFlags → MatchFlags) (fresh : Bool) (items : List RuleItem)
    (m : InboundContext) (f : MatchFlags)
    → put false f ≡ f
    → put false (marked f) ≡ marked f
    → fresh ≡ true
    → All Plain items
    → try_group
        (nonempty items && fresh)
        (λ x. with_flags (put true x.flags) x)
        items
        (with_flags f m)
      ≡ with_flags (put (any (test m) items) (marks f (nonempty items))) m
group_step put fresh [] m f unset unset' e p =
    try_group_lem false (put true) [] m f p
    ∙ ap (λ g. with_flags g m) (sym unset ∙ ap (put false) (sym (marks-false f)))
group_step put fresh (x ∷ xs) m f unset unset' e p =
    try_group_lem _ (put true) (x ∷ xs) m f p
    ∙ ap (λ g. with_flags g m) (rw (e, marks-true f) (flags (any (test m) (x ∷ xs))))
  where
    flags : (b : Bool) → (if b then put true (marked f) else marked f) ≡ put b (marked f)
    flags true = refl
    flags false = sym unset'

-- The flags after the block of the IP ranges.
ip_cidr_flags :
    (t : RuleItem → Bool) (items : List RuleItem) (counts : Bool) (f : MatchFlags)
    → (if counts && nonempty items && not f.destination_address_match
        then (if any t items
            then record f { destination_address_match = true; did_match = true }
            else marked f)
        else f)
      ≡ record (marks f (counts && nonempty items && not f.destination_address_match)) {
        destination_address_match = f.destination_address_match || (counts && any t items);
      }
ip_cidr_flags t [] counts f = ground arith
ip_cidr_flags t (x ∷ xs) counts f = ground arith

-- Every condition of the rule is plain.
pub record PlainRule (r : DefaultRule) : Type 0 where
  pub items : All Plain r.items
  pub source_address : All Plain r.source_address_items
  pub source_port : All Plain r.source_port_items
  pub destination_address : All Plain r.destination_address_items
  pub ip_cidr : All Plain r.destination_ip_cidr_items
  pub destination_port : All Plain r.destination_port_items

module _ (r : DefaultRule) (m : InboundContext) where
  -- The IP ranges count, unless the metadata says to ignore them.
  abbrev pub ip_cidr_counts : Bool
  ip_cidr_counts = not m.ignore_destination_ip_cidr_match

  abbrev pub destination_hit : Bool
  destination_hit =
      any (test m) r.destination_address_items
      || (ip_cidr_counts && any (test m) r.destination_ip_cidr_items)

  -- The flags after the five blocks, from a reset cache.
  abbrev pub tried : MatchFlags
  tried = record {
    source_address_match = any (test m) r.source_address_items;
    source_port_match = any (test m) r.source_port_items;
    destination_address_match = destination_hit;
    destination_port_match = any (test m) r.destination_port_items;
    did_match =
        (((nonempty r.source_address_items || nonempty r.source_port_items)
            || nonempty r.destination_address_items)
          || (ip_cidr_counts
              && nonempty r.destination_ip_cidr_items
              && not (any (test m) r.destination_address_items)))
        || nonempty r.destination_port_items;
  }

  -- The flags after each block.
  abbrev after_source_address : MatchFlags
  after_source_address = record (marks no_flags (nonempty r.source_address_items)) {
    source_address_match = any (test m) r.source_address_items;
  }

  abbrev after_source_port : MatchFlags
  after_source_port = record (marks after_source_address (nonempty r.source_port_items)) {
    source_port_match = any (test m) r.source_port_items;
  }

  abbrev after_destination_address : MatchFlags
  after_destination_address =
      record (marks after_source_port (nonempty r.destination_address_items)) {
        destination_address_match = any (test m) r.destination_address_items;
      }

  source_address_step :
      PlainRule r → try_source_address r (with_flags no_flags m) ≡ with_flags after_source_address m
  unfolding try_source_address
  source_address_step p =
      group_step (λ b g. record g { source_address_match = b }) true r.source_address_items m
        no_flags refl refl refl p.source_address

  source_port_step :
      PlainRule r
      → try_source_port r (with_flags after_source_address m) ≡ with_flags after_source_port m
  unfolding try_source_port
  source_port_step p =
      group_step (λ b g. record g { source_port_match = b }) true r.source_port_items m
        after_source_address refl refl refl p.source_port

  destination_address_step :
      PlainRule r
      → try_destination_address r (with_flags after_source_port m)
        ≡ with_flags after_destination_address m
  unfolding try_destination_address
  destination_address_step p =
      group_step (λ b g. record g { destination_address_match = b }) true
        r.destination_address_items m after_source_port refl refl refl p.destination_address

  abbrev ip_cidr_tried : Bool
  ip_cidr_tried =
      ip_cidr_counts
      && nonempty r.destination_ip_cidr_items
      && not (any (test m) r.destination_address_items)

  abbrev after_ip_cidr : MatchFlags
  after_ip_cidr = record (marks after_destination_address ip_cidr_tried) {
    destination_address_match = destination_hit;
  }

  ip_cidr_step :
      PlainRule r
      → try_destination_ip_cidr r (with_flags after_destination_address m)
        ≡ with_flags after_ip_cidr m
  unfolding try_destination_ip_cidr
  ip_cidr_step p =
      try_group_lem ip_cidr_tried (λ g. record g { destination_address_match = true })
        r.destination_ip_cidr_items m after_destination_address p.ip_cidr
      ∙ ap (λ g. with_flags g m)
          (ip_cidr_flags (test m) r.destination_ip_cidr_items ip_cidr_counts
            after_destination_address)

  destination_port_step :
      PlainRule r → try_destination_port r (with_flags after_ip_cidr m) ≡ with_flags tried m
  unfolding try_destination_port
  destination_port_step p =
      group_step (λ b g. record g { destination_port_match = b }) true r.destination_port_items m
        after_ip_cidr refl refl refl p.destination_port

  pub try_groups_lem : PlainRule r → try_groups r (with_flags no_flags m) ≡ with_flags tried m
  unfolding try_groups
  try_groups_lem p =
      ap
        (λ x.
          try_destination_port r
            (try_destination_ip_cidr r (try_destination_address r (try_source_port r x))))
        (source_address_step p)
      ∙ ap (λ x. try_destination_port r (try_destination_ip_cidr r (try_destination_address r x)))
          (source_port_step p)
      ∙ ap (λ x. try_destination_port r (try_destination_ip_cidr r x)) (destination_address_step p)
      ∙ ap (try_destination_port r) (ip_cidr_step p)
      ∙ destination_port_step p
