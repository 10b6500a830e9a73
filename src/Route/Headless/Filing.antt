-- ===== src/Route/Headless/Filing.antt =====
-- Each block of NewDefaultHeadlessRule of route/rule_headless.go files its condition in its group.
use mathlib.Core.Path.{subst}
use mathlib.Core.List.{append-nil}
use sfa_provider.Prelude.{
  String, Option, none, some, Bool, true, false, List, [], ◌∷◌, ◌++◌, ◌&&◌, ◌≡◌, refl, sym, ap,
  is_empty, Result, ok, err, ◌>>=◌, if◌then◌else◌,
}
use sfa_provider.Srs.Wire.{IpSet}
use sfa_provider.Srs.Writing.{set_of}
use sfa_provider.Srs.Options.{DefaultOptions}
use sfa_provider.Route.Item.{RuleItem}
use sfa_provider.Route.Items.{port_range_item, domain_item, domain_regex_item, ip_cidr_item}
use sfa_provider.Route.DefaultRule.{DefaultRule}
use sfa_provider.Route.Builder.{
  Libraries, BuildError, building, add_item, add_source_address, add_source_port,
  add_destination_address, add_ip_cidr, add_destination_port, with_list, with_domain, compile_all,
  with_regex, with_cidr, parse_port_ranges, with_port_range, with_adguard,
}
use sfa_provider.Route.Headless.Described.{listed, domains, regexes, addresses, ranges, adguard}

-- The rule without the list of all conditions.
abbrev pub forget : DefaultRule → DefaultRule
forget r = record r { all_items = [] }

module _ (xs : List RuleItem) (r : DefaultRule) where
  abbrev pub put_item : DefaultRule
  put_item = record r { items = r.items ++ xs }

  abbrev pub put_source_address : DefaultRule
  put_source_address = record r { source_address_items = r.source_address_items ++ xs }

  abbrev pub put_source_port : DefaultRule
  put_source_port = record r { source_port_items = r.source_port_items ++ xs }

  abbrev pub put_destination_address : DefaultRule
  put_destination_address = record r {
    destination_address_items = r.destination_address_items ++ xs;
  }

  abbrev pub put_ip_cidr : DefaultRule
  put_ip_cidr = record r { destination_ip_cidr_items = r.destination_ip_cidr_items ++ xs }

  abbrev pub put_destination_port : DefaultRule
  put_destination_port = record r { destination_port_items = r.destination_port_items ++ xs }

-- The two calls of append file a condition in the group of `put`.
pub record Files (add : RuleItem → DefaultRule → DefaultRule)
    (put : List RuleItem → DefaultRule → DefaultRule) : Type 0 where
  pub one : (item : RuleItem) (r : DefaultRule) → forget (add item r) ≡ put (item ∷ []) (forget r)
  pub none_put : (r : DefaultRule) → r ≡ put [] r

pub item-Files : Files add_item put_item
item-Files = record {
  one = λ item r. refl;
  none_put = λ r. ap (λ xs. record r { items = xs }) (sym (append-nil r.items));
}

pub source_address-Files : Files add_source_address put_source_address
source_address-Files = record {
  one = λ item r. refl;
  none_put = λ r.
      ap (λ xs. record r { source_address_items = xs }) (sym (append-nil r.source_address_items));
}

pub source_port-Files : Files add_source_port put_source_port
source_port-Files = record {
  one = λ item r. refl;
  none_put =
      λ r. ap (λ xs. record r { source_port_items = xs }) (sym (append-nil r.source_port_items));
}

pub destination_address-Files : Files add_destination_address put_destination_address
destination_address-Files = record {
  one = λ item r. refl;
  none_put = λ r.
      ap (λ xs. record r { destination_address_items = xs })
        (sym (append-nil r.destination_address_items));
}

pub ip_cidr-Files : Files add_ip_cidr put_ip_cidr
ip_cidr-Files = record {
  one = λ item r. refl;
  none_put = λ r.
      ap (λ xs. record r { destination_ip_cidr_items = xs })
        (sym (append-nil r.destination_ip_cidr_items));
}

pub destination_port-Files : Files add_destination_port put_destination_port
destination_port-Files = record {
  one = λ item r. refl;
  none_put = λ r.
      ap (λ xs. record r { destination_port_items = xs })
        (sym (append-nil r.destination_port_items));
}

-- The result of a builder, without the lists of all conditions, is this one.
abbrev pub Follows : Result BuildError DefaultRule → Result BuildError DefaultRule → Type 0
Follows x y = (x >>= λ r. ok (forget r)) ≡ y

pub then-Follows :
    (x y : Result BuildError DefaultRule) (f g : DefaultRule → Result BuildError DefaultRule)
    → Follows x y
    → ((r : DefaultRule) → Follows (f r) (g (forget r)))
    → Follows (x >>= f) (y >>= g)
then-Follows (ok r) y f g h k = subst (λ z. Follows (f r) (z >>= g)) h (k r)
then-Follows (err e) y f g h k = subst (λ z. Follows (err e) (z >>= g)) h refl

module _ {M A R : Type 0} (l : Libraries M A R) where
  module _ (add : RuleItem → DefaultRule → DefaultRule)
      (put : List RuleItem → DefaultRule → DefaultRule) (files : Files add put) where
    pub with_list-files :
        {V : Type 0} (values : List V) (item : List V → RuleItem) (r : DefaultRule)
        → forget (with_list l values item add r) ≡ put (listed values item) (forget r)
    with_list-files [] item r = files.none_put (forget r)
    with_list-files (v ∷ vs) item r = files.one (item (v ∷ vs)) r

    made-Follows :
        {V : Type 0} (x : Result BuildError V) (item : V → RuleItem) (r : DefaultRule)
        → Follows
            (x >>= λ v. ok (add (item v) r))
            ((x >>= λ v. ok (item v ∷ [])) >>= λ xs. ok (put xs (forget r)))
    made-Follows (ok v) item r = ap ok (files.one (item v) r)
    made-Follows (err e) item r = refl

    pub with_cidr-Follows :
        (is_source : Bool) (values : List String) (o : Option (IpSet R)) (r : DefaultRule)
        → Follows
            (with_cidr l is_source add values o r)
            (addresses l is_source values o >>= λ xs. ok (put xs (forget r)))
    unfolding with_cidr
    with_cidr-Follows is_source [] none r = ap ok (files.none_put (forget r))
    with_cidr-Follows is_source [] (some set) r =
        ap ok (files.one (ip_cidr_item is_source (l.in_set set)) r)
    with_cidr-Follows is_source (v ∷ vs) o r =
        made-Follows (building (set_of l.wire (v ∷ vs)))
          (λ set. ip_cidr_item is_source (l.in_set set)) r

    pub with_port_range-Follows :
        (is_source : Bool) (values : List String) (r : DefaultRule)
        → Follows
            (with_port_range l is_source add values r)
            (ranges l is_source values >>= λ xs. ok (put xs (forget r)))
    unfolding with_port_range
    with_port_range-Follows is_source [] r = ap ok (files.none_put (forget r))
    with_port_range-Follows is_source (s ∷ ss) r =
        made-Follows (parse_port_ranges l (s ∷ ss)) (port_range_item is_source) r

  pub with_regex-Follows :
      (values : List String) (r : DefaultRule)
      → Follows
          (with_regex l values r)
          (regexes l values >>= λ xs. ok (put_destination_address xs (forget r)))
  unfolding with_regex
  with_regex-Follows [] r = ap ok (destination_address-Files.none_put (forget r))
  with_regex-Follows (e ∷ es) r =
      made-Follows add_destination_address put_destination_address destination_address-Files
        (compile_all l (e ∷ es)) (domain_regex_item l.to_lower) r

  pub with_domain-files :
      (o : DefaultOptions M A R) (r : DefaultRule)
      → forget (with_domain l o.domain o.domain_suffix o.domain_matcher r)
        ≡ put_destination_address (domains l o) (forget r)
  unfolding with_domain
  with_domain-files o r = at (is_empty o.domain && is_empty o.domain_suffix) o.domain_matcher
    where
      item : RuleItem
      item = domain_item l.to_lower (l.matches (l.wire.new_matcher o.domain o.domain_suffix false))

      at :
          (b : Bool) (matcher : Option M)
          → forget (
              if b
              then elim matcher [
                | none ↦ r
                | some m ↦ add_destination_address (domain_item l.to_lower (l.matches m)) r
              ]
              else add_destination_address item r)
            ≡ put_destination_address
                (if b
                  then elim matcher [
                    | none ↦ []
                    | some m ↦ domain_item l.to_lower (l.matches m) ∷ []
                  ]
                  else item ∷ [])
                (forget r)
      at true none = destination_address-Files.none_put (forget r)
      at true (some m) = refl
      at false matcher = refl

  pub with_adguard-files :
      (values : List String) (o : Option A) (r : DefaultRule)
      → forget (with_adguard l values o r) ≡ put_destination_address (adguard l values o) (forget r)
  unfolding with_adguard
  with_adguard-files [] none r = destination_address-Files.none_put (forget r)
  with_adguard-files [] (some m) r = refl
  with_adguard-files (d ∷ ds) o r = refl
