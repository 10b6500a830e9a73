-- ===== src/Boot/Tests.antt =====
-- The start of a few outbounds (box_outbound.go).
use mathlib.Core.List.{Memᴰ}
use mathlib.Core.Path.{subst}
use text.Mathlib.TextEquality.{eq_iff}
use sfa_provider.Prelude.{
  ℕ, ◌<◌, String, none, some, true, false, sym, Bool-cases, inl, inr, List, [], ◌∷◌, ◌==◌,
  string_key, ◌≡◌, refl, length, empty_map, nat_eq, if◌then◌else◌, arith, ok, err,
}
use sfa_provider.Boot.{
  Outbound, duplicated, start_failed, circular, not_found, contains, assign_tags, start_round,
  start_loop, lint, lint_outbound, start_outbounds, Names, Provider, zero_counts, start_members,
  start_providers, update_outbound_by_tag,
}
use sfa_provider.Boot.Counting.{has_no}
use sfa_provider.Boot.Numbers.{each_renamed, same_number}
use sfa_provider.Boot.Order.{Order}
use sfa_provider.Boot.Loop.{IsRight, start_outbounds-IsRight}
use sfa_provider.Boot.Acyclic.{IsRanked, AllStart, start_outbounds_complete}

-- The names that these outbounds need.
abbrev names : Names
names = record {
  itoa = λ n. "1";
  placed = λ provider j. "[1]0";
  numbered = λ tag n. if nat_eq n 1 then "relay[1]" else "relay[2]";
}

-- A group, a member of it without a tag, and another that is reached through that member.
abbrev group : List String → Outbound
group members = record { tag = "select"; dependencies = members; starts = none }

abbrev member : String → Outbound
member tag = record { tag = tag; dependencies = "relay" ∷ []; starts = none }

abbrev relay : List String → Outbound
relay through = record { tag = "relay"; dependencies = through; starts = none }

abbrev outbounds : List Outbound
outbounds = group ("1" ∷ "relay" ∷ []) ∷ member "" ∷ relay [] ∷ []

abbrev tagged : List Outbound
tagged = group ("1" ∷ "relay" ∷ []) ∷ member "1" ∷ relay [] ∷ []

-- A provider that has the tag of an outbound of the box twice.
abbrev provider : Provider
provider = record {
  tag = "sub";
  outbounds = relay [] ∷ relay ("1" ∷ []) ∷ [];
  outbound_by_tag = empty_map;
}

abbrev providers : List Provider
providers = provider ∷ []

abbrev tagged_twice : List Outbound
tagged_twice =
    record (relay []) { tag = "relay[1]" } ∷ record (relay ("1" ∷ [])) { tag = "relay[1]" } ∷ []

abbrev provided : List Provider
provided =
    record {
      tag = "sub";
      outbounds = tagged_twice;
      outbound_by_tag = update_outbound_by_tag tagged_twice empty_map;
    }
    ∷ []

providers_started : start_providers names 0 (zero_counts tagged) providers ≡ ok provided
unfolding start_providers start_members
providers_started = refl

-- Two providers that have the tag of an outbound of the box, one of them twice with another outbound
-- between.
abbrev mixed : List Provider
mixed =
    record {
      tag = "sub";
      outbounds = relay [] ∷ member "near" ∷ relay ("1" ∷ []) ∷ [];
      outbound_by_tag = empty_map;
    }
    ∷ record { tag = ""; outbounds = relay [] ∷ []; outbound_by_tag = empty_map }
    ∷ []

abbrev numbered_relay : List String → Outbound
numbered_relay through = record (relay through) { tag = "relay[1]" }

abbrev settled : String → List Outbound → Provider
settled tag os = record {
  tag = tag;
  outbounds = os;
  outbound_by_tag = update_outbound_by_tag os empty_map;
}

abbrev mixed_started : List Provider
mixed_started =
    settled "sub" (numbered_relay [] ∷ member "near" ∷ numbered_relay ("1" ∷ []) ∷ [])
    ∷ settled "" (numbered_relay [] ∷ [])
    ∷ []

mixed_starts : start_providers names 0 (zero_counts tagged) mixed ≡ ok mixed_started
unfolding start_providers start_members
mixed_starts = refl

same_number_example : each_renamed "relay" (names.numbered "relay" 1) mixed mixed_started ≡ true
same_number_example =
    same_number names "relay" refl (zero_counts tagged) mixed mixed_started refl mixed_starts

outbounds_tagged : assign_tags names.itoa 0 [] outbounds ≡ ok tagged
unfolding assign_tags
outbounds_tagged = refl

started_in_order : start_outbounds names providers outbounds ≡ ok ("select" ∷ "1" ∷ "relay" ∷ [])
unfolding start_outbounds assign_tags start_providers start_members update_outbound_by_tag
    start_loop start_round
started_in_order = refl

circle_found :
    start_outbounds names providers (group ("1" ∷ []) ∷ member "" ∷ relay ("1" ∷ []) ∷ [])
    ≡ err (circular ("select" ∷ "1" ∷ "relay" ∷ []) "1")
unfolding start_outbounds assign_tags start_providers start_members update_outbound_by_tag
    start_loop start_round lint lint_outbound
circle_found = refl

missing_found :
    start_outbounds names providers (group ("gone" ∷ []) ∷ relay [] ∷ [])
    ≡ err (not_found "gone" "select")
unfolding start_outbounds assign_tags start_providers start_members update_outbound_by_tag
    start_loop start_round lint lint_outbound
missing_found = refl

same_tag_found :
    start_outbounds names providers (relay [] ∷ group [] ∷ relay [] ∷ []) ≡ err (duplicated "relay")
unfolding start_outbounds assign_tags start_providers start_members update_outbound_by_tag
same_tag_found = refl

-- A provider one of whose outbounds does not start.
abbrev broken : Provider
broken = record {
  tag = "";
  outbounds = record { tag = ""; dependencies = []; starts = some "no route" } ∷ [];
  outbound_by_tag = empty_map;
}

broken_fails :
    start_providers names 0 (zero_counts tagged) (broken ∷ [])
    ≡ err (start_failed "[1]0" "no route")
unfolding start_providers start_members
broken_fails = refl

-- The error of a provider's outbound is lost, and nothing is started.
nothing_started : start_outbounds names (broken ∷ []) outbounds ≡ ok []
unfolding start_outbounds assign_tags start_providers start_members
nothing_started = refl

start_outbounds-IsRight_example : IsRight tagged (start_outbounds names providers outbounds)
start_outbounds-IsRight_example =
    start_outbounds-IsRight names providers provided outbounds tagged outbounds_tagged
      providers_started

abbrev rank : String → ℕ
rank tag = if tag == "select" then 2 else if tag == "1" then 1 else 0

each :
    (P : Outbound → Type 0)
    → P (group ("1" ∷ "relay" ∷ []))
    → P (member "1")
    → P (relay [])
    → (o : Outbound) → Memᴰ o tagged
    → P o
each P a b c o (Memᴰ.head e) = subst P (sym e) a
each P a b c o (Memᴰ.tail (Memᴰ.head e)) = subst P (sym e) b
each P a b c o (Memᴰ.tail (Memᴰ.tail (Memᴰ.head e))) = subst P (sym e) c
each P a b c o (Memᴰ.tail (Memᴰ.tail (Memᴰ.tail m))) = elim m [ ]

abbrev AllBelow : ℕ → List String → Type 0
AllBelow n [] = Unit
AllBelow n (tag ∷ tags) = (rank tag < n) × AllBelow n tags

below :
    (n : ℕ) (tags : List String)
    → AllBelow n tags
    → (d : String) → contains tags d ≡ true
    → rank d < n
below n [] all_below d h = ground (arith)
below n (tag ∷ tags) (low, lows) d h = elim (Bool-cases (tag == d)) [
  | inl e ↦ subst (λ x. rank x < n) ((eq_iff tag d).0 e) low
  | inr e ↦ below n tags lows d (ground (arith))
]

tagged-IsRanked : IsRanked tagged rank
tagged-IsRanked = record {
  exists = λ o d m.
      each (λ x. contains x.dependencies d ≡ true → has_no d tagged ≡ false) (λ h. ground (arith))
        (λ h. ground (arith)) (λ h. ground (arith)) o m;
  earlier = λ o d m.
      each (λ x. contains x.dependencies d ≡ true → rank d < rank x.tag)
        (below 2 ("1" ∷ "relay" ∷ []) (omega arith, (omega arith, tt)) d)
        (below 1 ("relay" ∷ []) (omega arith, tt) d) (λ h. ground (arith)) o m;
}

tagged-AllStart : AllStart tagged
tagged-AllStart o m = each (λ x. x.starts ≡ none) refl refl refl o m

start_outbounds_complete_example :
    (started : List String) × (start_outbounds names providers outbounds ≡ ok started)
    × Order tagged started
    × (length started ≡ length tagged)
start_outbounds_complete_example =
    start_outbounds_complete names providers provided outbounds tagged rank outbounds_tagged
      providers_started tagged-IsRanked tagged-AllStart
