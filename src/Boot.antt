-- ===== src/Boot.antt =====
-- The start of the outbounds (box_outbound.go). The two loops that have
-- no bound recur on fuel; `stuck` is no error of the source but the end of the fuel.
pub mod Counting
pub mod Numbers
pub mod Tags
pub mod Order
pub mod Round
pub mod Reasons
pub mod Lint
pub mod Loop
pub mod Acyclic
pub mod Tests
use sfa_provider.Prelude.{
  ℕ, zero, suc, String, Option, none, some, Bool, true, false, not, List, [], ◌∷◌, ◌++◌, ◌&&◌, ◌==◌,
  string_key, Map, empty_map, insert, Result, ok, err, ◌>>=◌, length, any, all, nat_eq,
  if◌then◌else◌, ◌+◌,
}

-- adapter.Outbound as it is started: `starts` is the error of its Start, where it has one.
pub record Outbound : Type 0 where
  pub tag : String
  pub dependencies : List String
  pub starts : Option String

pub data StartError : Type 0 where
  duplicated : String → StartError
  start_failed : String → String → StartError
  circular : List String → String → StartError
  not_found : String → String → StartError
  stuck : StartError

abbrev pub contains : List String → String → Bool
contains tags tag = any (λ t. t == tag) tags

-- outbounds[tag]
abbrev pub by_tag : List Outbound → String → Option Outbound
by_tag [] tag = none
by_tag (o ∷ outbounds) tag = if o.tag == tag then some o else by_tag outbounds tag

-- The first loop of startOutbounds, which gives a tag to those that have none; `itoa` is
-- F.ToString. `seen` are the keys of the map `outbounds`, and the list returned is its values.
unfoldable pub assign_tags :
    (ℕ → String) → ℕ → List String → List Outbound → Result StartError (List Outbound)
assign_tags itoa i seen [] = ok []
assign_tags itoa i seen (o ∷ outbounds) =
    let tag = if o.tag == "" then itoa i else o.tag in
    let rest = assign_tags itoa (suc i) (tag ∷ seen) outbounds in
    if contains seen tag
    then err (duplicated tag)
    else (rest >>= λ os. ok (record o { tag = tag } ∷ os))

-- Not started, and with no dependency that is not.
abbrev pub is_ready : List String → Outbound → Bool
is_ready started o = not (contains started o.tag) && all (contains started) o.dependencies

-- The loop startOne: `started` holds the keys of the map, the last one first, and `go_on` is
-- canContinue.
unfoldable pub start_round :
    List Outbound → List String → Bool → Result StartError (List String × Bool)
start_round [] started go_on = ok (started, go_on)
start_round (o ∷ outbounds) started go_on = elim (is_ready started o) [
  | false ↦ start_round outbounds started go_on
  | true ↦ elim o.starts [
    | some e ↦ err (start_failed o.tag e)
    | none ↦ start_round outbounds (o.tag ∷ started) true
  ]
]

-- common.Find for a tag that is not started, or else the zero value.
abbrev pub find_problem : List String → List String → String
find_problem started [] = ""
find_problem started (tag ∷ tags) =
    if not (contains started tag) then tag else find_problem started tags

-- lintOutbound: why an outbound cannot be started. It always ends in an error.
unfoldable pub lint_outbound : List Outbound → List String → ℕ → List String → Outbound → StartError
lint_outbound outbounds started zero tree current = stuck
lint_outbound outbounds started (suc fuel) tree current =
    let problem = find_problem started current.dependencies in
    elim (contains tree problem) [
      | true ↦ circular tree problem
      | false ↦ elim (by_tag outbounds problem) [
        | none ↦ not_found problem current.tag
        | some outbound ↦ lint_outbound outbounds started fuel (tree ++ problem ∷ []) outbound
      ]
    ]

-- common.Find for an outbound that is not started.
abbrev pub find_current : List String → List Outbound → Option Outbound
find_current started [] = none
find_current started (o ∷ outbounds) =
    if not (contains started o.tag) then some o else find_current started outbounds

-- The end of the outer loop, where nothing could be started. With no outbound left the source would
-- use a nil interface.
unfoldable pub lint : List Outbound → List String → StartError
lint outbounds started = elim (find_current started outbounds) [
  | none ↦ stuck
  | some current ↦
      lint_outbound outbounds started (suc (length outbounds)) (current.tag ∷ []) current
]

-- The end of the body of the outer loop: `again` is its next iteration.
abbrev pub after_round :
    List Outbound
    → (List String → Result StartError (List String))
    → List String × Bool
    → Result StartError (List String)
after_round outbounds again (started, go_on) =
    if nat_eq (length started) (length outbounds)
    then ok started
    else if go_on
    then again started
    else err (lint outbounds started)

-- The outer loop of startOutbounds.
unfoldable pub start_loop : List Outbound → ℕ → List String → Result StartError (List String)
start_loop outbounds zero started = err stuck
start_loop outbounds (suc fuel) started =
    start_round outbounds started false >>= after_round outbounds (start_loop outbounds fuel)

-- adapter.OutboundProvider: `outbound_by_tag` is what UpdateOutboundByTag makes of the outbounds.
pub record Provider : Type 0 where
  pub tag : String
  pub outbounds : List Outbound
  pub outbound_by_tag : Map String Outbound

-- How names are made of a tag and a number: F.ToString, fmt.Sprint of the tag of a provider and the
-- position in it, and of a tag and a count.
pub record Names : Type 0 where
  pub itoa : ℕ → String
  pub placed : String → ℕ → String
  pub numbered : String → ℕ → String

-- The tag of an outbound of a provider that has the tag `tag`, and outboundTag with it; `count` is
-- what outboundTag has for the tag.
abbrev pub count_tag : Names → Map String ℕ → String → Option ℕ → String × Map String ℕ
count_tag names counts tag none = (tag, insert tag 0 counts)
count_tag names counts tag (some n) =
    let count = suc n in
    let new = names.numbered tag count in (new, insert new 0 (insert new count counts))

abbrev pub take_tag : Names → Map String ℕ → String → String × Map String ℕ
take_tag names counts tag = count_tag names counts tag (counts tag)

-- The inner loop of startProviderOutbounds: the outbounds from position `j` on.
unfoldable pub start_members :
    Names
    → String
    → ℕ
    → Map String ℕ
    → List Outbound
    → Result StartError (List Outbound × Map String ℕ)
start_members names provider j counts [] = ok ([], counts)
start_members names provider j counts (o ∷ outbounds) =
    let taken = take_tag names counts (if o.tag == "" then names.placed provider j else o.tag) in
    let rest = start_members names provider (suc j) taken.1 outbounds in
    elim o.starts [
      | some e ↦ err (start_failed taken.0 e)
      | none ↦ rest >>= λ r. ok (record o { tag = taken.0 } ∷ r.0, r.1)
    ]

-- UpdateOutboundByTag of provider/default.go: the last outbound with a tag wins.
unfoldable pub update_outbound_by_tag : List Outbound → Map String Outbound → Map String Outbound
update_outbound_by_tag [] outbound_by_tag = outbound_by_tag
update_outbound_by_tag (o ∷ outbounds) outbound_by_tag =
    update_outbound_by_tag outbounds (insert o.tag o outbound_by_tag)

-- The outer loop of startProviderOutbounds: the providers from position `i` on.
unfoldable pub start_providers :
    Names → ℕ → Map String ℕ → List Provider → Result StartError (List Provider)
start_providers names i counts [] = ok []
start_providers names i counts (p ∷ providers) =
    start_members names (if p.tag == "" then names.itoa i else p.tag) 0 counts p.outbounds >>= λ r.
    start_providers names (suc i) r.1 providers >>= λ ps.
    ok (record p { outbounds = r.0; outbound_by_tag = update_outbound_by_tag r.0 empty_map } ∷ ps)

-- outboundTag with the tags of the outbounds of the box.
abbrev pub zero_counts : List Outbound → Map String ℕ
zero_counts [] = empty_map
zero_counts (o ∷ outbounds) = insert o.tag 0 (zero_counts outbounds)

-- startOutbounds after startProviderOutbounds, whose error is dropped with the outbounds unstarted.
abbrev pub after_providers :
    List Outbound → Result StartError (List Provider) → Result StartError (List String)
after_providers outbounds (err e) = ok []
after_providers outbounds (ok providers) = start_loop outbounds (suc (length outbounds)) []

-- startOutbounds: the tags that were started, the last one first.
unfoldable pub start_outbounds :
    Names → List Provider → List Outbound → Result StartError (List String)
start_outbounds names providers outbounds = assign_tags names.itoa 0 [] outbounds >>= λ os.
    after_providers os (start_providers names 0 (zero_counts os) providers)
