-- ===== src/Provider/Tests.antt =====
-- Updates of a small provider (provider/default.go).
use Prim.Native.String.{count}
use Prim.Native.String.count
use Prim.Native.String
use text.Mathlib.TextLemmas.{length-append}
use text.Mathlib.TextEquality.{eq_iff}
use native.Mathlib.Decide.{ℕ_discrete}
use sfa_provider.Prelude.{
  ℕ, zero, suc, String, none, some, Bool, true, false, List, [], ◌∷◌, ◌==◌, string_key, ℕ_key,
  Comparable, empty_map, insert, ok, err, ◌≡◌, refl, sym, ap, ◌∙◌, if◌then◌else◌, arith, ◌↔◌,
  Bool-cases, inl, inr,
}
use sfa_provider.Boot.{Outbound, Names, update_outbound_by_tag}
use sfa_provider.Provider.{DialerOptions, Options, Filters, ProviderAdapter, check_type}
use sfa_provider.Provider.Start.{free_tag, claim_tag, start_from, start_outbounds}
use sfa_provider.Provider.Start.Free.{IsInjective}
use sfa_provider.Provider.Update.{
  Sources, Groups, Updated, create_outbounds, out_map, check_change, update_groups,
  update_provider_from_content,
}
use sfa_provider.Provider.Update.Rollback.{KeepsTags, options_named, IsOutcome, update-IsOutcome}
use sfa_provider.Provider.Update.Retry.{same_content_ignored}

-- A number as so many strokes.
abbrev strokes : ℕ → String
strokes zero = ""
strokes (suc n) = Prim.Native.String.◌∷◌ "i" (strokes n)

count-strokes : (n : ℕ) → count (strokes n) ≡ n
count-strokes zero = refl
count-strokes (suc n) = count.cons _ (strokes n) ∙ ap suc (count-strokes n)

abbrev pub names : Names
names = record {
  itoa = strokes;
  placed = λ provider j. provider;
  numbered = λ tag n. Prim.Native.String.◌++◌ tag (strokes n);
}

names-IsInjective : IsInjective names
names-IsInjective tag i j e =
    let lengths =
      sym (length-append tag (strokes i)) ∙ ap count e ∙ length-append tag (strokes j) in
    omega (arith, lengths, count-strokes i, count-strokes j)

abbrev String-discrete : Discrete String
String-discrete s t = elim (Bool-cases (s == t)) [
  | inl e ↦ yes ((eq_iff s t).0 e)
  | inr e ↦ no (λ same. absurd (ground (arith, (eq_iff s t).1 same)))
]

abbrev DialerOptions-discrete : Discrete DialerOptions
DialerOptions-discrete = hlevel (ℕ_discrete, String-discrete)

abbrev Options-discrete : Discrete Options
Options-discrete = hlevel (ℕ_discrete, String-discrete, DialerOptions-discrete)

abbrev equal_options : Options → Options → Bool
equal_options o p = elim (Options-discrete o p) [ yes e ↦ true | no n ↦ false ]

pub equal_options_iff : (o p : Options) → (equal_options o p ≡ true) ↔ (o ≡ p)
equal_options_iff o p = at (Options-discrete o p)
  where
    at :
        (d : Dec (o ≡ p))
        → ((elim d as (λ x. Bool) [ yes e ↦ true | no n ↦ false ]) ≡ true) ↔ (o ≡ p)
    at (yes e) = (λ h. e, λ h. refl)
    at (no n) = (λ h. absurd (ground (arith)), λ e. absurd (n e))

instance abbrev pub options_key : Comparable Options
options_key = record { equal = equal_options; equal_iff = equal_options_iff }

abbrev plain_dialer : DialerOptions
plain_dialer = record {
  detour = "";
  bind_interface = "";
  inet4_bind_address = none;
  inet6_bind_address = none;
  server_addresses = [];
  protect_path = "";
  routing_mark = 0;
  reuse_addr = false;
  connect_timeout = 0;
  tcp_fast_open = false;
  tcp_multi_path = false;
  udp_fragment = some true;
  udp_fragment_default = false;
  domain_strategy = "ipv4_only";
  fallback_delay = 0;
  store_last_ip = false;
  is_wire_guard_listener = false;
}

abbrev relay : String → String → Options
relay tag type_name = record {
  tag = tag;
  type_name = type_name;
  port = 443;
  dialer = plain_dialer;
  body = "server";
}

-- A subscription of three outbounds, of which the first is taken.
abbrev pub subscription : List Options
subscription = relay "a" "trojan" ∷ relay "b" "direct" ∷ relay "c" "trojan" ∷ []

abbrev pub sources : Sources
sources = record {
  decode = λ content. content;
  new_parser = λ content. if content == "" then err "empty" else ok subscription;
  new_outbound = λ o. some record { tag = o.tag; dependencies = []; starts = none };
}

abbrev pub filters : Filters
filters = record {
  includes = [];
  excludes = some (λ tag. tag == "c");
  types = "trojan" ∷ "direct" ∷ [];
  ports = 443 ∷ [];
}

abbrev old : Outbound
old = record { tag = "old"; dependencies = []; starts = none }

abbrev pub provider : ProviderAdapter
provider = record {
  tag = "sub";
  outbounds = old ∷ [];
  outbound_by_tag = insert "old" old empty_map;
  last_outs = relay "old" "trojan" ∷ [];
}

-- A group as how often it was updated, where 0 stands for a group that fails.
abbrev pub counters : Groups ℕ
counters = record {
  update_outbounds =
      λ tag outbounds n. if n == 0 then (n, some "default outbound") else (suc n, none);
}

types_known : check_type filters.types ≡ false
types_known = refl

sources-KeepsTags : KeepsTags sources
sources-KeepsTags o out e =
    let same : record { tag = o.tag; dependencies = []; starts = none } ≡ out = cc in
    ap (λ x. x.tag) (sym same)

subscription_named :
    (outbounds : List Options)
    → sources.new_parser (sources.decode "links") ≡ ok outbounds
    → options_named outbounds ≡ true
subscription_named outbounds e =
    let same : subscription ≡ outbounds = cc in ap options_named (sym same)

abbrev update_with : List ℕ → ProviderAdapter → Updated ℕ
update_with groups p =
    update_provider_from_content names counters sources filters ("a" ∷ []) groups p "links"

updates :
    ((update_with (1 ∷ 4 ∷ []) provider).outcome ≡ ok true)
    × ((update_with (1 ∷ 4 ∷ []) provider).groups ≡ 2 ∷ 5 ∷ [])
    × ((update_with (1 ∷ 4 ∷ []) provider).provider.outbounds ≡ record old { tag = "ai" } ∷ [])
unfolding update_provider_from_content check_change out_map create_outbounds start_outbounds
    start_from claim_tag free_tag update_groups update_outbound_by_tag
updates = (refl, refl, refl)

-- The second group fails: the first one keeps the outbounds, which are closed.
group_fails :
    ((update_with (1 ∷ 0 ∷ []) provider).groups ≡ 2 ∷ 0 ∷ [])
    × ((update_with (1 ∷ 0 ∷ []) provider).closed ≡ record old { tag = "ai" } ∷ [])
    × ((update_with (1 ∷ 0 ∷ []) provider).provider.outbounds ≡ old ∷ [])
unfolding update_provider_from_content check_change out_map create_outbounds start_outbounds
    start_from claim_tag free_tag update_groups update_outbound_by_tag
group_fails = (refl, refl, refl)

update-IsOutcome_example :
    let u = update_with (1 ∷ 0 ∷ []) provider in
    IsOutcome ("a" ∷ []) provider u.provider u.closed u.outcome
update-IsOutcome_example =
    update-IsOutcome names counters sources filters ("a" ∷ []) (1 ∷ 0 ∷ []) provider
      names-IsInjective sources-KeepsTags "links" subscription_named

-- After the update that failed, another one with a group that does not fail.
same_content_ignored_example :
    update_with (1 ∷ 1 ∷ []) (update_with (1 ∷ 0 ∷ []) provider).provider ≡ record {
      provider = (update_with (1 ∷ 0 ∷ []) provider).provider;
      groups = 1 ∷ 1 ∷ [];
      closed = [];
      outcome = ok false;
    }
same_content_ignored_example =
    same_content_ignored names counters sources filters ("a" ∷ []) ("a" ∷ []) (1 ∷ 0 ∷ [])
      (1 ∷ 1 ∷ []) provider "links" subscription refl (refl, (refl, tt))

-- An outbound without a tag keeps none where its name is free.
nameless_stays :
    start_outbounds names "sub" [] (record old { tag = "" } ∷ [])
    ≡ ok (record old { tag = "" } ∷ [], insert "" (record old { tag = "" }) empty_map)
unfolding start_outbounds start_from claim_tag free_tag update_outbound_by_tag
nameless_stays = refl
