-- ===== src/Provider/Update/Rollback.antt =====
-- What an update leaves of the outbounds of the provider (provider/default.go).
use mathlib.Core.List.{Memᴰ}
use sfa_provider.Prelude.{
  String, Option, none, some, Bool, true, false, not, List, [], ◌∷◌, ◌==◌, string_key, Comparable,
  Map, Result, ok, err, all, ◌≡◌, refl, if_intro, arith,
}
use text.Mathlib.TextEquality.{eq_iff}
use sfa_provider.Boot.{Outbound, Names}
use sfa_provider.Boot.Counting.{AreDistinct}
use sfa_provider.Boot.Tags.{none_in}
use sfa_provider.Provider.{Options, Filters, ProviderAdapter, filter, passes}
use sfa_provider.Provider.Start.{StartFailure, stuck, start_failed}
use sfa_provider.Provider.Start.Free.{IsInjective}
use sfa_provider.Provider.Start.Distinct.{all_named, IsSettled, start_outbounds-IsSettled}
use sfa_provider.Provider.Update.{
  Sources, Groups, UpdateError, start_error, parse_failed, group_failed, Updated, is_skipped,
  append_created, create_outbounds, check_change, parsed, update_groups, settle, install, apply,
  update_provider_from_content,
}

-- The provider has the outbounds that it had before.
abbrev pub IsKept : ProviderAdapter → ProviderAdapter → Type 0
IsKept p q = (q.outbounds ≡ p.outbounds) × (q.outbound_by_tag ≡ p.outbound_by_tag)

-- After an update that changed the provider, its outbounds have tags of their own, under which they are
-- found, and none is closed. After any other, it has the outbounds that it had before; and the search
-- for a free tag has ended.
abbrev pub IsOutcome :
    List String
    → ProviderAdapter
    → ProviderAdapter
    → List Outbound
    → Result UpdateError Bool
    → Type 0
IsOutcome others p q closed (ok true) =
    AreDistinct q.outbounds
    × (none_in others q.outbounds ≡ true)
    × ((o : Outbound) → Memᴰ o q.outbounds → q.outbound_by_tag o.tag ≡ some o)
    × (closed ≡ [])
IsOutcome others p q closed (ok false) = IsKept p q
IsOutcome others p q closed (err (start_error stuck)) = ⊥
IsOutcome others p q closed (err (start_error (start_failed tag e))) = IsKept p q
IsOutcome others p q closed (err (parse_failed e)) = IsKept p q
IsOutcome others p q closed (err (group_failed e)) = IsKept p q

-- Every outbound that is created has the tag of its options.
abbrev pub KeepsTags : Sources → Type 0
KeepsTags sources =
    (o : Options) (out : Outbound) → sources.new_outbound o ≡ some out → out.tag ≡ o.tag

abbrev pub options_named : List Options → Bool
options_named outbounds = all (λ o. not (o.tag == "")) outbounds

append_created-named :
    (o : Options) (created : Option Outbound) (outs : List Outbound)
    → ((out : Outbound) → created ≡ some out → out.tag ≡ o.tag)
    → (o.tag == "") ≡ false
    → all_named outs ≡ true
    → all_named (append_created created outs) ≡ true
append_created-named o none outs keeps named h = h
append_created-named o (some out) outs keeps named h =
    let same = keeps out refl in ground (arith, eq_iff out.tag "", eq_iff o.tag "")

create_outbounds-named :
    (sources : Sources)
    → KeepsTags sources
    → (outbounds : List Options) → options_named outbounds ≡ true
    → all_named (create_outbounds sources outbounds) ≡ true
unfolding create_outbounds
create_outbounds-named sources keeps [] named = refl
create_outbounds-named sources keeps (o ∷ outbounds) named =
    let rest = create_outbounds-named sources keeps outbounds (ground (arith)) in
    if_intro (λ outs. all_named outs ≡ true) (is_skipped o.type_name) _ _ rest
      (append_created-named o (sources.new_outbound o) (create_outbounds sources outbounds)
        (keeps o) (ground (arith)) rest)

filter-named :
    (filters : Filters) (outbounds : List Options)
    → options_named outbounds ≡ true
    → options_named (filter filters outbounds) ≡ true
filter-named filters [] named = refl
filter-named filters (o ∷ outbounds) named =
    let rest = filter-named filters outbounds (ground (arith)) in
    if_intro (λ outs. options_named outs ≡ true) (passes filters o) _ _ (ground (arith)) rest

abbrev IsParsed : Result UpdateError (List Outbound) → Type 0
IsParsed (ok outbounds) = all_named outbounds ≡ true
IsParsed (err (parse_failed e)) = Unit
IsParsed (err (start_error e)) = ⊥
IsParsed (err (group_failed e)) = ⊥

module _ {G : Type 0} (api : Groups G) (groups : List G) (others : List String)
    (p q : ProviderAdapter) (kept : IsKept p q) where
  abbrev IsUpdated : Updated G → Type 0
  IsUpdated u = IsOutcome others p u.provider u.closed u.outcome

  install-IsUpdated :
      (outbounds : List Outbound) (t : Result StartFailure (List Outbound × Map String Outbound))
      → IsSettled others outbounds t
      → IsUpdated (install api q groups t)
  install-IsUpdated outbounds (err stuck) h = h
  install-IsUpdated outbounds (err (start_failed tag e)) h = kept
  install-IsUpdated outbounds (ok (os, by_tag)) (d, fresh, n, found) =
      at (update_groups api q.tag os groups)
    where
      at : (r : List G × Option String) → IsUpdated (settle q (os, by_tag) r)
      at (gs, none) = (d, fresh, found, refl)
      at (gs, some e) = kept

  apply-IsUpdated :
      (names : Names)
      → IsInjective names
      → (r : Result UpdateError (List Outbound)) → IsParsed r
      → IsUpdated (apply names api others groups (q, r))
  apply-IsUpdated names injective (err (parse_failed e)) h = kept
  apply-IsUpdated names injective (err (start_error e)) h = absurd h
  apply-IsUpdated names injective (err (group_failed e)) h = absurd h
  apply-IsUpdated names injective (ok []) h = kept
  apply-IsUpdated names injective (ok (o ∷ outbounds)) h =
      install-IsUpdated (o ∷ outbounds) _
        (start_outbounds-IsSettled names q.tag others (o ∷ outbounds) injective h)

module _ ⦃deep_equal : Comparable Options⦄ {G : Type 0} (names : Names) (api : Groups G)
    (sources : Sources) (filters : Filters) (others : List String) (groups : List G)
    (p : ProviderAdapter) (injective : IsInjective names) (keeps : KeepsTags sources) where
  parsed-IsUpdated :
      (t : Result String (List Options))
      → ((outbounds : List Options) → t ≡ ok outbounds → options_named outbounds ≡ true)
      → IsUpdated api groups others p p
          (refl, refl)
          (apply names api others groups (parsed sources filters p t))
  parsed-IsUpdated (err e) named = (refl, refl)
  parsed-IsUpdated (ok outbounds) named =
      if_intro (λ r. IsUpdated api groups others p p (refl, refl) (apply names api others groups r))
        (not (check_change p.last_outs final_outs)) _ _ (refl, refl)
        (apply-IsUpdated api groups others p (record p { last_outs = final_outs }) (refl, refl)
          names injective (ok (create_outbounds sources final_outs))
          (create_outbounds-named sources keeps final_outs
            (filter-named filters outbounds (named outbounds refl))))
    where
      final_outs : List Options
      final_outs = filter filters outbounds

  -- Where different numbers make different tags, every outbound that is created has the tag of its
  -- options, and all outbounds of the content have tags: after an update that returns true, the tags of
  -- the provider's outbounds differ from each other and from those of the router's outbounds and the
  -- other providers, each outbound is found under its tag, and none was closed. After an update that
  -- returns false or an error, the provider has the outbounds that it had before. The search for a free
  -- tag ends.
  pub update-IsOutcome :
      (content : String)
      → ((outbounds : List Options)
          → sources.new_parser (sources.decode content) ≡ ok outbounds
          → options_named outbounds ≡ true)
      → let u = update_provider_from_content names api sources filters others groups p content in
        IsOutcome others p u.provider u.closed u.outcome
  unfolding update_provider_from_content
  update-IsOutcome content named =
      parsed-IsUpdated (sources.new_parser (sources.decode content)) named
