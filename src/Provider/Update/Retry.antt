-- ===== src/Provider/Update/Retry.antt =====
-- A second update with the same content (provider/default.go).
use mathlib.Core.List.{Memᴰ}
use mathlib.Core.Path.{subst}
use sfa_provider.Prelude.{
  String, Option, none, some, Bool, true, false, not, List, [], ◌∷◌, ◌==◌, string_key, Comparable,
  Map, insert, empty_map, Result, ok, err, all, length, nat_eq_iff, if◌then◌else◌, ◌≡◌, refl, sym,
  ap, ◌∙◌, if_elim, arith,
}
use text.Mathlib.TextEquality.{eq_iff}
use sfa_provider.Boot.{Outbound, Names}
use sfa_provider.Provider.{Options, Filters, ProviderAdapter, filter}
use sfa_provider.Provider.Start.{StartFailure, start_outbounds}
use sfa_provider.Provider.Update.{
  Sources, Groups, UpdateError, create_outbounds, out_map, is_same, check_change, parsed,
  update_groups, settle, install, apply, update_provider_from_content,
}

-- Whether none of the options has the tag.
abbrev pub no_option_has : String → List Options → Bool
no_option_has tag outbounds = all (λ o. not (o.tag == tag)) outbounds

-- The tags of the options differ.
abbrev pub AreApart : List Options → Type 0
AreApart [] = Unit
AreApart (o ∷ outbounds) = (no_option_has o.tag outbounds ≡ true) × AreApart outbounds

out_map-no_options :
    (outbounds : List Options) (m : Map String Options) (tag : String)
    → no_option_has tag outbounds ≡ true
    → out_map outbounds m tag ≡ m tag
unfolding out_map
out_map-no_options [] m tag h = refl
out_map-no_options (o ∷ outbounds) m tag h =
    out_map-no_options outbounds (insert o.tag o m) tag (ground (arith))
    ∙ ground (arith, eq_iff o.tag tag, eq_iff tag o.tag)

out_map-Mem :
    (outbounds : List Options) (m : Map String Options) (o : Options)
    → AreApart outbounds
    → Memᴰ o outbounds
    → out_map outbounds m o.tag ≡ some o
unfolding out_map
out_map-Mem [] m o d among = elim among [ ]
out_map-Mem (x ∷ outbounds) m o (d, ds) (Memᴰ.tail among) =
    out_map-Mem outbounds (insert x.tag x m) o ds among
out_map-Mem (x ∷ outbounds) m o (d, ds) (Memᴰ.head e) =
    subst (λ y. out_map outbounds (insert x.tag x m) y.tag ≡ some y) (sym e)
      (out_map-no_options outbounds (insert x.tag x m) x.tag d ∙ ground (arith, eq_iff x.tag x.tag))

all-Mem :
    {A : Type 0} (f : A → Bool) (xs : List A) → ((x : A) → Memᴰ x xs → f x ≡ true) → all f xs ≡ true
all-Mem f [] h = refl
all-Mem f (x ∷ xs) h =
    let here = h x (Memᴰ.head refl) in
    let rest = all-Mem f xs (λ y m. h y (Memᴰ.tail m)) in ground (arith)

module _ ⦃deep_equal : Comparable Options⦄ where
  check_change-same :
      (outbounds : List Options) → AreApart outbounds → check_change outbounds outbounds ≡ false
  unfolding check_change
  check_change-same outbounds d =
      let found =
        all-Mem (λ it. is_same it (out_map outbounds empty_map it.tag)) outbounds
          (λ x m.
            ap (is_same x) (out_map-Mem outbounds empty_map x d m)
            ∙ (deep_equal.equal_iff x x).1 refl) in
      ground (arith, nat_eq_iff (length outbounds) (length outbounds))

  module _ {G : Type 0} (names : Names) (api : Groups G) (others : List String)
      (groups : List G) where
    install-last_outs :
        (q : ProviderAdapter) (t : Result StartFailure (List Outbound × Map String Outbound))
        → (install api q groups t).provider.last_outs ≡ q.last_outs
    install-last_outs q (err e) = refl
    install-last_outs q (ok (os, by_tag)) = at (update_groups api q.tag os groups)
      where
        at :
            (r : List G × Option String)
            → (settle q (os, by_tag) r).provider.last_outs ≡ q.last_outs
        at (gs, none) = refl
        at (gs, some e) = refl

    apply-last_outs :
        (q : ProviderAdapter) (r : Result UpdateError (List Outbound))
        → (apply names api others groups (q, r)).provider.last_outs ≡ q.last_outs
    apply-last_outs q (err e) = refl
    apply-last_outs q (ok []) = refl
    apply-last_outs q (ok (o ∷ os)) =
        install-last_outs q (start_outbounds names q.tag others (o ∷ os))

  -- After parsing, the options are those of the last time.
  parsed-unchanged :
      (sources : Sources) (filters : Filters) (p : ProviderAdapter) (outbounds : List Options)
      → AreApart (filter filters outbounds)
      → check_change
          (parsed sources filters p (ok outbounds)).0.last_outs
          (filter filters outbounds)
        ≡ false
  parsed-unchanged sources filters p outbounds d =
      if_elim
        (λ (r : ProviderAdapter × Result UpdateError (List Outbound)).
          check_change r.0.last_outs final_outs ≡ false)
        (not (check_change p.last_outs final_outs)) _ _ (λ same. ground (arith))
        (λ changed. check_change-same final_outs d)
    where
      final_outs : List Options
      final_outs = filter filters outbounds

  parsed-ignored :
      {G : Type 0} (names : Names) (api : Groups G) (sources : Sources) (filters : Filters)
      (others : List String) (groups : List G) (q : ProviderAdapter) (outbounds : List Options)
      → check_change q.last_outs (filter filters outbounds) ≡ false
      → apply names api others groups (parsed sources filters q (ok outbounds))
        ≡ record { provider = q; groups = groups; closed = []; outcome = ok false }
  parsed-ignored names api sources filters others groups q outbounds e =
      ap
        (λ b. apply names api others groups (
          if not b then (q, ok []) else (
            record q { last_outs = filter filters outbounds },
            ok (create_outbounds sources (filter filters outbounds)),
          )))
        e

  -- Where the content has different tags once it is filtered: after any update with it, also one that
  -- failed to start an outbound or to update a group, an update with the same content finds no changes,
  -- whatever the router then has, and leaves the provider and the groups as they are.
  pub same_content_ignored :
      {G : Type 0} (names : Names) (api : Groups G) (sources : Sources) (filters : Filters)
      (others others' : List String) (groups groups' : List G) (p : ProviderAdapter)
      (content : String) (outbounds : List Options)
      → sources.new_parser (sources.decode content) ≡ ok outbounds
      → AreApart (filter filters outbounds)
      → let u = update_provider_from_content names api sources filters others groups p content in
        update_provider_from_content names api sources filters others' groups' u.provider content
        ≡ record { provider = u.provider; groups = groups'; closed = []; outcome = ok false }
  unfolding update_provider_from_content
  same_content_ignored names api sources filters others others' groups groups' p content outbounds h
        d =
      subst
        (λ t.
          apply names api others' groups' (
            parsed sources filters
              (apply names api others groups (parsed sources filters p t)).provider t)
          ≡ record {
            provider = (apply names api others groups (parsed sources filters p t)).provider;
            groups = groups';
            closed = [];
            outcome = ok false;
          })
        (sym h)
        (parsed-ignored names api sources filters others' groups' _ outbounds (
          ap (λ l. check_change l (filter filters outbounds))
            (apply-last_outs names api others groups (parsed sources filters p (ok outbounds)).0
              (parsed sources filters p (ok outbounds)).1)
          ∙ parsed-unchanged sources filters p outbounds d))
