-- ===== src/Provider/Override/Detours.antt =====
-- The detours of the outbounds of a subscription (provider/parser.go).
use mathlib.Core.Path.{subst}
use sfa_provider.Prelude.{
  String, Option, none, some, Bool, true, false, not, List, [], ◌∷◌, ◌==◌, ◌&&◌, ◌||◌, string_key,
  any, all, ◌≡◌, refl, ap, ◌∙◌, arith, if_elim, if_intro, Result, ok, err, ◌>>=◌,
}
use sfa_provider.Provider.{DialerOptions, Options}
use sfa_provider.Provider.Override.{
  OverrideDialerOptions, OutboundOverride, drop_detour, override_given, override_dialer_option,
  override_tag, has_dialer, override_outbound, override_each, tags_of, override_outbounds,
  new_parser,
}

-- The detour is empty or one of the tags.
abbrev resolves : List String → String → Bool
resolves tags detour = (detour == "") || any (λ tag. detour == tag) tags

-- Each outbound whose options are overridden has a detour that is empty or the tag of one of them.
abbrev pub all_resolve : List String → List Options → Bool
all_resolve tags outbounds =
    all (λ o. not (has_dialer o.type_name) || resolves tags o.dialer.detour) outbounds

abbrev no_detour : Option OverrideDialerOptions → Bool
no_detour none = true
no_detour (some d) = elim d.detour [ none ↦ true | some t ↦ false ]

-- The override has no tag prefix, no tag suffix and no detour.
abbrev pub keeps_tags : Option OutboundOverride → Bool
keeps_tags none = true
keeps_tags (some o) = (o.tag_prefix == "") && (o.tag_suffix == "") && no_detour o.dialer

drop_detour-resolves :
    (tags : List String) (d : DialerOptions) → resolves tags (drop_detour tags d).detour ≡ true
drop_detour-resolves tags d =
    if_elim (λ (x : DialerOptions). resolves tags x.detour ≡ true)
      (not (d.detour == "") && not (any (λ tag. d.detour == tag) tags)) _ _ (λ dropped. refl)
      (λ kept. ground (arith))

override_given-detour :
    (given : Option OverrideDialerOptions) (d : DialerOptions)
    → no_detour given ≡ true
    → (override_given given d).detour ≡ d.detour
override_given-detour none d h = refl
override_given-detour (some given) d h = ground (arith)

override-resolves :
    (override : Option OutboundOverride) (tags : List String) (d : DialerOptions)
    → keeps_tags override ≡ true
    → resolves tags (override_dialer_option override tags d).detour ≡ true
unfolding override_dialer_option
override-resolves none tags d h = drop_detour-resolves tags d
override-resolves (some override) tags d h =
    ap (resolves tags) (override_given-detour override.dialer (drop_detour tags d) (ground (arith)))
    ∙ drop_detour-resolves tags d

override_tag-kept :
    (override : Option OutboundOverride) (tag : String)
    → keeps_tags override ≡ true
    → override_tag override tag ≡ tag
override_tag-kept none tag h = refl
override_tag-kept (some override) tag h = ground (arith)

tags_of-kept :
    (override : Option OutboundOverride) (tags : List String) (outbounds : List Options)
    → keeps_tags override ≡ true
    → tags_of (override_each override tags outbounds) ≡ tags_of outbounds
tags_of-kept override tags [] h = refl
tags_of-kept override tags (o ∷ outbounds) h =
    let same =
      if_intro (λ (x : Options). x.tag ≡ override_tag override o.tag) (has_dialer o.type_name) _ _
        refl refl
      ∙ override_tag-kept override o.tag h in
    let rest = tags_of-kept override tags outbounds h in λ i. same i ∷ rest i

or_true : (a b : Bool) → b ≡ true → (a || b) ≡ true
or_true a b h = ground (arith)

not_or : (a b : Bool) → a ≡ false → (not a || b) ≡ true
not_or a b h = ground (arith)

and_true : (a b : Bool) → a ≡ true → b ≡ true → (a && b) ≡ true
and_true a b h g = ground (arith)

override_outbound-resolves :
    (override : Option OutboundOverride) (tags : List String) (o : Options)
    → keeps_tags override ≡ true
    → all_resolve tags (override_outbound override tags o ∷ []) ≡ true
override_outbound-resolves override tags o h =
    if_elim (λ (x : Options). all_resolve tags (x ∷ []) ≡ true) (has_dialer o.type_name) _ _
      (λ yes.
        and_true _ true
          (or_true (not (has_dialer o.type_name)) _ (override-resolves override tags o.dialer h))
          refl)
      (λ no. and_true _ true (not_or (has_dialer o.type_name) _ no) refl)

all_resolve-cons :
    (tags : List String) (o : Options) (outbounds : List Options)
    → all_resolve tags (o ∷ []) ≡ true
    → all_resolve tags outbounds ≡ true
    → all_resolve tags (o ∷ outbounds) ≡ true
all_resolve-cons tags o outbounds h g = at _ h
  where
    at : (b : Bool) → (b && true) ≡ true → (b && all_resolve tags outbounds) ≡ true
    at true h = g
    at false h = h

override_each-resolve :
    (override : Option OutboundOverride) (tags : List String) (outbounds : List Options)
    → keeps_tags override ≡ true
    → all_resolve tags (override_each override tags outbounds) ≡ true
override_each-resolve override tags [] h = refl
override_each-resolve override tags (o ∷ outbounds) h =
    all_resolve-cons tags (override_outbound override tags o)
      (override_each override tags outbounds) (override_outbound-resolves override tags o h)
      (override_each-resolve override tags outbounds h)

-- Where the override has no tag prefix, no tag suffix and no detour: after newParser, every outbound
-- of the types whose options are overridden has a detour that is empty or the tag of an outbound of the
-- same provider.
pub detours_resolve :
    (parse : String → Result String (List Options)) (override : Option OutboundOverride)
    (content : String) (outbounds : List Options)
    → keeps_tags override ≡ true
    → new_parser parse override content ≡ ok outbounds
    → all_resolve (tags_of outbounds) outbounds ≡ true
unfolding new_parser
detours_resolve parse override content outbounds h e = at (parse content) e
  where
    at :
        (t : Result String (List Options))
        → (t >>= λ os. ok (override_outbounds override os)) ≡ ok outbounds
        → all_resolve (tags_of outbounds) outbounds ≡ true
    at (err m) e = ground (arith)
    at (ok os) e =
        let same : override_outbounds override os ≡ outbounds = cc in
        subst (λ x. all_resolve (tags_of x) x ≡ true) same
          (ap (λ tags. all_resolve tags (override_outbounds override os))
              (tags_of-kept override (tags_of os) os h)
            ∙ override_each-resolve override (tags_of os) os h)
