-- ===== src/Boot/Numbers.antt =====
-- The counts of startProviderOutbounds (box_outbound.go).
use mathlib.Core.Path.{subst}
use sfa_provider.Prelude.{
  ℕ, suc, String, Option, none, some, Bool, true, false, not, List, [], ◌∷◌, ◌&&◌, ◌||◌, ◌==◌,
  string_key, Map, empty_map, ◌≡◌, refl, ap, ◌∙◌, if◌then◌else◌, arith, Result, ok, err, ◌>>=◌,
  elim_Option,
}
use text.Mathlib.TextEquality.{eq_iff}
use sfa_provider.Boot.{
  Outbound, Provider, StartError, Names, count_tag, take_tag, start_members, start_providers,
  update_outbound_by_tag,
}

-- Whether every outbound that had the tag before has the new tag now. The lists are as long.
abbrev pub all_renamed : String → String → List Outbound → List Outbound → Bool
all_renamed tag new [] [] = true
all_renamed tag new [] (p ∷ after) = false
all_renamed tag new (o ∷ before) [] = false
all_renamed tag new (o ∷ before) (p ∷ after) =
    (not (o.tag == tag) || (p.tag == new)) && all_renamed tag new before after

-- The same of the outbounds of each provider.
abbrev pub each_renamed : String → String → List Provider → List Provider → Bool
each_renamed tag new [] [] = true
each_renamed tag new [] (p ∷ after) = false
each_renamed tag new (o ∷ before) [] = false
each_renamed tag new (o ∷ before) (p ∷ after) =
    all_renamed tag new o.outbounds p.outbounds && each_renamed tag new before after

-- A count of 0 stays 0, whichever tag is taken next.
count_tag-zero :
    (names : Names) (counts : Map String ℕ) (tag other : String) (c : Option ℕ)
    → counts tag ≡ some 0
    → (count_tag names counts other c).1 tag ≡ some 0
count_tag-zero names counts tag other none h = ground (arith)
count_tag-zero names counts tag other (some n) h = ground (arith)

take_tag-taken :
    (names : Names) (counts : Map String ℕ) (tag : String)
    → counts tag ≡ some 0
    → (take_tag names counts tag).0 ≡ names.numbered tag 1
take_tag-taken names counts tag h = ap (λ c. (count_tag names counts tag c).0) h

module _ (names : Names) (tag : String) (named : (tag == "") ≡ false) where
  abbrev MembersRenamed : List Outbound → Result StartError (List Outbound × Map String ℕ) → Type 0
  MembersRenamed before (err e) = Unit
  MembersRenamed before (ok (after, counts)) =
      (all_renamed tag (names.numbered tag 1) before after ≡ true) × (counts tag ≡ some 0)

  renamed-cons :
      (o : Outbound) (new : String) (before : List Outbound)
      (rest : Result StartError (List Outbound × Map String ℕ))
      → (o.tag ≡ tag → new ≡ names.numbered tag 1)
      → MembersRenamed before rest
      → MembersRenamed (o ∷ before) (rest >>= λ r. ok (record o { tag = new } ∷ r.0, r.1))
  renamed-cons o new before (err e) h rest = tt
  renamed-cons o new before (ok r) h (renamed, zero_count) =
      (ground (arith, h, eq_iff o.tag tag, eq_iff new (names.numbered tag 1)), zero_count)

  start_members-Renamed :
      (provider : String) (j : ℕ) (counts : Map String ℕ) (outbounds : List Outbound)
      → counts tag ≡ some 0
      → MembersRenamed outbounds (start_members names provider j counts outbounds)
  unfolding start_members
  start_members-Renamed provider j counts [] h = (refl, h)
  start_members-Renamed provider j counts (o ∷ outbounds) h =
      elim_Option (MembersRenamed (o ∷ outbounds)) o.starts _ _
        (λ fine.
          renamed-cons o (take_tag names counts given).0 outbounds _
            (λ same.
              ap (λ t. (take_tag names counts t).0) (given_same same)
              ∙ take_tag-taken names counts tag h)
            (start_members-Renamed provider (suc j) (take_tag names counts given).1 outbounds
              (count_tag-zero names counts tag given (counts given) h)))
        (λ e failed. tt)
    where
      given : String
      given = if o.tag == "" then names.placed provider j else o.tag

      given_same : o.tag ≡ tag → given ≡ tag
      given_same same =
          ground (arith, same, named, eq_iff o.tag tag, eq_iff o.tag "", eq_iff tag "")

  abbrev ProvidersRenamed : List Provider → Result StartError (List Provider) → Type 0
  ProvidersRenamed before (err e) = Unit
  ProvidersRenamed before (ok after) = each_renamed tag (names.numbered tag 1) before after ≡ true

  start_providers-Renamed :
      (i : ℕ) (counts : Map String ℕ) (providers : List Provider)
      → counts tag ≡ some 0
      → ProvidersRenamed providers (start_providers names i counts providers)
  unfolding start_providers
  start_providers-Renamed i counts [] h = refl
  start_providers-Renamed i counts (p ∷ providers) h =
      of_members _
        (start_members-Renamed (if p.tag == "" then names.itoa i else p.tag) 0 counts p.outbounds h)
        (λ later g. start_providers-Renamed (suc i) later providers g)
    where
      of_rest :
          (after : List Outbound) (m : Map String Outbound) (t : Result StartError (List Provider))
          → all_renamed tag (names.numbered tag 1) p.outbounds after ≡ true
          → ProvidersRenamed providers t
          → ProvidersRenamed
              (p ∷ providers)
              (t >>= λ ps. ok (record p { outbounds = after; outbound_by_tag = m } ∷ ps))
      of_rest after m (err e) renamed rest = tt
      of_rest after m (ok ps) renamed rest = ground (arith)

      of_members :
          (t : Result StartError (List Outbound × Map String ℕ))
          → MembersRenamed p.outbounds t
          → ((later : Map String ℕ)
              → later tag ≡ some 0
              → ProvidersRenamed providers (start_providers names (suc i) later providers))
          → ProvidersRenamed (p ∷ providers) (
              t >>= λ r. start_providers names (suc i) r.1 providers >>= λ ps. ok (
                record p { outbounds = r.0; outbound_by_tag = update_outbound_by_tag r.0 empty_map }
                ∷ ps))
      of_members (err e) h rest = tt
      of_members (ok (after, later)) (renamed, zero_count) rest =
          of_rest after (update_outbound_by_tag after empty_map) _ renamed (rest later zero_count)

  -- For a tag that is not empty and is taken with the count 0: where startProviderOutbounds has no
  -- error, every outbound of every provider that had the tag, whatever stands between them, has the
  -- same new tag, that with the number 1.
  pub same_number :
      (counts : Map String ℕ) (providers started : List Provider)
      → counts tag ≡ some 0
      → start_providers names 0 counts providers ≡ ok started
      → each_renamed tag (names.numbered tag 1) providers started ≡ true
  same_number counts providers started h g =
      subst (ProvidersRenamed providers) g (start_providers-Renamed 0 counts providers h)
