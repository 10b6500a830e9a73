-- ===== src/Provider/Start/Distinct.antt =====
-- The outbounds of an update are found by their tags (provider/default.go).
use mathlib.Core.List.{Memᴰ}
use mathlib.Core.Path.{subst}
use sfa_provider.Prelude.{
  ℕ, suc, String, some, Bool, true, false, not, List, [], ◌∷◌, ◌==◌, string_key, Result, ok, err,
  length, if◌then◌else◌, ◌≡◌, refl, sym, ap, ◌∙◌, arith, if_elim, elim_Option, all, Map, insert,
  empty_map, ◌>>=◌,
}
use text.Mathlib.TextEquality.{eq_iff}
use sfa_provider.Boot.{Outbound, Names, contains, update_outbound_by_tag}
use sfa_provider.Boot.Counting.{has_no, AreDistinct}
use sfa_provider.Boot.Tags.{none_in, none_in-cons}
use sfa_provider.Provider.Start.{
  StartFailure, stuck, start_failed, claim_tag, start_claimed, start_from, start_outbounds,
}
use sfa_provider.Provider.Start.Free.{IsInjective, IsFree, free_tag-IsFree}

abbrev pub all_named : List Outbound → Bool
all_named outbounds = all (λ o. not (o.tag == "")) outbounds

-- The outbound has the tag that is noted, and the tag is new.
abbrev IsClaimed : List String → Outbound → Result StartFailure (String × Outbound) → Type 0
IsClaimed seen o (ok (tag, p)) = (p.tag ≡ tag) × (contains seen tag ≡ false) × (p.starts ≡ o.starts)
IsClaimed seen o (err e) = ⊥

IsClaimed-free :
    (seen : List String) (o : Outbound) (t : Result StartFailure String)
    → IsFree seen t
    → IsClaimed seen o (t >>= λ tag. ok (tag, record o { tag = tag }))
IsClaimed-free seen o (ok tag) free = (refl, free, refl)
IsClaimed-free seen o (err e) free = free

-- What may come of the outbounds: they have tags of their own, or the Start of one of them failed.
abbrev pub IsStarted : List String → List Outbound → Result StartFailure (List Outbound) → Type 0
IsStarted seen outbounds (ok os) =
    AreDistinct os × (none_in seen os ≡ true) × (length os ≡ length outbounds)
IsStarted seen outbounds (err stuck) = ⊥
IsStarted seen outbounds (err (start_failed tag e)) =
    (o : Outbound) × Memᴰ o outbounds × (o.starts ≡ some e)

IsStarted-cons :
    (seen : List String) (o p : Outbound) (tag : String) (outbounds : List Outbound)
    (rest : Result StartFailure (List Outbound))
    → p.tag ≡ tag
    → contains seen tag ≡ false
    → IsStarted (tag ∷ seen) outbounds rest
    → IsStarted seen (o ∷ outbounds) (rest >>= λ os. ok (p ∷ os))
IsStarted-cons seen o p tag outbounds (ok os) same new (d, fresh, n) =
    let both = none_in-cons tag seen os fresh in
    ((ap (λ t. has_no t os) same ∙ both.0, d), ground (arith, ap (contains seen) same), ap suc n)
IsStarted-cons seen o p tag outbounds (err stuck) same new h = h
IsStarted-cons seen o p tag outbounds (err (start_failed t e)) same new (failed, m, s) =
    (failed, Memᴰ.tail m, s)

module _ (names : Names) (injective : IsInjective names) (provider : String) where
  claim_tag-IsClaimed :
      (i : ℕ) (seen : List String) (o : Outbound)
      → (o.tag == "") ≡ false
      → IsClaimed seen o (claim_tag names provider i seen o)
  unfolding claim_tag
  claim_tag-IsClaimed i seen o named =
      if_elim (IsClaimed seen o) (contains seen tag) _ _
        (λ taken. IsClaimed-free seen o _ (free_tag-IsFree names injective tag seen))
        (λ new. (ground (arith), new, refl))
    where
      tag : String
      tag = if o.tag == "" then names.placed provider i else o.tag

  start_from-IsStarted :
      (i : ℕ) (seen : List String) (outbounds : List Outbound)
      → all_named outbounds ≡ true
      → IsStarted seen outbounds (start_from names provider i seen outbounds)
  unfolding start_from
  start_from-IsStarted i seen [] named = (tt, refl, refl)
  start_from-IsStarted i seen (o ∷ outbounds) named =
      at (claim_tag names provider i seen o) (claim_tag-IsClaimed i seen o (ground (arith)))
        (λ tag. start_from-IsStarted (suc i) (tag ∷ seen) outbounds (ground (arith)))
    where
      at :
          (t : Result StartFailure (String × Outbound))
          → IsClaimed seen o t
          → ((tag : String)
              → IsStarted
                  (tag ∷ seen)
                  outbounds
                  (start_from names provider (suc i) (tag ∷ seen) outbounds))
          → IsStarted seen (o ∷ outbounds) (
              t
              >>= start_claimed o (λ tag. start_from names provider (suc i) (tag ∷ seen) outbounds))
      at (err e) h later = absurd h
      at (ok (tag, p)) (same, new, starts) later =
          elim_Option (IsStarted seen (o ∷ outbounds)) o.starts _ _
            (λ fine. IsStarted-cons seen o p tag outbounds _ same new (later tag))
            (λ e failed. (o, Memᴰ.head refl, failed))

update_outbound_by_tag-has_no :
    (outbounds : List Outbound) (m : Map String Outbound) (tag : String)
    → has_no tag outbounds ≡ true
    → update_outbound_by_tag outbounds m tag ≡ m tag
unfolding update_outbound_by_tag
update_outbound_by_tag-has_no [] m tag h = refl
update_outbound_by_tag-has_no (o ∷ outbounds) m tag h =
    update_outbound_by_tag-has_no outbounds (insert o.tag o m) tag (ground (arith))
    ∙ ground (arith, eq_iff o.tag tag, eq_iff tag o.tag)

-- Each of the outbounds is found under its tag.
pub update_outbound_by_tag-Mem :
    (outbounds : List Outbound) (m : Map String Outbound) (o : Outbound)
    → AreDistinct outbounds
    → Memᴰ o outbounds
    → update_outbound_by_tag outbounds m o.tag ≡ some o
unfolding update_outbound_by_tag
update_outbound_by_tag-Mem [] m o d among = elim among [ ]
update_outbound_by_tag-Mem (x ∷ outbounds) m o (d, ds) (Memᴰ.tail among) =
    update_outbound_by_tag-Mem outbounds (insert x.tag x m) o ds among
update_outbound_by_tag-Mem (x ∷ outbounds) m o (d, ds) (Memᴰ.head e) =
    subst (λ y. update_outbound_by_tag outbounds (insert x.tag x m) y.tag ≡ some y) (sym e)
      (update_outbound_by_tag-has_no outbounds (insert x.tag x m) x.tag d
        ∙ ground (arith, eq_iff x.tag x.tag))

abbrev pub IsSettled :
    List String → List Outbound → Result StartFailure (List Outbound × Map String Outbound) → Type 0
IsSettled others outbounds (ok (os, by_tag)) =
    AreDistinct os
    × (none_in others os ≡ true)
    × (length os ≡ length outbounds)
    × ((o : Outbound) → Memᴰ o os → by_tag o.tag ≡ some o)
IsSettled others outbounds (err e) = IsStarted others outbounds (err e)

IsSettled-by_tag :
    (others : List String) (outbounds : List Outbound) (t : Result StartFailure (List Outbound))
    → IsStarted others outbounds t
    → IsSettled others outbounds (t >>= λ os. ok (os, update_outbound_by_tag os empty_map))
IsSettled-by_tag others outbounds (ok os) (d, fresh, n) =
    (d, fresh, n, λ o among. update_outbound_by_tag-Mem os empty_map o d among)
IsSettled-by_tag others outbounds (err e) h = h

-- Where all outbounds of an update have tags and different numbers make different tags: startOutbounds
-- either finds that the Start of one of them fails, or it returns as many outbounds, whose tags differ
-- from each other and from the tags of the router's outbounds and those of the other providers, and
-- each is found under its tag. The search for a free number always ends.
pub start_outbounds-IsSettled :
    (names : Names) (provider : String) (others : List String) (outbounds : List Outbound)
    → IsInjective names
    → all_named outbounds ≡ true
    → IsSettled others outbounds (start_outbounds names provider others outbounds)
unfolding start_outbounds
start_outbounds-IsSettled names provider others outbounds injective named =
    IsSettled-by_tag others outbounds _
      (start_from-IsStarted names injective provider 0 others outbounds named)
