-- ===== src/Boot/Tags.antt =====
-- The first loop of startOutbounds gives every outbound a tag of its own, or names a tag that two of
-- them have (box_outbound.go).
use mathlib.Core.Path.{subst}
use sfa_provider.Prelude.{
  ℕ, suc, String, Bool, true, false, not, List, [], ◌∷◌, ◌==◌, string_key, ◌≡◌, refl, all,
  if◌then◌else◌, arith, if_elim, Result, ok, err, ◌>>=◌,
}
use text.Mathlib.TextEquality.{eq_iff}
use sfa_provider.Boot.{Outbound, StartError, duplicated, contains, assign_tags}
use sfa_provider.Boot.Counting.{has_no, AreDistinct}

-- None of the outbounds has one of the tags.
abbrev pub none_in : List String → List Outbound → Bool
none_in seen outbounds = all (λ o. not (contains seen o.tag)) outbounds

abbrev IsTagged : List String → Result StartError (List Outbound) → Type 0
IsTagged seen (ok outbounds) = AreDistinct outbounds × (none_in seen outbounds ≡ true)
IsTagged seen (err e) = (tag : String) × (e ≡ duplicated tag)

pub none_in-cons :
    (tag : String) (seen : List String) (outbounds : List Outbound)
    → none_in (tag ∷ seen) outbounds ≡ true
    → (has_no tag outbounds ≡ true) × (none_in seen outbounds ≡ true)
none_in-cons tag seen [] h = (refl, refl)
none_in-cons tag seen (o ∷ outbounds) h =
    ground (arith, none_in-cons tag seen outbounds, eq_iff tag o.tag, eq_iff o.tag tag)

IsTagged-cons :
    (seen : List String) (o : Outbound) (rest : Result StartError (List Outbound))
    → contains seen o.tag ≡ false
    → IsTagged (o.tag ∷ seen) rest
    → IsTagged seen (rest >>= λ os. ok (o ∷ os))
IsTagged-cons seen o (err e) new h = h
IsTagged-cons seen o (ok outbounds) new (d, fresh) =
    let both = none_in-cons o.tag seen outbounds fresh in ((both.0, d), ground (arith))

assign_tags-IsTagged :
    (itoa : ℕ → String) (i : ℕ) (seen : List String) (outbounds : List Outbound)
    → IsTagged seen (assign_tags itoa i seen outbounds)
unfolding assign_tags
assign_tags-IsTagged itoa i seen [] = (tt, refl)
assign_tags-IsTagged itoa i seen (o ∷ outbounds) =
    if_elim (IsTagged seen) (contains seen tag) _ _ (λ old. (tag, refl))
      (λ new.
        IsTagged-cons seen (record o { tag = tag }) _ new
          (assign_tags-IsTagged itoa (suc i) (tag ∷ seen) outbounds))
  where
    tag : String
    tag = if o.tag == "" then itoa i else o.tag

-- The tags that the first loop gives differ.
pub assign_tags-AreDistinct :
    (itoa : ℕ → String) (outbounds tagged : List Outbound)
    → assign_tags itoa 0 [] outbounds ≡ ok tagged
    → AreDistinct tagged
assign_tags-AreDistinct itoa outbounds tagged h =
    (subst (IsTagged []) h (assign_tags-IsTagged itoa 0 [] outbounds)).0
