-- ===== src/Boot/Counting.antt =====
-- The outbounds that are not started yet are fewer after each round (box_outbound.go).
use sfa_provider.Prelude.{
  ℕ, suc, ◌≤◌, String, Bool, true, false, not, List, [], ◌∷◌, ◌&&◌, ◌==◌, string_key, ◌≡◌, refl,
  length, if◌then◌else◌, arith,
}
use text.Mathlib.TextEquality.{eq_iff}
use sfa_provider.Boot.{Outbound, contains}

-- Whether no outbound of the list has the tag.
abbrev pub has_no : String → List Outbound → Bool
has_no tag [] = true
has_no tag (o ∷ outbounds) = not (o.tag == tag) && has_no tag outbounds

-- The tags differ.
abbrev pub AreDistinct : List Outbound → Type 0
AreDistinct [] = Unit
AreDistinct (o ∷ outbounds) = (has_no o.tag outbounds ≡ true) × AreDistinct outbounds

-- The outbounds whose tag is not among those given.
abbrev pub left_out : List String → List Outbound → ℕ
left_out tags [] = 0
left_out tags (o ∷ outbounds) =
    if contains tags o.tag then left_out tags outbounds else suc (left_out tags outbounds)

pub left_out-le :
    (tags : List String) (outbounds : List Outbound) → left_out tags outbounds ≤ length outbounds
left_out-le tags [] = omega arith
left_out-le tags (o ∷ outbounds) = ground (arith, left_out-le tags outbounds)

equal_sym : (a b : String) → (a == b) ≡ (b == a)
equal_sym a b = ground (arith, eq_iff a b, eq_iff b a)

-- A tag that no outbound of the list has changes nothing for it.
left_out-has_no :
    (tag : String) (tags : List String) (outbounds : List Outbound)
    → has_no tag outbounds ≡ true
    → left_out (tag ∷ tags) outbounds ≡ left_out tags outbounds
left_out-has_no tag tags [] h = refl
left_out-has_no tag tags (o ∷ outbounds) h =
    ground (arith, equal_sym tag o.tag, left_out-has_no tag tags outbounds)

-- A tag that an outbound of the list has, and that is new, leaves one less of them out.
pub left_out-some :
    (tag : String) (tags : List String) (outbounds : List Outbound)
    → AreDistinct outbounds
    → has_no tag outbounds ≡ false
    → contains tags tag ≡ false
    → suc (left_out (tag ∷ tags) outbounds) ≡ left_out tags outbounds
left_out-some tag tags [] d h new = ground (arith)
left_out-some tag tags (o ∷ outbounds) (d, ds) h new = ground (
  arith,
  eq_iff tag o.tag,
  eq_iff o.tag tag,
  equal_sym tag o.tag,
  left_out-has_no o.tag tags outbounds d,
  left_out-some tag tags outbounds ds,
)
