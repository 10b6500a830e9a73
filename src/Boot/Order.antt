-- ===== src/Boot/Order.antt =====
-- Starting outbounds one at a time, each after its dependencies, as a relation that the loops of
-- startOutbounds refine (box_outbound.go).
use mathlib.Core.List.{Memᴰ}
use sfa_provider.Prelude.{
  all, suc, ◌+◌, String, none, true, false, List, [], ◌∷◌, string_key, ◌≡◌, refl, ap, length, arith,
}
use text.Mathlib.TextEquality.{eq_iff}
use sfa_provider.Boot.{Outbound, contains, is_ready}
use sfa_provider.Boot.Counting.{has_no, AreDistinct, left_out, left_out-some}

-- The tags that may have been started so far, the last one first: each is the tag of one of the
-- outbounds, whose Start had no error, was new, and came after the dependencies of the outbound.
pub data Order (outbounds : List Outbound) : List String → Type 0 where
  nothing : Order outbounds []
  next :
      {started : List String} (o : Outbound)
      → Memᴰ o outbounds
      → contains started o.tag ≡ false
      → all (contains started) o.dependencies ≡ true
      → o.starts ≡ none
      → Order outbounds started
      → Order outbounds (o.tag ∷ started)

pub has_no-Mem :
    (o : Outbound) (outbounds : List Outbound) → Memᴰ o outbounds → has_no o.tag outbounds ≡ false
has_no-Mem o [] m = elim m [ ]
has_no-Mem o (x ∷ outbounds) (Memᴰ.head e) =
    let same = ap (λ y. y.tag) e in ground (arith, eq_iff x.tag o.tag)
has_no-Mem o (x ∷ outbounds) (Memᴰ.tail m) = ground (arith, has_no-Mem o outbounds m)

pub is_ready-ready :
    (started : List String) (o : Outbound)
    → is_ready started o ≡ true
    → (contains started o.tag ≡ false) × (all (contains started) o.dependencies ≡ true)
is_ready-ready started o h = ground (arith)

left_out-none : (outbounds : List Outbound) → left_out [] outbounds ≡ length outbounds
left_out-none [] = refl
left_out-none (o ∷ outbounds) = ap suc (left_out-none outbounds)

-- Each outbound is either started or left out.
pub Order-length :
    {outbounds : List Outbound} {started : List String}
    → AreDistinct outbounds
    → Order outbounds started
    → length started + left_out started outbounds ≡ length outbounds
Order-length {outbounds} d nothing = ground (arith, left_out-none outbounds)
Order-length {outbounds} d (next {started} o m new ready s r) = ground (
  arith,
  Order-length d r,
  left_out-some o.tag started outbounds d (has_no-Mem o outbounds m) new,
)
