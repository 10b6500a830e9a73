-- ===== src/Boot/Reasons.antt =====
-- Why outbounds cannot be started, and what the searches of lintOutbound find (box_outbound.go).
use mathlib.Core.List.{Memᴰ}
use sfa_provider.Prelude.{
  String, none, some, Bool, true, false, not, List, [], ◌∷◌, ◌++◌, ◌&&◌, ◌==◌, string_key, ◌≡◌,
  refl, sym, ap, ◌∙◌, all, any, if◌then◌else◌, arith,
}
use text.Mathlib.TextEquality.{eq_iff}
use sfa_provider.Boot.{
  Outbound, StartError, circular, not_found, contains, by_tag, is_ready, find_problem, find_current,
}
use sfa_provider.Boot.Counting.{has_no, left_out}
use sfa_provider.Boot.Round.{blocked}

-- An outbound with the first tag depends on the second tag.
abbrev pub depends : List Outbound → String → String → Bool
depends outbounds a b = any (λ o. (o.tag == a) && contains o.dependencies b) outbounds

-- Each tag depends on the next.
abbrev pub chain_from : List Outbound → String → List String → Bool
chain_from outbounds a [] = true
chain_from outbounds a (b ∷ tags) = depends outbounds a b && chain_from outbounds b tags

abbrev pub is_chain : List Outbound → List String → Bool
is_chain outbounds [] = true
is_chain outbounds (a ∷ tags) = chain_from outbounds a tags

abbrev pub last : String → List String → String
last a [] = a
last a (b ∷ tags) = last b tags

-- What the error says of the outbounds: a chain of dependencies comes back to one of its tags, or an
-- outbound depends on a tag that no outbound has.
abbrev pub Explains : List Outbound → StartError → Type 0
Explains outbounds (circular tree tag) =
    (is_chain outbounds (tree ++ tag ∷ []) ≡ true) × (contains tree tag ≡ true)
Explains outbounds (not_found dependency tag) =
    (depends outbounds tag dependency ≡ true) × (has_no dependency outbounds ≡ true)
Explains outbounds _ = ⊥

pub chain_from-append :
    (outbounds : List Outbound) (a b : String) (tags : List String)
    → chain_from outbounds a tags ≡ true
    → depends outbounds (last a tags) b ≡ true
    → chain_from outbounds a (tags ++ b ∷ []) ≡ true
chain_from-append outbounds a b [] c d = ground (arith)
chain_from-append outbounds a b (x ∷ tags) c d =
    ground (arith, chain_from-append outbounds x b tags)

pub last-append : (a b : String) (tags : List String) → last a (tags ++ b ∷ []) ≡ b
last-append a b [] = refl
last-append a b (x ∷ tags) = last-append x b tags

-- A dependency that is not started.
pub find_problem-new :
    (started tags : List String)
    → all (contains started) tags ≡ false
    → (contains started (find_problem started tags) ≡ false)
      × (contains tags (find_problem started tags) ≡ true)
find_problem-new started [] h = ground (arith)
find_problem-new started (tag ∷ tags) h =
    ground (arith, find_problem-new started tags, eq_iff tag tag)

pub depends-Mem :
    (o : Outbound) (outbounds : List Outbound) (b : String)
    → Memᴰ o outbounds
    → contains o.dependencies b ≡ true
    → depends outbounds o.tag b ≡ true
depends-Mem o [] b m h = elim m [ ]
depends-Mem o (x ∷ outbounds) b (Memᴰ.head e) h =
    let same = ap (λ y. y.tag) e in
    let same_dependencies = ap (λ y. y.dependencies) e in ground (arith, eq_iff x.tag o.tag)
depends-Mem o (x ∷ outbounds) b (Memᴰ.tail m) h = ground (arith, depends-Mem o outbounds b m h)

pub blocked-Mem :
    (o : Outbound) (started : List String) (outbounds : List Outbound)
    → Memᴰ o outbounds
    → blocked started outbounds ≡ true
    → is_ready started o ≡ false
blocked-Mem o started [] m h = elim m [ ]
blocked-Mem o started (x ∷ outbounds) (Memᴰ.head e) h =
    let same = ap (is_ready started) e in ground (arith)
blocked-Mem o started (x ∷ outbounds) (Memᴰ.tail m) h =
    ground (arith, blocked-Mem o started outbounds m)

pub by_tag-none :
    (outbounds : List Outbound) (tag : String)
    → by_tag outbounds tag ≡ none
    → has_no tag outbounds ≡ true
by_tag-none [] tag h = refl
by_tag-none (o ∷ outbounds) tag h = ground (arith, by_tag-none outbounds tag)

pub by_tag-some :
    (outbounds : List Outbound) (tag : String) (o : Outbound)
    → by_tag outbounds tag ≡ some o
    → Memᴰ o outbounds × (o.tag ≡ tag)
by_tag-some [] tag o h = ground (arith)
by_tag-some (x ∷ outbounds) tag o h = at (x.tag == tag) refl h (by_tag-some outbounds tag o)
  where
    at :
        (b : Bool)
        → (x.tag == tag) ≡ b
        → (if b then some x else by_tag outbounds tag) ≡ some o
        → (by_tag outbounds tag ≡ some o → Memᴰ o outbounds × (o.tag ≡ tag))
        → Memᴰ o (x ∷ outbounds) × (o.tag ≡ tag)
    at true e found rest =
        let same : x ≡ o = cc in
        let same_tag = ap (λ y. y.tag) same in
        (Memᴰ.head (sym same), ground (arith, eq_iff x.tag tag))
    at false e found rest = (Memᴰ.tail (rest found).0, (rest found).1)

pub find_current-none :
    (started : List String) (outbounds : List Outbound)
    → find_current started outbounds ≡ none
    → left_out started outbounds ≡ 0
find_current-none started [] h = refl
find_current-none started (o ∷ outbounds) h = ground (arith, find_current-none started outbounds)

pub find_current-some :
    (started : List String) (outbounds : List Outbound) (current : Outbound)
    → find_current started outbounds ≡ some current
    → Memᴰ current outbounds × (contains started current.tag ≡ false)
find_current-some started [] current h = ground (arith)
find_current-some started (x ∷ outbounds) current h =
    at (contains started x.tag) refl h (find_current-some started outbounds current)
  where
    at :
        (b : Bool)
        → contains started x.tag ≡ b
        → (if not b then some x else find_current started outbounds) ≡ some current
        → (find_current started outbounds ≡ some current
            → Memᴰ current outbounds × (contains started current.tag ≡ false))
        → Memᴰ current (x ∷ outbounds) × (contains started current.tag ≡ false)
    at false e found rest =
        let same : x ≡ current = cc in
        (Memᴰ.head (sym same), ap (λ o. contains started o.tag) (sym same) ∙ e)
    at true e found rest = (Memᴰ.tail (rest found).0, (rest found).1)

contains-append :
    (tags : List String) (a b : String) → contains (tags ++ b ∷ []) a ≡ contains (b ∷ tags) a
contains-append [] a b = refl
contains-append (x ∷ tags) a b = ground (arith, contains-append tags a b)

-- The order of the tags does not matter to what is left out.
pub left_out-append :
    (b : String) (tags : List String) (outbounds : List Outbound)
    → left_out (tags ++ b ∷ []) outbounds ≡ left_out (b ∷ tags) outbounds
left_out-append b tags [] = refl
left_out-append b tags (o ∷ outbounds) =
    ground (arith, contains-append tags o.tag b, left_out-append b tags outbounds)
