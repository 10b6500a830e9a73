-- ===== src/Provider/Start.antt =====
-- startOutbounds of provider/default.go: the outbounds of an update are given tags that nothing else
-- has, and are started.
pub mod Free
pub mod Distinct
use sfa_provider.Prelude.{
  ℕ, zero, suc, String, Option, none, some, Bool, true, List, [], ◌∷◌, ◌==◌, string_key, Result, ok,
  err, ◌>>=◌, Map, empty_map, length, if◌then◌else◌,
}
use sfa_provider.Boot.{Outbound, Names, contains, update_outbound_by_tag}

-- `stuck` is no error of the source but the end of the fuel.
pub data StartFailure : Type 0 where
  stuck : StartFailure
  start_failed : String → String → StartFailure

-- The loop that looks for a number, from `i` on; `seen` are the keys of outboundTag.
unfoldable pub free_tag : Names → String → List String → ℕ → ℕ → Result StartFailure String
free_tag names tag seen zero i = err stuck
free_tag names tag seen (suc fuel) i =
    let rest = free_tag names tag seen fuel (suc i) in
    if contains seen (names.numbered tag i) then rest else ok (names.numbered tag i)

-- The tag that is noted, and the outbound, which is given the tag only where it has another.
unfoldable pub claim_tag :
    Names → String → ℕ → List String → Outbound → Result StartFailure (String × Outbound)
claim_tag names provider i seen o =
    let tag = if o.tag == "" then names.placed provider i else o.tag in
    let free =
      free_tag names tag seen (suc (length seen)) 1 >>= λ t. ok (t, record o { tag = t }) in
    if contains seen tag then free else ok (tag, o)

-- The end of the body of the loop over the outbounds: `later` is the rest of the loop, after the tag
-- is noted.
abbrev pub start_claimed :
    Outbound
    → (String → Result StartFailure (List Outbound))
    → String × Outbound
    → Result StartFailure (List Outbound)
start_claimed o later (tag, claimed) = elim o.starts [
  | some e ↦ err (start_failed tag e)
  | none ↦ later tag >>= λ os. ok (claimed ∷ os)
]

-- The loop over the outbounds.
unfoldable pub start_from :
    Names → String → ℕ → List String → List Outbound → Result StartFailure (List Outbound)
start_from names provider i seen [] = ok []
start_from names provider i seen (o ∷ outbounds) =
    claim_tag names provider i seen o
    >>= start_claimed o (λ tag. start_from names provider (suc i) (tag ∷ seen) outbounds)

-- startOutbounds: `others` are the tags of the router's outbounds and of those of the other
-- providers.
unfoldable pub start_outbounds :
    Names
    → String
    → List String
    → List Outbound
    → Result StartFailure (List Outbound × Map String Outbound)
start_outbounds names provider others outbounds =
    start_from names provider 0 others outbounds >>= λ os.
    ok (os, update_outbound_by_tag os empty_map)
