-- ===== src/Provider/Ports/Covered.antt =====
-- The ports that items stand for (outbound/group.go).
use sfa_provider.Prelude.{
  ℕ, zero, suc, ◌+◌, ◌-◌, String, Bool, true, false, Option, none, some, List, [], ◌∷◌, ◌||◌, ◌&&◌,
  ◌==◌, ℕ_key, ltb, leb, Result, ok, err, ◌>>=◌, any, if◌then◌else◌, ◌≡◌, refl, ◌∙◌, arith, if_elim,
}
use sfa_provider.Provider.Ports.{
  PortItem, single, colon, range, unmatched, add_range, end_of, add_port_item, add_port_items,
  create_ports_map,
}

abbrev pub contains_port : List ℕ → ℕ → Bool
contains_port ports port = any (λ p. p == port) ports

-- Whether the item is allowed, and the ports that it stands for.
abbrev pub is_allowed : PortItem → Bool
is_allowed (single port) = leb port 65535
is_allowed (range start end) = leb start 65535 && leb end 65535 && leb start (end_of end)
is_allowed colon = false
is_allowed unmatched = false

abbrev pub covers : ℕ → PortItem → Bool
covers p (single port) = port == p
covers p (range start end) = leb start p && leb p (end_of end)
covers p colon = false
covers p unmatched = false

add_range-covers :
    (p port n : ℕ) (ports : List ℕ)
    → contains_port (add_range port n ports) p
      ≡ (leb port p && ltb p (port + n)) || contains_port ports p
unfolding add_range
add_range-covers p port zero ports = ground (arith)
add_range-covers p port (suc n) ports =
    ground (arith, add_range-covers p (port + 1) n (port ∷ ports))

abbrev IsAdded : ℕ → PortItem → List ℕ → Result ℕ (List ℕ) → Type 0
IsAdded i item before (ok ports) =
    (is_allowed item ≡ true)
    × ((p : ℕ) → contains_port ports p ≡ (covers p item || contains_port before p))
IsAdded i item before (err j) = (is_allowed item ≡ false) × (j ≡ i)

add_port_item-IsAdded :
    (i : ℕ) (item : PortItem) (before : List ℕ)
    → IsAdded i item before (add_port_item i item before)
unfolding add_port_item
add_port_item-IsAdded i (single port) before =
    if_elim (IsAdded i (single port) before) (ltb 65535 port) _ _ (λ high. (ground (arith), refl))
      (λ fine. (ground (arith), λ p. refl))
add_port_item-IsAdded i (range start end) before =
    if_elim (IsAdded i (range start end) before) (ltb 65535 start) _ _
      (λ high. (ground (arith), refl))
      (λ low.
        if_elim (IsAdded i (range start end) before) (ltb 65535 end) _ _
          (λ high. (ground (arith), refl))
          (λ fine.
            if_elim (IsAdded i (range start end) before) (ltb (end_of end) start) _ _
              (λ empty. (ground (arith), refl))
              (λ some_ports. (
                ground (arith),
                λ p. add_range-covers p start (end_of end + 1 - start) before ∙ ground (arith),
              ))))
add_port_item-IsAdded i colon before = (refl, refl)
add_port_item-IsAdded i unmatched before = (refl, refl)

-- The position of the first item that is not allowed.
abbrev pub first_bad : (String → PortItem) → ℕ → List String → Option ℕ
first_bad read i [] = none
first_bad read i (item ∷ items) =
    if is_allowed (read item) then first_bad read (suc i) items else some i

abbrev pub any_covers : (String → PortItem) → ℕ → List String → Bool
any_covers read p items = any (λ item. covers p (read item)) items

abbrev pub IsPorts : (String → PortItem) → ℕ → List String → List ℕ → Result ℕ (List ℕ) → Type 0
IsPorts read i items before (ok ports) =
    (first_bad read i items ≡ none)
    × ((p : ℕ) → contains_port ports p ≡ (any_covers read p items || contains_port before p))
IsPorts read i items before (err j) = first_bad read i items ≡ some j

IsPorts-cons :
    (read : String → PortItem) (i : ℕ) (item : String) (items : List String) (before ports : List ℕ)
    (r : Result ℕ (List ℕ))
    → IsAdded i (read item) before (ok ports)
    → IsPorts read (suc i) items ports r
    → IsPorts read i (item ∷ items) before r
IsPorts-cons read i item items before ports (ok all_ports) (allowed, added) (none_bad, covered) =
    (ground (arith), λ p. covered p ∙ ground (arith, added p))
IsPorts-cons read i item items before ports (err j) (allowed, added) bad = ground (arith)

add_port_items-IsPorts :
    (read : String → PortItem) (i : ℕ) (items : List String) (before : List ℕ)
    → IsPorts read i items before (add_port_items read i items before)
unfolding add_port_items
add_port_items-IsPorts read i [] before = (refl, λ p. refl)
add_port_items-IsPorts read i (item ∷ items) before =
    at (add_port_item i (read item) before) (add_port_item-IsAdded i (read item) before)
      (λ ports. add_port_items-IsPorts read (suc i) items ports)
  where
    at :
        (r : Result ℕ (List ℕ))
        → IsAdded i (read item) before r
        → ((ports : List ℕ)
            → IsPorts read (suc i) items ports (add_port_items read (suc i) items ports))
        → IsPorts read i (item ∷ items) before (r >>= add_port_items read (suc i) items)
    at (ok ports) h rest = IsPorts-cons read i item items before ports _ h (rest ports)
    at (err j) (bad, same) rest = ground (arith)

-- CreatePortsMap: where every item is allowed, a port is in the map exactly if one of the items covers
-- it; or else the error names the position of the first item that is not allowed. A range without an
-- end, or with the end 0, goes up to 65535.
pub create_ports_map_lem :
    (read : String → PortItem) (items : List String)
    → IsPorts read 0 items [] (create_ports_map read items)
create_ports_map_lem read items = add_port_items-IsPorts read 0 items []
