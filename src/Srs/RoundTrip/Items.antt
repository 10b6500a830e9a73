-- ===== src/Srs/RoundTrip/Items.antt =====
-- The items of a default rule that are no plain lists: domains, sets of addresses, AdGuard domains
-- (common/srs/binary.go).
use sfa_provider.Prelude.{
  ℕ, String, Option, none, some, Bool, true, false, not, List, [], ◌∷◌, ◌++◌, ◌&&◌, ◌==◌, ℕ_key,
  ◌≡◌, refl, ap, ◌∙◌, ok, err, ◌>>=◌, is_empty, length, if◌then◌else◌,
}
use mathlib.Core.List.{append_assoc}
use sfa_provider.Srs.Wire.{IpSet, Wire, WireLaws, concat_map}
use sfa_provider.Srs.Options.{DefaultOptions}
use sfa_provider.Srs.Writing.{write_ip_set, write_domains, write_adguard}
use sfa_provider.Srs.Reading.{cannot_decompile, read_item, read_field, from_codec, read_ip_set}
use sfa_provider.Srs.RoundTrip.Segments.{Segment, empty-Segment, item-Segment}

not_recovering : (b : Bool) → (b && true) ≡ false → b ≡ false
not_recovering true e = e
not_recovering false e = refl

module _ {M A R : Type 0} (w : Wire M A R) (recover : Bool) where
  read_ip_set-write :
      (laws : WireLaws w) (set : IpSet R) (rest : List ℕ)
      → laws.uint64.Fits (length set.rr) × laws.FitsRanges set.rr
      → read_ip_set w recover (write_ip_set w set ++ rest) ≡ ok (set, rest)
  unfolding read_ip_set write_ip_set
  read_ip_set-write laws set rest fits = simp (
    append_assoc,
    laws.uint64.read-write (length set.rr) (concat_map w.write_range set.rr ++ rest) fits.0,
    laws.read_ranges-write set.rr rest fits.1,
  )

  -- The matcher that stands for the domains and suffixes of a rule, and what recovering it gives.
  abbrev pub matcher_of : Bool → List String → List String → Option M
  matcher_of unstable domain domain_suffix =
      if is_empty domain && is_empty domain_suffix
      then none
      else some (w.new_matcher domain domain_suffix (not unstable))

  abbrev pub dumped : Option M → List String × List String
  dumped none = ([], [])
  dumped (some matcher) = if recover then w.dump matcher else ([], [])

  pub domains-Segment :
      (laws : WireLaws w) (unstable : Bool) (domain domain_suffix : List String)
      (set : Option M → List String → List String → DefaultOptions M A R)
      → laws.matcher.Fits (w.new_matcher domain domain_suffix (not unstable))
      → ((bytes : List ℕ)
          → read_item w recover 2 (set none [] []) bytes
            ≡ read_field w.matcher
                (λ m.
                  if recover then set (some m) (w.dump m).0 (w.dump m).1 else set (some m) [] [])
                bytes)
      → Segment w recover (write_domains w unstable domain domain_suffix) (set none [] []) (
          set
            (matcher_of unstable domain domain_suffix)
            (dumped (matcher_of unstable domain domain_suffix)).0
            (dumped (matcher_of unstable domain domain_suffix)).1)
  unfolding write_domains
  domains-Segment laws unstable domain domain_suffix set fits f =
      at (is_empty domain && is_empty domain_suffix)
    where
      matcher : M
      matcher = w.new_matcher domain domain_suffix (not unstable)

      chosen :
          (b : Bool)
          → (if b
              then set (some matcher) (w.dump matcher).0 (w.dump matcher).1
              else set (some matcher) [] [])
            ≡ set
                (some matcher)
                (if b then w.dump matcher else ([], [])).0
                (if b then w.dump matcher else ([], [])).1
      chosen true = refl
      chosen false = refl

      at :
          (b : Bool)
          → Segment w recover (if b then [] else 2 ∷ w.matcher.write matcher) (set none [] []) (
              set
                (if b then none else some matcher)
                (dumped (if b then none else some matcher)).0
                (dumped (if b then none else some matcher)).1)
      at true = empty-Segment w recover (set none [] [])
      at false = item-Segment w recover 2 _ (set none [] []) _ refl (λ rest.
          f (w.matcher.write matcher ++ rest)
          ∙ ap
              (λ x. from_codec x >>= λ y. ok (
                if recover
                    then set (some y.0) (w.dump y.0).0 (w.dump y.0).1
                    else set (some y.0) [] [],
                y.1,
              ))
              (laws.matcher.read-write matcher rest fits)
          ∙ ap (λ x. ok (x, rest)) (chosen recover))

  -- The bytes of an address set, and the list that recovering it gives.
  abbrev pub set_bytes : ℕ → Option (IpSet R) → List ℕ
  set_bytes item_type none = []
  set_bytes item_type (some set) = item_type ∷ write_ip_set w set

  abbrev pub printed : Option (IpSet R) → List String
  printed none = []
  printed (some set) = if recover then w.prefixes set else []

  abbrev pub FitsSet : WireLaws w → Option (IpSet R) → Type 0
  FitsSet laws none = Unit
  FitsSet laws (some set) = laws.uint64.Fits (length set.rr) × laws.FitsRanges set.rr

  pub set-Segment :
      (laws : WireLaws w) (item_type : ℕ) (o : Option (IpSet R))
      (set : Option (IpSet R) → List String → DefaultOptions M A R)
      → FitsSet laws o
      → (item_type == 255) ≡ false
      → ((bytes : List ℕ)
          → read_item w recover item_type (set none []) bytes ≡ (
              read_ip_set w recover bytes >>= λ s.
              ok (if recover then set (some s.0) (w.prefixes s.0) else set (some s.0) [], s.1)))
      → Segment w recover (set_bytes item_type o) (set none []) (set o (printed o))
  set-Segment laws item_type none set fits e f = empty-Segment w recover (set none [])
  set-Segment laws item_type (some s) set fits e f =
      item-Segment w recover item_type (write_ip_set w s) (set none []) _ e (λ rest.
        f (write_ip_set w s ++ rest)
        ∙ ap
            (λ x. x >>= λ s.
              ok (if recover then set (some s.0) (w.prefixes s.0) else set (some s.0) [], s.1))
            (read_ip_set-write laws s rest fits)
        ∙ ap (λ x. ok (x, rest)) (chosen recover))
    where
      chosen :
          (b : Bool)
          → (if b then set (some s) (w.prefixes s) else set (some s) [])
            ≡ set (some s) (if b then w.prefixes s else [])
      chosen true = refl
      chosen false = refl

  abbrev pub adguard_of : List String → Option A
  adguard_of [] = none
  adguard_of (d ∷ ds) = some (w.new_adguard (d ∷ ds))

  pub adguard-Segment :
      (laws : WireLaws w) (domains : List String) (set : Option A → DefaultOptions M A R)
      → laws.adguard.Fits (w.new_adguard domains)
      → (recover && not (is_empty domains)) ≡ false
      → ((bytes : List ℕ)
          → read_item w recover 16 (set none) bytes ≡ (
              if recover
              then err cannot_decompile
              else read_field w.adguard (λ v. set (some v)) bytes))
      → Segment w recover (write_adguard w domains) (set none) (set (adguard_of domains))
  unfolding write_adguard
  adguard-Segment laws [] set fits e f = empty-Segment w recover (set none)
  adguard-Segment laws (d ∷ ds) set fits e f =
      item-Segment w recover 16 (w.adguard.write (w.new_adguard (d ∷ ds))) (set none) _ refl
        (λ rest.
          f (w.adguard.write (w.new_adguard (d ∷ ds)) ++ rest)
          ∙ ap
              (λ b.
                if b
                then err cannot_decompile
                else read_field w.adguard (λ v. set (some v))
                    (w.adguard.write (w.new_adguard (d ∷ ds)) ++ rest))
              (not_recovering recover e)
          ∙ ap (λ x. from_codec x >>= λ y. ok (set (some y.0), y.1))
              (laws.adguard.read-write (w.new_adguard (d ∷ ds)) rest fits))
