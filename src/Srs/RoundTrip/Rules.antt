-- ===== src/Srs/RoundTrip/Rules.antt =====
-- The round trip of a rule set: the writers of common/srs/binary.go, then its readers.
use sfa_provider.Prelude.{
  ℕ, zero, suc, String, Option, none, some, Bool, true, false, List, [], ◌∷◌, ◌++◌, ◌≡◌, refl, sym,
  ap, Result, ok, err, ◌>>=◌, length, length-append, ◌+◌, ◌≤◌, arith,
}
use mathlib.Core.List.{append_assoc}
use mathlib.Core.Path.{subst}
use sfa_provider.Srs.Wire.{IpSet, Wire, WireLaws}
use sfa_provider.Srs.Options.{
  DefaultOptions, Mode, mode_and, mode_or, HeadlessRule, default_rule, logical_rule, HeadlessRules,
  nil, cons, count, no_options,
}
use sfa_provider.Srs.Writing.{
  WriteError, write_bool, mode_byte, set_of, write_cidr, write_items, write_default_rule,
}
use sfa_provider.Srs.Reading.{
  read_bool, mode_of, read_default_rule, read_rule, read_logical_rule, read_rules,
}
use sfa_provider.Srs.RoundTrip.Items.{FitsSet, set_bytes}
use sfa_provider.Srs.RoundTrip.Loaded.{loaded_set, loaded, loaded_rule, write_cidr-loaded_set}
use sfa_provider.Srs.RoundTrip.Default.{FitsDefault, default-Whole, more_fuel}

-- Two results that fail with one error, or whose values are related.
abbrev pub Both :
    {A B : Type 0} → (A → B → Type 0) → Result WriteError A → Result WriteError B → Type 0
Both P (ok a) (ok b) = P a b
Both P (err e) (err f) = e ≡ f
Both P (ok a) (err f) = ⊥
Both P (err e) (ok b) = ⊥

pub bind-Both :
    {A B C D : Type 0} (P : A → B → Type 0) (Q : C → D → Type 0) (x : Result WriteError A)
    (y : Result WriteError B) (f : A → Result WriteError C) (g : B → Result WriteError D)
    → Both P x y
    → ((a : A) (b : B) → P a b → Both Q (f a) (g b))
    → Both Q (x >>= f) (y >>= g)
bind-Both P Q (ok a) (ok b) f g h k = k a b h
bind-Both P Q (err e) (err e') f g h k = h
bind-Both P Q (ok a) (err e') f g h k = elim h [ ]
bind-Both P Q (err e) (ok b) f g h k = elim h [ ]

-- The values of the rules, and the numbers of them, are ones that the format can hold.
unfoldable mutual
  pub FitsRule :
      {M A R : Type 0} {w : Wire M A R} → WireLaws w → Bool → Bool → HeadlessRule M A R → Type 0
  FitsRule laws unstable recover (default_rule r) = FitsDefault laws unstable recover r
  FitsRule laws unstable recover (logical_rule mode rules invert) =
      laws.uvarint.Fits (count rules) × FitsRules laws unstable recover rules

  pub FitsRules :
      {M A R : Type 0} {w : Wire M A R} → WireLaws w → Bool → Bool → HeadlessRules M A R → Type 0
  FitsRules laws unstable recover nil = Unit
  FitsRules laws unstable recover (cons rule rules) =
      FitsRule laws unstable recover rule × FitsRules laws unstable recover rules

module _ {M A R : Type 0} (w : Wire M A R) (recover : Bool) where
  -- Reading the bytes of a rule, whatever follows them, with fuel for their length.
  abbrev pub RuleReads : List ℕ → HeadlessRule M A R → Type 0
  RuleReads bytes rule =
      (1 ≤ length bytes)
      × ((fuel : ℕ) (rest : List ℕ)
          → length bytes + length bytes + 1 ≤ fuel
          → read_rule w recover fuel (bytes ++ rest) ≡ ok (rule, rest))

  abbrev pub RulesRead : ℕ → List ℕ → HeadlessRules M A R → Type 0
  RulesRead n bytes rules =
      (fuel : ℕ) (rest : List ℕ)
      → length bytes + length bytes + 2 ≤ fuel
      → read_rules w recover fuel n (bytes ++ rest) ≡ ok (rules, rest)

  default_reads :
      (laws : WireLaws w) (unstable : Bool) (r : DefaultOptions M A R)
      (source ips : Option (IpSet R))
      → FitsDefault laws unstable recover r
      → FitsSet w recover laws source
      → FitsSet w recover laws ips
      → RuleReads
          (0 ∷ write_items w unstable r (set_bytes w recover 5 source) (set_bytes w recover 6 ips))
          (default_rule (loaded w unstable recover r source ips))
  unfolding read_rule
  default_reads laws unstable r source ips fits fits_source fits_ips =
      (omega arith, λ fuel rest l. at fuel rest l)
    where
      bytes : List ℕ
      bytes = write_items w unstable r (set_bytes w recover 5 source) (set_bytes w recover 6 ips)

      whole :
          (rest : List ℕ)
          → read_default_rule w recover (length (bytes ++ rest) + 1) no_options (bytes ++ rest)
            ≡ ok (loaded w unstable recover r source ips, rest)
      whole rest =
          let a =
            (default-Whole w laws unstable recover r source ips fits fits_source fits_ips).rounds
              rest in
          more_fuel w recover a.0 _ no_options (bytes ++ rest) _ a.2
            (omega (arith, a.1, length-append bytes rest))

      at :
          (fuel : ℕ) (rest : List ℕ)
          → length (0 ∷ bytes) + length (0 ∷ bytes) + 1 ≤ fuel
          → read_rule w recover fuel (0 ∷ (bytes ++ rest))
            ≡ ok (default_rule (loaded w unstable recover r source ips), rest)
      at zero rest l = ground (arith, l)
      at (suc fuel) rest l = ap (λ x. x >>= λ y. ok (default_rule y.0, y.1)) (whole rest)

  fits_set :
      (laws : WireLaws w) (unstable : Bool) (values : List String) (o : Option (IpSet R))
      → ((set : IpSet R)
          → set_of w values ≡ ok set
          → laws.uint64.Fits (length set.rr) × laws.FitsRanges set.rr)
      → loaded_set w unstable recover values ≡ ok o
      → FitsSet w recover laws o
  fits_set laws unstable values none fits h = tt
  fits_set laws unstable [] (some set) fits h = ground (arith, h)
  fits_set laws unstable (v ∷ vs) (some set) fits h = fits set (at (set_of w (v ∷ vs)) h)
    where
      at :
          (x : Result WriteError (IpSet R))
          → (x >>= λ set. ok (some set)) ≡ ok (some set)
          → x ≡ ok set
      at (ok s) e = ground (arith, e)
      at (err e') e = ground (arith, e)

  set-Both :
      {C D : Type 0} (Q : C → D → Type 0) (unstable : Bool) (item_type : ℕ) (values : List String)
      (f : List ℕ → Result WriteError C) (g : Option (IpSet R) → Result WriteError D)
      → ((o : Option (IpSet R))
          → loaded_set w unstable recover values ≡ ok o
          → Both Q (f (set_bytes w recover item_type o)) (g o))
      → Both Q (write_cidr w item_type values >>= f) (loaded_set w unstable recover values >>= g)
  set-Both Q unstable item_type values f g k =
      subst (λ x. Both Q (x >>= f) (loaded_set w unstable recover values >>= g))
        (sym (write_cidr-loaded_set w unstable recover item_type values))
        (at (loaded_set w unstable recover values) refl)
    where
      at :
          (x : Result WriteError (Option (IpSet R)))
          → loaded_set w unstable recover values ≡ x
          → Both Q ((x >>= λ o. ok (set_bytes w recover item_type o)) >>= f) (x >>= g)
      at (ok o) e = k o e
      at (err e') e = refl

  pub default-Both :
      (laws : WireLaws w) (unstable : Bool) (r : DefaultOptions M A R)
      → FitsDefault laws unstable recover r
      → Both RuleReads
          (write_default_rule w unstable r)
          (loaded_rule w unstable recover (default_rule r))
  unfolding write_default_rule loaded_rule
  default-Both laws unstable r fits =
      set-Both RuleReads unstable 5 r.source_ip_cidr _ _ (λ source e.
        set-Both RuleReads unstable 6 r.ip_cidr _ _ (λ ips e'.
          default_reads laws unstable r source ips fits
            (fits_set laws unstable r.source_ip_cidr source fits.source_ip_set e)
            (fits_set laws unstable r.ip_cidr ips fits.ip_set e')))

  pub logical_reads :
      (laws : WireLaws w) (mode : Mode) (n : ℕ) (bytes : List ℕ) (rules : HeadlessRules M A R)
      (invert : Bool)
      → laws.uvarint.Fits n
      → RulesRead n bytes rules
      → RuleReads
          (1 ∷ mode_byte mode ∷ (w.uvarint.write n ++ (bytes ++ write_bool invert)))
          (logical_rule mode rules invert)
  unfolding read_rule read_logical_rule
  logical_reads laws mode n bytes rules invert fits h = (omega arith, λ fuel rest l. at fuel rest l)
    where
      mode_of-mode_byte : (m : Mode) → mode_of (mode_byte m) ≡ ok m
      mode_of-mode_byte mode_and = refl
      mode_of-mode_byte mode_or = refl

      read_bool-write_bool :
          (b : Bool) (rest : List ℕ) → read_bool (write_bool b ++ rest) ≡ ok (b, rest)
      read_bool-write_bool true rest = refl
      read_bool-write_bool false rest = refl

      tail : List ℕ
      tail = w.uvarint.write n ++ (bytes ++ write_bool invert)

      at :
          (fuel : ℕ) (rest : List ℕ)
          → length (1 ∷ mode_byte mode ∷ tail) + length (1 ∷ mode_byte mode ∷ tail) + 1 ≤ fuel
          → read_rule w recover fuel (1 ∷ mode_byte mode ∷ (tail ++ rest))
            ≡ ok (logical_rule mode rules invert, rest)
      at zero rest l = ground (arith, l)
      at (suc zero) rest l = ground (arith, l)
      at (suc (suc fuel)) rest l = simp (
        append_assoc,
        mode_of-mode_byte mode,
        laws.uvarint.read-write n (bytes ++ (write_bool invert ++ rest)) fits,
        h fuel (write_bool invert ++ rest) (
            omega (
              arith,
              l,
              length-append (w.uvarint.write n) (bytes ++ write_bool invert),
              length-append bytes (write_bool invert),
            )),
        read_bool-write_bool invert rest,
      )

  pub cons_read :
      (n : ℕ) (bytes more : List ℕ) (rule : HeadlessRule M A R) (rules : HeadlessRules M A R)
      → RuleReads bytes rule
      → RulesRead n more rules
      → RulesRead (suc n) (bytes ++ more) (cons rule rules)
  unfolding read_rules
  cons_read n bytes more rule rules h k zero rest l = ground (arith, l)
  cons_read n bytes more rule rules h k (suc fuel) rest l =
      let e = h.1 fuel (more ++ rest) (omega (arith, l, length-append bytes more)) in
      let e' = k fuel rest (omega (arith, l, h.0, length-append bytes more)) in
      simp (append_assoc, e, e')
