-- ===== src/Srs/Tests/Format.antt =====
-- A small wire format in which the codec of common/srs can be run, with its laws.
use sfa_provider.Prelude.{
  ℕ, zero, suc, String, Option, none, some, List, [], ◌∷◌, ◌++◌, ◌≡◌, refl, ap, ◌∙◌, length, ◌≤◌,
  ◌==◌, ℕ_key, string_key, if◌then◌else◌, arith,
}
use mathlib.Core.List.{map}
use sfa_provider.Srs.Wire.{Codec, CodecLaws, Wire, WireLaws, concat_map}

-- A number in a byte, a list behind its length, a name by its number.
abbrev take_n : ℕ → List ℕ → Option (List ℕ × List ℕ)
take_n zero bytes = some ([], bytes)
take_n (suc n) [] = none
take_n (suc n) (b ∷ bytes) = elim (take_n n bytes) [ none ↦ none | some r ↦ some (b ∷ r.0, r.1) ]

pub take_n-append : (xs rest : List ℕ) → take_n (length xs) (xs ++ rest) ≡ some (xs, rest)
take_n-append [] rest = refl
take_n-append (x ∷ xs) rest = simp (take_n-append xs rest)

abbrev LeftWithin : {V : Type 0} → ℕ → Option (V × List ℕ) → Type 0
LeftWithin n none = Unit
LeftWithin n (some r) = length r.1 ≤ n

pub take_n_lem : (n : ℕ) (bytes : List ℕ) → LeftWithin (length bytes) (take_n n bytes)
take_n_lem zero bytes = omega arith
take_n_lem (suc n) [] = tt
take_n_lem (suc n) (b ∷ bytes) = at (take_n n bytes) (take_n_lem n bytes)
  where
    at :
        (o : Option (List ℕ × List ℕ))
        → LeftWithin (length bytes) o
        → LeftWithin (length (b ∷ bytes)) (elim o [ none ↦ none | some r ↦ some (b ∷ r.0, r.1) ])
    at none h = tt
    at (some r) h = omega (arith, h)

pub left_shrinks :
    {V : Type 0} (n : ℕ) (o : Option (V × List ℕ)) (v : V) (rest : List ℕ)
    → LeftWithin n o
    → o ≡ some (v, rest)
    → length rest ≤ n
left_shrinks n none v rest h e = ground (arith, e)
left_shrinks n (some r) v rest h e = ground (arith, e, h)

abbrev name : ℕ → String
name n =
    if n == 1
    then "tcp"
    else if n == 2
    then "example.org"
    else if n == 3
    then "10.0.0.0/8"
    else "curl"

abbrev code : String → ℕ
code s =
    if s == "tcp" then 1 else if s == "example.org" then 2 else if s == "10.0.0.0/8" then 3 else 0

abbrev number : Codec ℕ
number = record {
  write = λ n. n ∷ [];
  read = λ bytes. elim bytes [ [] ↦ none | b ∷ rest ↦ some (b, rest) ];
}

pub number_shrinks :
    (bytes : List ℕ) (v : ℕ) (rest : List ℕ)
    → number.read bytes ≡ some (v, rest)
    → length rest ≤ length bytes
number_shrinks [] v rest e = ground (arith, e)
number_shrinks (b ∷ bytes) v rest e = ground (arith, e)

abbrev number-CodecLaws : CodecLaws number
number-CodecLaws = record {
  Fits = λ n. n ≤ 255;
  read-write = λ n rest fits. refl;
  shrinks = number_shrinks;
}

abbrev read_listing : {X : Type 0} → (ℕ → X) → List ℕ → Option (List X × List ℕ)
read_listing of_number [] = none
read_listing of_number (n ∷ bytes) = elim (take_n n bytes) [
  | none ↦ none
  | some r ↦ some (map of_number r.0, r.1)
]

abbrev listing : {X : Type 0} → (X → ℕ) → (ℕ → X) → Codec (List X)
listing number_of of_number = record {
  write = λ xs. length (map number_of xs) ∷ map number_of xs;
  read = read_listing of_number;
}

abbrev listing-CodecLaws :
    {X : Type 0} (number_of : X → ℕ) (of_number : ℕ → X) → CodecLaws (listing number_of of_number)
listing-CodecLaws {X} number_of of_number = record {
  Fits = λ xs. map of_number (map number_of xs) ≡ xs;
  read-write = λ xs rest fits.
      ap
        (λ o. elim o as (λ x. Option (List X × List ℕ)) [
          | none ↦ none
          | some r ↦ some (map of_number r.0, r.1)
        ])
        (take_n-append (map number_of xs) rest)
      ∙ ap (λ ys. some (ys, rest)) fits;
  shrinks = λ bytes v rest e.
      left_shrinks (length bytes) (read_listing of_number bytes) v rest (at bytes) e;
}
  where
    at : (bytes : List ℕ) → LeftWithin (length bytes) (read_listing of_number bytes)
    at [] = tt
    at (n ∷ bytes) = within (take_n n bytes) (take_n_lem n bytes)
      where
        within :
            (o : Option (List ℕ × List ℕ))
            → LeftWithin (length bytes) o
            → LeftWithin
                (length (n ∷ bytes))
                (elim o [ none ↦ none | some r ↦ some (map of_number r.0, r.1) ])
        within none h = tt
        within (some r) h = omega (arith, h)

pub pair_up : (ranges rest : List ℕ) → concat_map (λ r. r ∷ []) ranges ++ rest ≡ ranges ++ rest
pair_up [] rest = refl
pair_up (r ∷ ranges) rest = ap (λ xs. r ∷ xs) (pair_up ranges rest)

abbrev pub wire : Wire (List String) (List String) ℕ
wire = record {
  strings = listing code name;
  uint16s = listing (λ n. n) (λ n. n);
  uvarint = number;
  uint64 = number;
  matcher = listing code name;
  adguard = listing code name;
  write_range = λ r. r ∷ [];
  read_ranges = take_n;
  new_matcher = λ domain domain_suffix legacy. domain ++ domain_suffix;
  dump = λ m. (m, []);
  new_adguard = λ domains. domains;
  parse_prefix = λ s. if s == "10.0.0.0/8" then some 3 else none;
  parse_addr = λ s. none;
  build = λ ranges. some (record { rr = ranges });
  prefixes = λ set. map name set.rr;
  compress = λ bytes. bytes;
  decompress = λ bytes. some bytes;
}

abbrev pub wire-WireLaws : WireLaws wire
wire-WireLaws = record {
  strings = listing-CodecLaws code name;
  uint16s = listing-CodecLaws (λ n. n) (λ n. n);
  uvarint = number-CodecLaws;
  uint64 = number-CodecLaws;
  matcher = listing-CodecLaws code name;
  adguard = listing-CodecLaws code name;
  FitsRanges = λ ranges. Unit;
  read_ranges-write = λ ranges rest fits.
      ap (take_n (length ranges)) (pair_up ranges rest) ∙ take_n-append ranges rest;
  read_ranges_shrinks = λ n bytes ranges rest e.
      left_shrinks (length bytes) (take_n n bytes) ranges rest (take_n_lem n bytes) e;
  decompress-compress = λ bytes. refl;
}
