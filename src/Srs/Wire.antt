-- ===== src/Srs/Wire.antt =====
-- What common/srs takes from its libraries: encoding/binary, varbin and the matchers of sing, netip
-- and netipx, zlib. A stream is a list of bytes; a reader returns its value with the rest.
use sfa_provider.Prelude.{ℕ, String, Option, some, Bool, List, [], ◌∷◌, ◌++◌, ◌≡◌, ◌≤◌, length}

pub record Codec (A : Type 0) : Type 0 where
  pub write : A → List ℕ
  pub read : List ℕ → Option (A × List ℕ)

-- netipx.IPSet, as common/srs sees it: a list of ranges.
pub record IpSet (R : Type 0) : Type 0 where
  pub rr : List R

-- `M`, `A` and `R` are domain.Matcher, domain.AdGuardMatcher and the data of a range of addresses.
pub record Wire (M A R : Type 0) : Type 0 where
  pub strings : Codec (List String)
  pub uint16s : Codec (List ℕ)
  pub uvarint : Codec ℕ
  pub uint64 : Codec ℕ
  pub matcher : Codec M
  pub adguard : Codec A
  pub write_range : R → List ℕ
  pub read_ranges : ℕ → List ℕ → Option (List R × List ℕ)
  -- NewMatcher(domains, suffixes, legacy) and Dump
  pub new_matcher : List String → List String → Bool → M
  pub dump : M → List String × List String
  pub new_adguard : List String → A
  -- ParsePrefix and ParseAddr, each as the range that it adds to the builder.
  pub parse_prefix : String → Option R
  pub parse_addr : String → Option R
  pub build : List R → Option (IpSet R)
  -- Prefixes, printed.
  pub prefixes : IpSet R → List String
  pub compress : List ℕ → List ℕ
  pub decompress : List ℕ → Option (List ℕ)

-- A reader gives back what was written, for the values that the format can hold, and it never has
-- more bytes left than it was given.
pub record CodecLaws {A : Type 0} (c : Codec A) : Type 1 where
  pub Fits : A → Type 0
  pub read-write : (v : A) (rest : List ℕ) → Fits v → c.read (c.write v ++ rest) ≡ some (v, rest)
  pub shrinks :
      (bytes : List ℕ) (v : A) (rest : List ℕ)
      → c.read bytes ≡ some (v, rest)
      → length rest ≤ length bytes

-- The ranges of a set, one after the other.
abbrev pub concat_map {ℓ} : {A : Type ℓ} → (A → List ℕ) → List A → List ℕ
concat_map f [] = []
concat_map f (x ∷ xs) = f x ++ concat_map f xs

pub record WireLaws {M A R : Type 0} (w : Wire M A R) : Type 1 where
  pub strings : CodecLaws w.strings
  pub uint16s : CodecLaws w.uint16s
  pub uvarint : CodecLaws w.uvarint
  pub uint64 : CodecLaws w.uint64
  pub matcher : CodecLaws w.matcher
  pub adguard : CodecLaws w.adguard
  -- An address that AddrFromIP turns into another, say an IPv4 address mapped to IPv6, does not fit.
  pub FitsRanges : List R → Type 0
  pub read_ranges-write :
      (ranges : List R) (rest : List ℕ)
      → FitsRanges ranges
      → w.read_ranges (length ranges) (concat_map w.write_range ranges ++ rest)
        ≡ some (ranges, rest)
  pub read_ranges_shrinks :
      (n : ℕ) (bytes : List ℕ) (ranges : List R) (rest : List ℕ)
      → w.read_ranges n bytes ≡ some (ranges, rest)
      → length rest ≤ length bytes
  pub decompress-compress : (bytes : List ℕ) → w.decompress (w.compress bytes) ≡ some bytes
