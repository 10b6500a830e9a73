-- ===== src/Version/Order.antt =====
-- The order of versions of common/badversion/version.go.
use sfa_provider.Prelude.{ℕ, String, true, false, ◌==◌, string_key, ◌≡◌, refl, sym, arith}
use mathlib.Core.Path.{subst}
use text.Mathlib.TextEquality.{eq_iff}
use sfa_provider.Version.{Version, after, after_pre_release}

equal_sym : (a b : String) → (a == b) ≡ (b == a)
equal_sym a b = ground (arith, eq_iff a b, eq_iff b a)

apart : (a x y : String) → (x == y) ≡ false → (a == x) ≡ true → (a == y) ≡ false
apart a x y e h = subst (λ b. (b == y) ≡ false) (sym ((eq_iff a x).0 h)) e

after_pre_release_asym :
    (a b : String) (i j : ℕ) → after_pre_release a i b j ≡ true → after_pre_release b j a i ≡ false
unfolding after_pre_release
after_pre_release_asym a b i j h = ground (
  arith,
  h,
  equal_sym a b,
  apart a "rc" "beta" refl,
  apart a "beta" "alpha" refl,
  apart a "rc" "alpha" refl,
  apart b "rc" "beta" refl,
  apart b "beta" "alpha" refl,
  apart b "rc" "alpha" refl,
  apart a "beta" "rc" refl,
  apart a "alpha" "beta" refl,
  apart b "beta" "rc" refl,
  apart b "alpha" "beta" refl,
)

-- Of two versions at most one is after the other.
pub after_asym : (v w : Version) → after v w ≡ true → after w v ≡ false
unfolding after
after_asym v w h = ground (
  arith,
  h,
  after_pre_release_asym v.pre_release_identifier w.pre_release_identifier v.pre_release_version
      w.pre_release_version,
)

-- A version with another pre-release.
abbrev pub pre_release : String → ℕ → Version → Version
pre_release identifier n v = record v {
  pre_release_identifier = identifier;
  pre_release_version = n;
}

-- With the same numbers, a release candidate is after a beta and a beta after an alpha, but a
-- release candidate is not after an alpha.
pub candidate_not_after_alpha :
    (v : Version) (i j k : ℕ)
    → (after (pre_release "rc" i v) (pre_release "beta" j v) ≡ true)
      × (after (pre_release "beta" j v) (pre_release "alpha" k v) ≡ true)
      × (after (pre_release "rc" i v) (pre_release "alpha" k v) ≡ false)
unfolding after after_pre_release
candidate_not_after_alpha v i j k = (ground arith, ground arith, ground arith)
