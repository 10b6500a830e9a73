-- ===== src/Version.antt =====
-- Versions of the program and of their order (common/badversion/version.go). The parser and the
-- printer, which are calls of strconv and strings, are left out, and so is the commit, which the
-- order does not read.
pub mod Order
mod Tests
use sfa_provider.Prelude.{
  ℕ, String, Bool, true, false, not, ◌&&◌, ◌==◌, string_key, ltb, if◌then◌else◌,
}

pub record Version : Type 0 where
  pub major : ℕ
  pub minor : ℕ
  pub patch : ℕ
  pub pre_release_identifier : String
  pub pre_release_version : ℕ

-- The tests of `After` on two identifiers that are not empty.
unfoldable pub after_pre_release : String → ℕ → String → ℕ → Bool
after_pre_release identifier version other other_version =
    if identifier == other
    then (if ltb other_version version then true else false)
    else if identifier == "rc" && other == "beta"
    then true
    else if identifier == "beta" && other == "rc"
    then false
    else if identifier == "beta" && other == "alpha"
    then true
    else if identifier == "alpha" && other == "beta"
    then false
    else false

-- Version.After
unfoldable pub after : Version → Version → Bool
unfolding after_pre_release
after v w =
    if ltb w.major v.major
    then true
    else if ltb v.major w.major
    then false
    else if ltb w.minor v.minor
    then true
    else if ltb v.minor w.minor
    then false
    else if ltb w.patch v.patch
    then true
    else if ltb v.patch w.patch
    then false
    else if (v.pre_release_identifier == "") && not (w.pre_release_identifier == "")
    then true
    else if not (v.pre_release_identifier == "") && (w.pre_release_identifier == "")
    then false
    else if not (v.pre_release_identifier == "") && not (w.pre_release_identifier == "")
    then after_pre_release v.pre_release_identifier v.pre_release_version w.pre_release_identifier
        w.pre_release_version
    else false
