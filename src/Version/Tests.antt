-- ===== src/Version/Tests.antt =====
-- Versions at concrete numbers (common/badversion/version.go).
use sfa_provider.Prelude.{true, ◌≡◌, refl}
use sfa_provider.Version.{Version, after}
use sfa_provider.Version.Order.{pre_release}

abbrev release : Version
release = record {
  major = 1;
  minor = 10;
  patch = 0;
  pre_release_identifier = "";
  pre_release_version = 0;
}

beta_earlier : after release (pre_release "beta" 3 release) ≡ true
unfolding after
beta_earlier = refl
