-- ===== src/Provider/Local.antt =====
-- LocalProvider of provider/local.go: a provider that reads its subscription from a file.
pub mod Again
mod Tests
use sfa_provider.Prelude.{
  ℕ, String, Option, none, some, Bool, true, false, List, ◌==◌, string_key, ℕ_key, Comparable,
  Result, ok, err, if◌then◌else◌,
}
use sfa_provider.Boot.{Names}
use sfa_provider.Provider.{Options, Filters, ProviderAdapter}
use sfa_provider.Provider.Update.{
  Sources, Groups, UpdateError, Updated, update_provider_from_content,
}

pub record SubInfo : Type 0 where
  pub upload : ℕ
  pub download : ℕ
  pub total : ℕ
  pub expire : ℕ

-- `updating` is set while a call of UpdateProvider runs.
pub record LocalProvider : Type 0 where
  pub adapter : ProviderAdapter
  pub updating : Bool
  pub last_updated : ℕ
  pub sub_info : SubInfo

-- A file with the time of its change and its text.
pub record File : Type 0 where
  pub mod_time : ℕ
  pub text : String

pub data LocalError : Type 0 where
  is_updating : LocalError
  update_failed : UpdateError → LocalError

-- The state after UpdateProvider, and its error.
pub record LocalUpdate (G : Type 0) : Type 0 where
  pub provider : LocalProvider
  pub groups : List G
  pub error : Option LocalError

module _ {G : Type 0} where
  -- UpdateProvider after updateProviderFromContent.
  abbrev pub finish :
      LocalProvider
      → ℕ
      → SubInfo
      → List G
      → ProviderAdapter
      → Result UpdateError Bool
      → LocalUpdate G
  finish p time info groups adapter (err e) = record {
    provider = record p { adapter = adapter };
    groups = groups;
    error = some (update_failed e);
  }
  finish p time info groups adapter (ok changed) = record {
    provider = record p { adapter = adapter; sub_info = info; last_updated = time };
    groups = groups;
    error = none;
  }

  abbrev pub finish_update : LocalProvider → ℕ → SubInfo → Updated G → LocalUpdate G
  finish_update p time info u = finish p time info u.groups u.provider u.outcome

  abbrev pub unchanged : LocalProvider → List G → Option LocalError → LocalUpdate G
  unchanged p groups e = record { provider = p; groups = groups; error = e }

-- UpdateProvider: `file` is what stands at the path, and `get_content` is getContentFromFile, from the
-- text of the file.
unfoldable pub update_provider :
    ⦃deep_equal : Comparable Options⦄ {G : Type 0}
    → (String → SubInfo × String)
    → Names
    → Groups G
    → Sources
    → Filters
    → List String
    → List G
    → Option File
    → LocalProvider
    → LocalUpdate G
update_provider get_content names api sources filters others groups none p =
    if p.updating then unchanged p groups (some is_updating) else unchanged p groups none
update_provider get_content names api sources filters others groups (some file) p =
    let content = get_content file.text in
    let u =
      update_provider_from_content names api sources filters others groups p.adapter
        (sources.decode content.1) in
    if p.updating
    then unchanged p groups (some is_updating)
    else if file.mod_time == p.last_updated
    then unchanged p groups none
    else if content.1 == ""
    then unchanged p groups none
    else finish_update p file.mod_time content.0 u
