-- ===== src/Provider/Local/Again.antt =====
-- A second call of UpdateProvider over the same file (provider/local.go).
use mathlib.Core.Path.{subst}
use sfa_provider.Prelude.{
  ℕ, String, none, some, Bool, false, List, ◌==◌, string_key, ℕ_key, Comparable, Result, ok, err,
  ◌≡◌, refl, sym, ap, ◌∙◌, arith,
}
use sfa_provider.Boot.{Names}
use sfa_provider.Provider.{Options, Filters, ProviderAdapter, filter}
use sfa_provider.Provider.Update.{
  Sources, Groups, UpdateError, Updated, update_provider_from_content,
}
use sfa_provider.Provider.Update.Retry.{AreApart, same_content_ignored}
use sfa_provider.Provider.Local.{
  SubInfo, LocalProvider, File, update_failed, finish, finish_update, update_provider,
}

finish-failed :
    {G : Type 0} (p : LocalProvider) (time : ℕ) (info : SubInfo) (groups : List G)
    (adapter : ProviderAdapter) (r : Result UpdateError Bool) (e : UpdateError)
    → (finish p time info groups adapter r).error ≡ some (update_failed e)
    → (finish p time info groups adapter r).provider ≡ record p { adapter = adapter }
finish-failed p time info groups adapter (err x) e h = refl
finish-failed p time info groups adapter (ok b) e h = absurd (ground (arith))

module _ ⦃deep_equal : Comparable Options⦄ {G : Type 0} (get_content : String → SubInfo × String)
    (names : Names) (api : Groups G) (sources : Sources) (filters : Filters) (file : File) where
  -- A call that comes to the content of the file.
  update_provider-reads :
      (others : List String) (groups : List G) (p : LocalProvider)
      → p.updating ≡ false
      → (file.mod_time == p.last_updated) ≡ false
      → ((get_content file.text).1 == "") ≡ false
      → update_provider get_content names api sources filters others groups (some file) p
        ≡ finish_update p file.mod_time (get_content file.text).0 (
            update_provider_from_content names api sources filters others groups p.adapter
              (sources.decode (get_content file.text).1))
  unfolding update_provider
  update_provider-reads others groups p idle later some_text = simp (idle, later, some_text)

  -- The content has different tags once it is filtered, and the file is newer than the last update.
  -- Where a call of UpdateProvider fails once it has read the file, the next call over the same file has
  -- no error and notes the time of the file, whatever the router then has, but has changed neither the
  -- outbounds nor the groups.
  pub second_call_succeeds :
      (others others' : List String) (groups groups' : List G) (p : LocalProvider)
      (outbounds : List Options) (e : UpdateError)
      → p.updating ≡ false
      → (file.mod_time == p.last_updated) ≡ false
      → ((get_content file.text).1 == "") ≡ false
      → sources.new_parser (sources.decode (sources.decode (get_content file.text).1))
        ≡ ok outbounds
      → AreApart (filter filters outbounds)
      → let first =
          update_provider get_content names api sources filters others groups (some file) p in
        first.error ≡ some (update_failed e)
        → update_provider get_content names api sources filters others' groups'
            (some file)
            first.provider
          ≡ record {
            provider = record first.provider {
              sub_info = (get_content file.text).0;
              last_updated = file.mod_time;
            };
            groups = groups';
            error = none;
          }
  second_call_succeeds others others' groups groups' p outbounds e idle later some_text parses apart
        fails =
      subst
        (λ x.
          update_provider get_content names api sources filters others' groups' (some file) x
          ≡ record {
            provider = record x {
              sub_info = (get_content file.text).0;
              last_updated = file.mod_time;
            };
            groups = groups';
            error = none;
          })
        (sym kept)
        (update_provider-reads others' groups' (record p { adapter = u.provider }) idle later
            some_text
          ∙ ap (finish_update (record p { adapter = u.provider }) file.mod_time info) (
              same_content_ignored names api sources filters others others' groups groups' p.adapter
                (sources.decode (get_content file.text).1) outbounds parses apart))
    where
      info : SubInfo
      info = (get_content file.text).0

      u : Updated G
      u =
          update_provider_from_content names api sources filters others groups p.adapter
            (sources.decode (get_content file.text).1)

      reads :
          update_provider get_content names api sources filters others groups (some file) p
          ≡ finish_update p file.mod_time info u
      reads = update_provider-reads others groups p idle later some_text

      kept :
          (update_provider get_content names api sources filters others groups
            (some file)
            p).provider
          ≡ record p { adapter = u.provider }
      kept =
          ap (λ r. r.provider) reads
          ∙ finish-failed p file.mod_time info u.groups u.provider u.outcome e
              (sym (ap (λ r. r.error) reads) ∙ fails)
