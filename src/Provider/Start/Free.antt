-- ===== src/Provider/Start/Free.antt =====
-- The search for a number ends: a list has not all of the tags that it tries (provider/default.go).
use sfa_provider.Prelude.{
  ℕ, zero, suc, ◌<◌, ◌≤◌, String, true, false, List, [], ◌∷◌, ◌==◌, string_key, Result, ok, err,
  length, if◌then◌else◌, ◌≡◌, refl, ◌∙◌, arith, if_elim,
}
use text.Mathlib.TextEquality.{eq_iff}
use sfa_provider.Boot.{Names, contains}
use sfa_provider.Provider.Start.{StartFailure, free_tag}

-- The list without_tag a tag.
abbrev without_tag : String → List String → List String
without_tag tag [] = []
without_tag tag (t ∷ tags) = if t == tag then without_tag tag tags else t ∷ without_tag tag tags

without-le : (tag : String) (tags : List String) → length (without_tag tag tags) ≤ length tags
without-le tag [] = omega arith
without-le tag (t ∷ tags) = ground (arith, without-le tag tags)

without-less :
    (tag : String) (tags : List String)
    → contains tags tag ≡ true
    → length (without_tag tag tags) < length tags
without-less tag [] h = ground (arith)
without-less tag (t ∷ tags) h = ground (arith, without-less tag tags, without-le tag tags)

contains-without :
    (tag other : String) (tags : List String)
    → (tag == other) ≡ false
    → contains (without_tag tag tags) other ≡ contains tags other
contains-without tag other [] h = refl
contains-without tag other (t ∷ tags) h =
    ground (arith, contains-without tag other tags, eq_iff t tag, eq_iff t other, eq_iff tag other)

-- Different numbers make different tags.
abbrev pub IsInjective : Names → Type 0
IsInjective names = (tag : String) (i j : ℕ) → names.numbered tag i ≡ names.numbered tag j → i ≡ j

-- A tag that is not in the list.
abbrev pub IsFree : List String → Result StartFailure String → Type 0
IsFree seen (ok tag) = contains seen tag ≡ false
IsFree seen (err e) = ⊥

module _ (names : Names) (injective : IsInjective names) (tag : String) (seen : List String) where
  free_tag-from :
      (fuel i : ℕ) (rest : List String)
      → ((j : ℕ)
          → i ≤ j
          → contains rest (names.numbered tag j) ≡ contains seen (names.numbered tag j))
      → length rest < fuel
      → IsFree seen (free_tag names tag seen fuel i)
  unfolding free_tag
  free_tag-from zero i rest same enough = ground (arith)
  free_tag-from (suc fuel) i rest same enough =
      if_elim (IsFree seen) (contains seen (names.numbered tag i)) _ _
        (λ taken.
          free_tag-from fuel (suc i) (without_tag (names.numbered tag i) rest)
            (λ j later.
              contains-without (names.numbered tag i) (names.numbered tag j) rest (apart j later)
              ∙ same j (omega arith))
            (ground (arith, without-less (names.numbered tag i) rest, same i (omega arith))))
        (λ free. free)
    where
      apart : (j : ℕ) → suc i ≤ j → (names.numbered tag i == names.numbered tag j) ≡ false
      apart j later =
          ground (arith, eq_iff (names.numbered tag i) (names.numbered tag j), injective tag i j)

  -- Within as many rounds as there are tags, and one more.
  pub free_tag-IsFree : IsFree seen (free_tag names tag seen (suc (length seen)) 1)
  free_tag-IsFree = free_tag-from (suc (length seen)) 1 seen (λ j later. refl) (omega arith)
