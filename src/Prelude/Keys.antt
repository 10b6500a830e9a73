-- ===== src/Prelude/Keys.antt =====
-- Go's comparable types, and its maps as functions from keys: a map is only ever read at a key.
use Prim.Native.Nat.{ℕ}
use Prim.Native.String.{String}
use mathlib.Core.Path.{◌≡◌}
use mathlib.Core.Logic.{◌↔◌}
use mathlib.Core.Bool.{Bool, true}
use mathlib.Core.Option.{Option, none, some}
use text.Mathlib.Text.{◌==◌ as text_eq}
use text.Mathlib.TextEquality.{eq_iff}
use sfa_provider.Prelude.Tests.{nat_eq, nat_eq_iff, if◌then◌else◌}

-- The constraint `comparable`: `equal` is Go's `==` at the type.
pub record Comparable (K : Type 0) : Type 0 where
  pub equal : K → K → Bool
  pub equal_iff : (j k : K) → (equal j k ≡ true) ↔ (j ≡ k)

instance abbrev pub string_key : Comparable String
string_key = record { equal = text_eq; equal_iff = eq_iff }

instance abbrev pub ℕ_key : Comparable ℕ
ℕ_key = record { equal = nat_eq; equal_iff = nat_eq_iff }

abbrev pub Map : Type 0 → Type 0 → Type 0
Map K V = K → Option V

-- make(map[K]V)
abbrev pub empty_map : {K V : Type 0} → Map K V
empty_map k = none

module _ {K : Type 0} ⦃c : Comparable K⦄ where
  infix 50 ◌==◌
  abbrev pub ◌==◌ : K → K → Bool
  j == k = c.equal j k

  -- m[k] = v
  abbrev pub insert : {V : Type 0} → K → V → Map K V → Map K V
  insert k v m j = if j == k then some v else m j

  -- delete(m, k)
  abbrev pub delete : {V : Type 0} → K → Map K V → Map K V
  delete k m j = if j == k then none else m j
