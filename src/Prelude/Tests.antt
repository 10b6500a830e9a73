-- ===== src/Prelude/Tests.antt =====
-- Boolean tests on the native numbers, and the conditional.
use Prim.Native.Nat.{ℕ, compare, Ordering}
use mathlib.Core.Path.{◌≡◌, refl}
use mathlib.Core.Logic.{◌↔◌, ◌⊎◌, inl, inr}
use mathlib.Core.Bool.{Bool, true, false}
use mathlib.Core.Option.{Option, none, some}
use native.Mathlib.Omega.{arith}

abbrev pub ltb : ℕ → ℕ → Bool
ltb a b = elim (compare a b) [ Ordering.lt ↦ true | _ ↦ false ]

abbrev pub leb : ℕ → ℕ → Bool
leb a b = elim (compare a b) [ Ordering.gt ↦ false | _ ↦ true ]

abbrev pub nat_eq : ℕ → ℕ → Bool
nat_eq a b = elim (compare a b) [ Ordering.eq ↦ true | _ ↦ false ]

infix 1 if◌then◌else◌
abbrev pub if◌then◌else◌ {ℓ} : {A : Type ℓ} → Bool → A → A → A
if true then x else y = x
if false then x else y = y

pub nat_eq_iff : (a b : ℕ) → (nat_eq a b ≡ true) ↔ (a ≡ b)
nat_eq_iff a b = ground arith

-- To split on a computed value and keep the equation.
pub Bool-cases : (b : Bool) → (b ≡ true) ⊎ (b ≡ false)
Bool-cases true = inl refl
Bool-cases false = inr refl

pub Option-cases {ℓ} : {A : Type ℓ} (o : Option A) → (o ≡ none) ⊎ ((a : A) × (o ≡ some a))
Option-cases none = inl refl
Option-cases (some a) = inr (a, refl)

-- What holds of both branches holds of the conditional.
pub if_intro {ℓ κ} :
    {A : Type ℓ} (P : A → Type κ) (b : Bool) (x y : A) → P x → P y → P (if b then x else y)
if_intro P true x y p q = p
if_intro P false x y p q = q

pub if_elim {ℓ κ} :
    {A : Type ℓ} (P : A → Type κ) (b : Bool) (x y : A)
    → ((b ≡ true) → P x)
    → ((b ≡ false) → P y)
    → P (if b then x else y)
if_elim P true x y on_true on_false = on_true refl
if_elim P false x y on_true on_false = on_false refl

-- What holds of both cases, where each may use that it is the case.
pub elim_Bool {ℓ κ} :
    {A : Type ℓ} (P : A → Type κ) (b : Bool) (f t : A)
    → ((b ≡ false) → P f)
    → ((b ≡ true) → P t)
    → P (elim b as (λ x. A) [ false ↦ f | true ↦ t ])
elim_Bool P false f t on_false on_true = on_false refl
elim_Bool P true f t on_false on_true = on_true refl

pub elim_Option {ℓ κ μ} :
    {A : Type ℓ} {B : Type κ} (P : B → Type μ) (o : Option A) (n : B) (s : A → B)
    → ((o ≡ none) → P n)
    → ((a : A) → (o ≡ some a) → P (s a))
    → P (elim o as (λ x. B) [ none ↦ n | some a ↦ s a ])
elim_Option P none n s on_none on_some = on_none refl
elim_Option P (some a) n s on_none on_some = on_some a refl
