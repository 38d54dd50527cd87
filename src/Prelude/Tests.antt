-- ===== src/Prelude/Tests.antt =====
-- Boolean tests on the native numbers, the conditional, and the interface of Boolean equality.
use Prim.Native.Nat.{ℕ, compare, Ordering}
use Prim.Native.String.{String}
use mathlib.Core.Path.{◌≡◌, refl}
use mathlib.Core.Logic.{◌↔◌, ◌⊎◌, inl, inr}
use mathlib.Core.Bool.{Bool, true, false, ◌&&◌}
use mathlib.Core.Option.{Option, none, some}
use native.Mathlib.Omega.{arith}
use text.Mathlib.Text.{◌==◌ as str_eq}
use text.Mathlib.TextEquality.{eq_iff}

abbrev pub ltb : ℕ → ℕ → Bool
ltb a b = elim (compare a b) [ Ordering.lt ↦ true | _ ↦ false ]

abbrev pub leb : ℕ → ℕ → Bool
leb a b = elim (compare a b) [ Ordering.gt ↦ false | _ ↦ true ]

abbrev nat_beq : ℕ → ℕ → Bool
nat_beq a b = elim (compare a b) [ Ordering.eq ↦ true | _ ↦ false ]

infix 1 if◌then◌else◌
abbrev pub if◌then◌else◌ {ℓ} : {A : Type ℓ} → Bool → A → A → A
if true then x else y = x
if false then x else y = y

pub Bool-cases : (b : Bool) → (b ≡ true) ⊎ (b ≡ false)
Bool-cases true = inl refl
Bool-cases false = inr refl

pub Option-cases {ℓ} : {A : Type ℓ} (o : Option A) → (o ≡ none) ⊎ ((a : A) × (o ≡ some a))
Option-cases none = inl refl
Option-cases (some a) = inr (a, refl)

pub nat_beq_iff : (a b : ℕ) → (nat_beq a b ≡ true) ↔ (a ≡ b)
nat_beq_iff a b = ground arith

-- Rust's `Eq`: a test of two values, which decides whether they are the same.
pub record Eq {ℓ} (A : Type ℓ) : Type ℓ where
  pub same? : A → A → Bool
  pub decides : (x y : A) → (same? x y ≡ true) ↔ (x ≡ y)

module _ {ℓ} {A : Type ℓ} ⦃eq : Eq A⦄ where
  infix 50 ◌==◌
  abbrev pub ◌==◌ : A → A → Bool
  x == y = eq.same? x y

  pub ==_iff : (x y : A) → ((x == y) ≡ true) ↔ (x ≡ y)
  ==_iff x y = eq.decides x y

  pub ==_refl : (x : A) → (x == x) ≡ true
  ==_refl x = (eq.decides x x).1 refl

  pub ==_sym : (x y : A) → (x == y) ≡ (y == x)
  ==_sym x y = ground (arith, eq.decides x y, eq.decides y x)

  -- A test of two values that differ.
  pub ==_ne : (x y : A) → ¬ (x ≡ y) → (x == y) ≡ false
  ==_ne x y differ = elim (Bool-cases (eq.same? x y)) [
    | inl t ↦ absurd (differ ((eq.decides x y).0 t))
    | inr f ↦ f
  ]

instance abbrev pub string_eq : Eq String
string_eq = record { same? = str_eq; decides = eq_iff }

instance abbrev pub nat_eq : Eq ℕ
nat_eq = record { same? = nat_beq; decides = nat_beq_iff }

-- A pair as a key.
module _ {ℓ κ} {A : Type ℓ} {B : Type κ} ⦃a : Eq A⦄ ⦃b : Eq B⦄ where
  abbrev same_pair : A × B → A × B → Bool
  same_pair x y = (x.0 == y.0) && (x.1 == y.1)

  pub same_pair_iff : (x y : A × B) → (same_pair x y ≡ true) ↔ (x ≡ y)
  same_pair_iff (x, u) (y, v) = (
    λ h. let e = (a.decides x y).0 (ground arith) in let f = (b.decides u v).0 (ground arith) in cc,
    λ h. ground (arith, (a.decides x y).1 cc, (b.decides u v).1 cc),
  )

  instance abbrev pub pair_eq : Eq (A × B)
  pair_eq = record { same? = same_pair; decides = same_pair_iff }
