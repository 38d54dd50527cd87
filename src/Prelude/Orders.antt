-- ===== src/Prelude/Orders.antt =====
-- Orders of Rust's std: `max` and `min`, texts by their bytes, the stable sort.
use Prim.Native.Nat.{ℕ, Ordering}
use Prim.Native.String.{String, compare}
use mathlib.Core.Path.{◌≡◌, refl}
use mathlib.Core.Logic.{inl, inr}
use mathlib.Core.Bool.{Bool, true, false, ◌||◌}
use mathlib.Core.List.{List, [], ◌∷◌}
use native.Mathlib.Omega.{arith}
use cooperative_systems_spac.Prelude.Tests.{
  leb, if◌then◌else◌, Bool-cases, Eq, ◌==◌, ==_iff, string_eq,
}
use cooperative_systems_spac.Prelude.Lists.{Any, In, any}

abbrev pub max : ℕ → ℕ → ℕ
max a b = if leb a b then b else a

abbrev pub min : ℕ → ℕ → ℕ
min a b = if leb a b then a else b

-- `a <= b` on texts.
abbrev pub leb_text : String → String → Bool
leb_text a b = elim (compare a b) [ Ordering.gt ↦ false | _ ↦ true ]

module _ {ℓ} {A : Type ℓ} (le : A → A → Bool) where
  abbrev insert_sorted : A → List A → List A
  insert_sorted x [] = x ∷ []
  insert_sorted x (y ∷ ys) = if le x y then x ∷ y ∷ ys else y ∷ insert_sorted x ys

  -- `sort_by` is stable: an element goes before the first that it does not come after.
  abbrev pub sort_by : List A → List A
  sort_by [] = []
  sort_by (x ∷ xs) = insert_sorted x (sort_by xs)

  In-swap :
      (x y : A) (ys zs : List A) {z : A}
      → (In z zs → In z (x ∷ ys))
      → In z (y ∷ zs)
      → In z (x ∷ y ∷ ys)
  In-swap x y ys zs f (Any.head p) = Any.tail (Any.head p)
  In-swap x y ys zs f (Any.tail t) = elim (f t) [
    | Any.head p ↦ Any.head p
    | Any.tail u ↦ Any.tail (Any.tail u)
  ]

  insert_sorted-In : (x : A) (ys : List A) {z : A} → In z (insert_sorted x ys) → In z (x ∷ ys)
  insert_sorted-In x [] m = m
  insert_sorted-In x (y ∷ ys) m = elim (Bool-cases (le x y)) [
    | inl before ↦ rw before at m
    | inr after ↦ In-swap x y ys (insert_sorted x ys) (insert_sorted-In x ys) (rw after at m)
  ]

  pub sort_by-In : (xs : List A) {z : A} → In z (sort_by xs) → In z xs
  sort_by-In [] m = m
  sort_by-In (x ∷ xs) m = elim (insert_sorted-In x (sort_by xs) m) [
    | Any.head p ↦ Any.head p
    | Any.tail t ↦ Any.tail (sort_by-In xs t)
  ]

-- `dedup`: an element that repeats the one before it goes.
module _ {ℓ} {A : Type ℓ} ⦃eq : Eq A⦄ where
  abbrev pub dedup : List A → List A
  dedup [] = []
  dedup (x ∷ xs) = elim (dedup xs) [ [] ↦ x ∷ [] | y ∷ ys ↦ if x == y then y ∷ ys else x ∷ y ∷ ys ]

-- A BTreeSet of texts, listed in its order: `insert`, and the set of a list.
abbrev pub insert_text : String → List String → List String
insert_text x [] = x ∷ []
insert_text x (y ∷ ys) =
    let rest = insert_text x ys in
    if x == y then y ∷ ys else if leb_text x y then x ∷ y ∷ ys else y ∷ rest

abbrev pub text_set : List String → List String
text_set [] = []
text_set (x ∷ xs) = insert_text x (text_set xs)

any-insert_text :
    (p : String → Bool) (x : String) (ys : List String)
    → any p (insert_text x ys) ≡ (p x || any p ys)
any-insert_text p x [] = refl
any-insert_text p x (y ∷ ys) = elim (Bool-cases (x == y)) [
  | inl same ↦ let e : x ≡ y = (==_iff x y).0 same in rw same (rw e (ground arith))
  | inr other ↦ ground (arith, any-insert_text p x ys)
]

-- A test of some element does not see the order or the repetitions.
pub any-text_set : (p : String → Bool) (xs : List String) → any p (text_set xs) ≡ any p xs
any-text_set p [] = refl
any-text_set p (x ∷ xs) = ground (arith, any-insert_text p x (text_set xs), any-text_set p xs)
