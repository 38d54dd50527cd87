-- ===== src/Prelude/Lists.antt =====
-- Lists measured by native numbers, and the executable tests and searches of Rust's iterators.
use Prim.Native.Nat.{ℕ, suc, ◌≤◌}
use mathlib.Core.Path.{◌≡◌, refl}
use mathlib.Core.Logic.{inl, inr, ◌↔◌, ◌⊎◌}
use mathlib.Core.Bool.{Bool, true, false, ◌&&◌, ◌||◌}
use mathlib.Core.Option.{Option, none, some}
use mathlib.Core.List.{List, [], ◌∷◌, ◌++◌}
use native.Mathlib.Omega.{arith}
use cooperative_systems_spac.Prelude.Tests.{Bool-cases, if◌then◌else◌, Eq, ◌==◌, ==_iff}

module _ {ℓ} {A : Type ℓ} where
  abbrev pub length : List A → ℕ
  length [] = 0
  length (_ ∷ xs) = suc (length xs)

  -- `iter().any(p)`
  abbrev pub any : (A → Bool) → List A → Bool
  any p [] = false
  any p (x ∷ xs) = p x || any p xs

  -- `iter().all(p)`
  abbrev pub all : (A → Bool) → List A → Bool
  all p [] = true
  all p (x ∷ xs) = p x && all p xs

  -- `iter().filter(p).collect()`
  abbrev pub filter : (A → Bool) → List A → List A
  filter p [] = []
  filter p (x ∷ xs) = let rest = filter p xs in if p x then x ∷ rest else rest

  -- `iter().find(p)`
  abbrev pub find : (A → Bool) → List A → Option A
  find p [] = none
  find p (x ∷ xs) = if p x then some x else find p xs

  abbrev pub is_empty : List A → Bool
  is_empty [] = true
  is_empty (_ ∷ _) = false

  -- `flat_map`, after `map`
  abbrev pub flatten : List (List A) → List A
  flatten [] = []
  flatten (xs ∷ xss) = xs ++ flatten xss

  -- A predicate of every element, and one of some element with its place.
  abbrev pub All {κ} : (A → Type κ) → List A → Type κ
  All P [] = Unit
  All P (x ∷ xs) = P x × All P xs

  pub data Any {κ} (P : A → Type κ) : List A → Type (ℓ ⊔ κ) where
    head : {x : A} {xs : List A} → P x → Any P (x ∷ xs)
    tail : {x : A} {xs : List A} → Any P xs → Any P (x ∷ xs)

  abbrev pub In : A → List A → Type ℓ
  In a xs = Any (λ x. x ≡ a) xs

module _ {ℓ} {A : Type ℓ} where
  pub In-cons : {a x : A} {xs : List A} → In a (x ∷ xs) → (x ≡ a) ⊎ In a xs
  In-cons (Any.head e) = inl e
  In-cons (Any.tail t) = inr t

  pub any_append : (p : A → Bool) (xs ys : List A) → any p (xs ++ ys) ≡ (any p xs || any p ys)
  any_append p [] ys = refl
  any_append p (x ∷ xs) ys = ground (arith, any_append p xs ys)

  pub length-filter-le : (p : A → Bool) (xs : List A) → length (filter p xs) ≤ length xs
  length-filter-le p [] = omega arith
  length-filter-le p (x ∷ xs) = ground (arith, length-filter-le p xs)

-- `filter_map`
module _ {ℓ κ} {A : Type ℓ} {B : Type κ} where
  abbrev pub filter_map : (A → Option B) → List A → List B
  filter_map f [] = []
  filter_map f (x ∷ xs) =
      let rest = filter_map f xs in elim (f x) [ none ↦ rest | some b ↦ b ∷ rest ]

module _ {ℓ} {A : Type ℓ} ⦃e : Eq A⦄ where
  -- `contains(&a)`
  abbrev pub contains : List A → A → Bool
  contains xs a = any (λ x. x == a) xs

  -- Each element stands once.
  abbrev pub AreDistinct : List A → Type 0
  AreDistinct [] = Unit
  AreDistinct (x ∷ xs) = (contains xs x ≡ false) × AreDistinct xs

  -- The same test as a predicate: `a` stands somewhere in the list.
  pub contains_iff : (xs : List A) (a : A) → (contains xs a ≡ true) ↔ In a xs
  contains_iff xs a = (forth xs, back xs)
    where
      forth : (ys : List A) → contains ys a ≡ true → In a ys
      forth [] h = cc
      forth (y ∷ ys) h = elim (Bool-cases (y == a)) [
        | inl p ↦ Any.head ((==_iff y a).0 p)
        | inr n ↦ Any.tail (forth ys (rw n at h))
      ]

      back : (ys : List A) → In a ys → contains ys a ≡ true
      back [] m = elim m [ ]
      back (y ∷ ys) (Any.head p) = ground (arith, (==_iff y a).1 p)
      back (y ∷ ys) (Any.tail t) = ground (arith, back ys t)
