-- ===== src/Prelude/Members.antt =====
-- What stands in a list that is joined, filtered, mapped or reversed.
use Prim.Native.Nat.{◌+◌}
use mathlib.Core.Path.{◌≡◌, refl, ap}
use mathlib.Core.Logic.{inl, inr, ◌⊎◌}
use mathlib.Core.Bool.{Bool, true, false}
use mathlib.Core.List.{List, [], ◌∷◌, ◌++◌, map, reverse_aux}
use native.Mathlib.Omega.{arith}
use cooperative_systems_spac.Prelude.Tests.{Bool-cases, if◌then◌else◌}
use cooperative_systems_spac.Prelude.Lists.{In, In-cons, Any, filter, length}

module _ {ℓ} {A : Type ℓ} where
  pub In_of_filter :
      (p : A → Bool) (xs : List A) {x : A} → In x (filter p xs) → In x xs × (p x ≡ true)
  In_of_filter p [] m = elim m [ ]
  In_of_filter p (y ∷ ys) {x} m = elim (Bool-cases (p y)) [
    | inl t ↦ kept (In-cons (rw t at m)) t (λ i. In_of_filter p ys i)
    | inr f ↦ let i = In_of_filter p ys (rw f at m) in (Any.tail i.0, i.1)
  ]
    where
      kept :
          (y ≡ x) ⊎ In x (filter p ys)
          → p y ≡ true
          → (In x (filter p ys) → In x ys × (p x ≡ true))
          → In x (y ∷ ys) × (p x ≡ true)
      kept (inl e) t rest = (Any.head e, rw (← e) t)
      kept (inr i) t rest = let j = rest i in (Any.tail j.0, j.1)

  pub In_of_append : (xs ys : List A) {x : A} → In x (xs ++ ys) → In x xs ⊎ In x ys
  In_of_append [] ys m = inr m
  In_of_append (z ∷ zs) ys (Any.head e) = inl (Any.head e)
  In_of_append (z ∷ zs) ys (Any.tail m) = elim (In_of_append zs ys m) [
    | inl i ↦ inl (Any.tail i)
    | inr i ↦ inr i
  ]

  pub In-append : (xs ys : List A) {x : A} → In x xs ⊎ In x ys → In x (xs ++ ys)
  In-append [] ys (inl m) = elim m [ ]
  In-append (z ∷ zs) ys (inl (Any.head e)) = Any.head e
  In-append (z ∷ zs) ys (inl (Any.tail m)) = Any.tail (In-append zs ys (inl m))
  In-append [] ys (inr m) = m
  In-append (z ∷ zs) ys (inr m) = Any.tail (In-append zs ys (inr m))

  pub In-filter : (p : A → Bool) (xs : List A) {x : A} → In x xs → p x ≡ true → In x (filter p xs)
  In-filter p [] m t = elim m [ ]
  In-filter p (y ∷ ys) (Any.head e) t = rw (rw (← e) at t) (Any.head e)
  In-filter p (y ∷ ys) {x} (Any.tail m) t = go (p y) (In-filter p ys m t)
    where
      go : (b : Bool) → In x (filter p ys) → In x (if b then y ∷ filter p ys else filter p ys)
      go true i = Any.tail i
      go false i = i

module _ {ℓ κ} {A : Type ℓ} {B : Type κ} (f : A → B) where
  pub In-map : (xs : List A) {x : A} → In x xs → In (f x) (map f xs)
  In-map [] m = elim m [ ]
  In-map (y ∷ ys) (Any.head e) = Any.head (ap f e)
  In-map (y ∷ ys) (Any.tail m) = Any.tail (In-map ys m)

  pub In_of_map : (xs : List A) {y : B} → In y (map f xs) → (x : A) × In x xs × (f x ≡ y)
  In_of_map [] m = elim m [ ]
  In_of_map (x ∷ xs) (Any.head e) = (x, Any.head refl, e)
  In_of_map (x ∷ xs) (Any.tail m) = let (z, i, e) = In_of_map xs m in (z, Any.tail i, e)

pub In_of_reverse_aux {ℓ} :
    {A : Type ℓ} {a : A} (xs ys : List A) → In a (reverse_aux xs ys) → In a xs ⊎ In a ys
In_of_reverse_aux [] ys m = inr m
In_of_reverse_aux {A = A} {a = a} (x ∷ xs) ys m = elim (In_of_reverse_aux xs (x ∷ ys) m) [
  | inl l ↦ inl (Any.tail l)
  | inr r ↦ first r
]
  where
    first : In a (x ∷ ys) → In a (x ∷ xs) ⊎ In a ys
    first (Any.head e) = inl (Any.head e)
    first (Any.tail t) = inr t

pub In-reverse_aux_right {ℓ} :
    {A : Type ℓ} {a : A} (xs ys : List A) → In a ys → In a (reverse_aux xs ys)
In-reverse_aux_right [] ys m = m
In-reverse_aux_right (x ∷ xs) ys m = In-reverse_aux_right xs (x ∷ ys) (Any.tail m)

pub In-reverse_aux_left {ℓ} :
    {A : Type ℓ} {a : A} (xs ys : List A) → In a xs → In a (reverse_aux xs ys)
In-reverse_aux_left [] ys m = elim m [ ]
In-reverse_aux_left (x ∷ xs) ys (Any.head e) = In-reverse_aux_right xs (x ∷ ys) (Any.head e)
In-reverse_aux_left (x ∷ xs) ys (Any.tail t) = In-reverse_aux_left xs (x ∷ ys) t

pub length-reverse_aux {ℓ} :
    {A : Type ℓ} (xs ys : List A) → length (reverse_aux xs ys) ≡ length xs + length ys
length-reverse_aux [] ys = omega arith
length-reverse_aux (x ∷ xs) ys = omega (arith, length-reverse_aux xs (x ∷ ys))

pub length-append {ℓ} : {A : Type ℓ} (xs ys : List A) → length (xs ++ ys) ≡ length xs + length ys
length-append [] ys = omega arith
length-append (x ∷ xs) ys = omega (arith, length-append xs ys)
