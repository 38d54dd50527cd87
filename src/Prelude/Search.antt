-- ===== src/Prelude/Search.antt =====
-- What `find`, `filter` and `any` say of one another.
use Prim.Native.Nat.{◌≤◌, ◌<◌}
use mathlib.Core.Path.{◌≡◌, refl}
use mathlib.Core.Bool.{Bool, true, false, ◌&&◌}
use mathlib.Core.Logic.{inl, inr}
use mathlib.Core.Option.{none, some}
use mathlib.Core.List.{List, [], ◌∷◌}
use native.Mathlib.Omega.{arith}
use cooperative_systems_spac.Prelude.Tests.{Bool-cases}
use cooperative_systems_spac.Prelude.Lists.{any, all, filter, find, length, Any, In}

module _ {ℓ} {A : Type ℓ} (p : A → Bool) where
  pub find-none : (xs : List A) → find p xs ≡ none → any p xs ≡ false
  find-none [] h = refl
  find-none (x ∷ xs) h = ground (arith, find-none xs)

  pub find-of-any : (xs : List A) → any p xs ≡ false → find p xs ≡ none
  find-of-any [] h = refl
  find-of-any (x ∷ xs) h = ground (arith, find-of-any xs)

  pub find-holds : (xs : List A) {x : A} → find p xs ≡ some x → p x ≡ true
  find-holds [] h = cc
  find-holds (y ∷ ys) {x} h = elim (Bool-cases (p y)) [
    | inl t ↦ ground (arith, t)
    | inr f ↦ find-holds ys (rw f at h)
  ]

  pub find-In : (xs : List A) {x : A} → find p xs ≡ some x → In x xs
  find-In [] h = cc
  find-In (y ∷ ys) {x} h = elim (Bool-cases (p y)) [
    | inl t ↦ Any.head (cc (rw t at h))
    | inr f ↦ Any.tail (find-In ys (rw f at h))
  ]

  pub any_of_In : (xs : List A) {x : A} → In x xs → p x ≡ true → any p xs ≡ true
  any_of_In [] m h = elim m [ ]
  any_of_In (y ∷ ys) {x} (Any.head e) h = rw (rw (← e) at h)
  any_of_In (y ∷ ys) (Any.tail t) h = ground (arith, any_of_In ys t h)

  -- A test that holds somewhere holds at an element.
  pub In_of_any : (xs : List A) → any p xs ≡ true → (x : A) × In x xs × (p x ≡ true)
  In_of_any [] h = cc
  In_of_any (y ∷ ys) h = elim (Bool-cases (p y)) [
    | inl t ↦ (y, Any.head refl, t)
    | inr f ↦ let (x, m, t) = In_of_any ys (rw f at h) in (x, Any.tail m, t)
  ]

  pub all_at : (xs : List A) {x : A} → all p xs ≡ true → In x xs → p x ≡ true
  all_at [] h m = elim m [ ]
  all_at (y ∷ ys) h (Any.head e) = rw (← e) (ground arith)
  all_at (y ∷ ys) h (Any.tail t) = all_at ys (ground arith) t

module _ {ℓ} {A : Type ℓ} (p q : A → Bool) where
  pub any-filter : (xs : List A) → any p (filter q xs) ≡ any (λ x. q x && p x) xs
  any-filter [] = refl
  any-filter (x ∷ xs) = ground (arith, any-filter xs)

  -- Tests that agree at every element find the same.
  pub any-congr : ((x : A) → p x ≡ q x) → (xs : List A) → any p xs ≡ any q xs
  any-congr h [] = refl
  any-congr h (x ∷ xs) = ground (arith, h x, any-congr h xs)

  pub length-filter_mono :
      ((x : A) → p x ≡ true → q x ≡ true)
      → (xs : List A) → length (filter p xs) ≤ length (filter q xs)
  length-filter_mono h [] = omega arith
  length-filter_mono h (x ∷ xs) = ground (arith, h x, length-filter_mono h xs)

  -- Where `q` holds of an element that `p` refuses, fewer pass `p`.
  pub length-filter_lt :
      ((x : A) → p x ≡ true → q x ≡ true)
      → (xs : List A) {y : A} → In y xs
      → p y ≡ false
      → q y ≡ true
      → length (filter p xs) < length (filter q xs)
  length-filter_lt h [] m f t = elim m [ ]
  length-filter_lt h (x ∷ xs) {y} (Any.head e) f t =
      let f' : p x ≡ false = rw e f in
      let t' : q x ≡ true = rw e t in ground (arith, length-filter_mono h xs)
  length-filter_lt h (x ∷ xs) (Any.tail m) f t = ground (arith, h x, length-filter_lt h xs m f t)

  -- A test that is weaker at every element passes where the stronger one does.
  pub any_mono :
      ((x : A) → p x ≡ true → q x ≡ true) → (xs : List A) → any p xs ≡ true → any q xs ≡ true
  any_mono h [] e = cc
  any_mono h (x ∷ xs) e = ground (arith, h x, any_mono h xs)
