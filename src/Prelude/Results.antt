-- ===== src/Prelude/Results.antt =====
-- Rust's `Result`, with `?` as a `do` block.
use mathlib.Core.Path.{◌≡◌, refl}
use mathlib.Core.Logic.{◌⊎◌, inl, inr}
use mathlib.Core.Bool.{Bool, true, false}
use mathlib.Core.Option.{Option, none, some}
use native.Mathlib.Omega.{arith}

pub data Result {ℓ κ} (E : Type ℓ) (A : Type κ) : Type (ℓ ⊔ κ) where
  ok : A → Result E A
  err : E → Result E A

module _ {ℓ} {E : Type ℓ} where
  infixl 5 ◌>>=◌ ◌>>◌
  abbrev pub ◌>>=◌ {κ λ'} : {A : Type κ} {B : Type λ'} → Result E A → (A → Result E B) → Result E B
  ok a >>= f = f a
  err e >>= f = err e

  abbrev pub ◌>>◌ {κ} : {B : Type κ} → Result E (Unit {0}) → Result E B → Result E B
  m >> k = m >>= λ _. k

  -- An early return of an error where the test fails.
  abbrev pub guard : Bool → E → Result E (Unit {0})
  guard true e = ok tt
  guard false e = err e

  -- `ok_or`
  abbrev pub ok_or {κ} : {A : Type κ} → Option A → E → Result E A
  ok_or none e = err e
  ok_or (some a) e = ok a

-- A chain that comes to a result: every step does.
module _ {ℓ κ} {E : Type ℓ} {A : Type κ} where
  pub >>=-ok {λ'} :
      {B : Type λ'} (m : Result E A) (f : A → Result E B) (b : B)
      → (m >>= f) ≡ ok b
      → (a : A) × (m ≡ ok a) × (f a ≡ ok b)
  >>=-ok (ok a) f b h = (a, refl, h)
  >>=-ok (err e) f b h = cc

  pub ok_or-ok : (o : Option A) (e : E) (a : A) → ok_or o e ≡ ok a → o ≡ some a
  ok_or-ok none e a h = cc
  ok_or-ok (some b) e a h = ground arith

  pub guard-ok :
      (test : Bool) (e : E) (rest : Result E A) (a : A)
      → (guard test e >> rest) ≡ ok a
      → (test ≡ true) × (rest ≡ ok a)
  guard-ok true e rest a h = (refl, h)
  guard-ok false e rest a h = cc

pub guard-true {ℓ} :
    {E : Type ℓ} (test : Bool) (e : E) (u : Unit {0}) → guard test e ≡ ok u → test ≡ true
guard-true true e u h = refl
guard-true false e u h = cc

pub Result-cases {ℓ κ} :
    {E : Type ℓ} {A : Type κ} (r : Result E A) → ((e : E) × (r ≡ err e)) ⊎ ((a : A) × (r ≡ ok a))
Result-cases (ok a) = inr (a, refl)
Result-cases (err e) = inl (e, refl)

-- Where a chain comes to a result, the result has the property.
module _ {ℓ κ} {E : Type ℓ} {A : Type κ} where
  pub data Ensures {λ'} (P : A → Type λ') : Result E A → Type (ℓ ⊔ κ ⊔ λ') where
    on_ok : {a : A} → P a → Ensures P (ok a)
    on_err : {e : E} → Ensures P (err e)

pub >>=-Ensures {ℓ} :
    {E : Type ℓ} {A B : Type 0} (Q : A → Type 0) (P : B → Type 0) (m : Result E A)
    (f : A → Result E B)
    → Ensures Q m
    → ((a : A) → Q a → Ensures P (f a))
    → Ensures P (m >>= f)
>>=-Ensures Q P (ok a) f (Ensures.on_ok q) h = h a q
>>=-Ensures Q P (err e) f q h = on_err
