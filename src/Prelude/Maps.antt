-- ===== src/Prelude/Maps.antt =====
-- HashMap and HashSet as functions, with the updates the program makes. A key that is not there
-- answers `none`; two maps with the same lookups are equal.
use mathlib.Core.Bool.{Bool, true, false}
use mathlib.Core.Option.{Option, none, some}
use cooperative_systems_spac.Prelude.Tests.{if◌then◌else◌, Eq, ◌==◌}

abbrev pub Map {ℓ κ} : Type ℓ → Type κ → Type (ℓ ⊔ κ)
Map K V = K → Option V

module _ {ℓ κ} {K : Type ℓ} {V : Type κ} where
  abbrev pub empty_map : Map K V
  empty_map k = none

  -- `retain(|k, v| keep(k, v))`
  abbrev pub retain : (K → V → Bool) → Map K V → Map K V
  retain keep m j = elim (m j) [ none ↦ none | some v ↦ if keep j v then some v else none ]

module _ {ℓ κ} {K : Type ℓ} ⦃e : Eq K⦄ {V : Type κ} where
  abbrev pub insert : K → V → Map K V → Map K V
  insert k v m j = if k == j then some v else m j

  abbrev pub remove : K → Map K V → Map K V
  remove k m j = if k == j then none else m j

  -- `entry(k).or_insert(v)`: an entry that is there stays.
  abbrev pub or_insert : K → V → Map K V → Map K V
  or_insert k v m = elim (m k) [ none ↦ insert k v m | some _ ↦ m ]

-- `contains_key`, `is_some_and`, `unwrap_or`
abbrev pub is_some {ℓ} : {A : Type ℓ} → Option A → Bool
is_some none = false
is_some (some _) = true

abbrev pub is_some_and {ℓ} : {A : Type ℓ} → (A → Bool) → Option A → Bool
is_some_and p none = false
is_some_and p (some a) = p a

abbrev pub is_none_or {ℓ} : {A : Type ℓ} → (A → Bool) → Option A → Bool
is_none_or p none = true
is_none_or p (some a) = p a

abbrev pub unwrap_or {ℓ} : {A : Type ℓ} → A → Option A → A
unwrap_or d none = d
unwrap_or d (some a) = a

abbrev pub or_else {ℓ} : {A : Type ℓ} → Option A → Option A → Option A
or_else none other = other
or_else (some a) other = some a
