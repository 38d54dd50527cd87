-- ===== src/Prelude/AssocLists.antt =====
-- A HashMap whose entries the program walks over, as an association list: the first entry counts.
use mathlib.Core.Option.{Option, none, some}
use mathlib.Core.List.{List, [], ◌∷◌}
use cooperative_systems_spac.Prelude.Tests.{if◌then◌else◌, Eq, ◌==◌}

abbrev pub Assoc {ℓ κ} : Type ℓ → Type κ → Type (ℓ ⊔ κ)
Assoc K V = List (K × V)

module _ {ℓ κ} {K : Type ℓ} ⦃e : Eq K⦄ {V : Type κ} where
  abbrev pub lookup : K → Assoc K V → Option V
  lookup k [] = none
  lookup k ((j, v) ∷ m) = if j == k then some v else lookup k m

  -- `m.entry(k).or_insert(d)`, then the update `f` in place.
  abbrev pub upsert : K → V → (V → V) → Assoc K V → Assoc K V
  upsert k d f [] = (k, f d) ∷ []
  upsert k d f ((j, v) ∷ m) =
      let rest = upsert k d f m in if j == k then (j, f v) ∷ m else (j, v) ∷ rest

  -- `m.insert(k, v)`
  abbrev pub put : K → V → Assoc K V → Assoc K V
  put k v m = upsert k v (λ _. v) m
