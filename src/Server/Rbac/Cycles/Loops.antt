-- ===== src/Server/Rbac/Cycles/Loops.antt =====
-- Chains of inheritance, and the roles above which none comes back.
use cooperative_systems_spac.Prelude.{ℕ}

module _ (R : ℕ → ℕ → Type 0) where
  -- At least one step of the relation.
  pub data Chain : ℕ → ℕ → Type 0 where
    one : {r p : ℕ} → R r p → Chain r p
    more : {r p q : ℕ} → R r p → Chain p q → Chain r q

  -- Every way up from the role ends.
  pub data Grounded : ℕ → Type 0 where
    grounded : (r : ℕ) → ((p : ℕ) → R r p → Grounded p) → Grounded r

module _ {R : ℕ → ℕ → Type 0} where
  pub Chain-then : {r p q : ℕ} → Chain R r p → R p q → Chain R r q
  Chain-then (Chain.one e) f = Chain.more e (Chain.one f)
  Chain-then (Chain.more e c) f = Chain.more e (Chain-then c f)

  pub Grounded-no_loop : {r : ℕ} → Grounded R r → ¬ Chain R r r
  Grounded-no_loop (Grounded.grounded r above) (Chain.one e) =
      Grounded-no_loop (above r e) (Chain.one e)
  Grounded-no_loop (Grounded.grounded r above) (Chain.more e c) =
      Grounded-no_loop (above _ e) (Chain-then c e)

-- A relation with more pairs has more chains.
pub Chain-map :
    {R S : ℕ → ℕ → Type 0} (f : (r p : ℕ) → R r p → S r p) {r p : ℕ} → Chain R r p → Chain S r p
Chain-map f (Chain.one e) = Chain.one (f _ _ e)
Chain-map f (Chain.more e c) = Chain.more (f _ _ e) (Chain-map f c)
