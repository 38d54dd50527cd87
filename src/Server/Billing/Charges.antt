-- ===== src/Server/Billing/Charges.antt =====
-- server/src/tool_billing.rs: a charge against the most that a session can cost.
use cooperative_systems_spac.Prelude.{
  ℕ, ◌≡◌, refl, ◌+◌, ◌*◌, ◌≤◌, false, Option, none, some, unwrap_or, arith, inl, inr, Bool-cases,
  ltb, is_some_and,
}
use cooperative_systems_spac.Server.Billing.{Rounding, is_metered, max_session_cost, session_charge}

-- What is documented of rounding: more never rounds to less, and nothing to nothing.
pub record RoundingLaws (round : Rounding) : Type 0 where
  pub monotone : (a b : ℕ) → a ≤ b → round a ≤ round b
  pub nothing : round 0 ≡ 0

times_mono : (r a b : ℕ) → a ≤ b → r * a ≤ r * b
times_mono r a b h = grind arith

-- A charge is at most the cost of a cap that is not below the session's own, whatever was reported.
pub session_charge-le_cost :
    (round : Rounding) (laws : RoundingLaws round) (flat rate : Option ℕ)
    (effective minutes cap : ℕ)
    → minutes ≤ cap
    → session_charge round flat rate effective minutes ≤ max_session_cost round flat rate cap
unfolding session_charge max_session_cost
session_charge-le_cost round laws flat rate effective minutes cap h =
    elim (Bool-cases (ltb (minutes * 60000) effective)) [
      | inl over ↦
          let m = times_mono (unwrap_or 0 rate) (minutes * 60000) (cap * 60000) (omega arith) in
          rw over (laws.monotone _ _ (omega arith))
      | inr within ↦
          let m = times_mono (unwrap_or 0 rate) effective (cap * 60000) (ground arith) in
          rw within (laws.monotone _ _ (omega arith))
    ]

no_amount : (o : Option ℕ) → is_some_and (λ x. ltb 0 x) o ≡ false → unwrap_or 0 o ≡ 0
no_amount none h = refl
no_amount (some x) h = ground arith

-- What is not metered costs nothing.
pub max_session_cost-free :
    (round : Rounding) (laws : RoundingLaws round) (flat rate : Option ℕ) (minutes : ℕ)
    → is_metered flat rate ≡ false
    → max_session_cost round flat rate minutes ≡ 0
unfolding is_metered max_session_cost
max_session_cost-free round laws flat rate minutes h =
    let f : unwrap_or 0 flat ≡ 0 = no_amount flat (ground arith) in
    let r : unwrap_or 0 rate ≡ 0 = no_amount rate (ground arith) in
    rw (f, r) (nothing_of (0 * 60000 + 0 * (minutes * 60000)) (omega arith))
  where
    nothing_of : (n : ℕ) → n ≡ 0 → round n ≡ 0
    nothing_of n e = rw e laws.nothing

pub max_session_cost_mono :
    (round : Rounding) (laws : RoundingLaws round) (flat rate : Option ℕ) (minutes cap : ℕ)
    → minutes ≤ cap
    → max_session_cost round flat rate minutes ≤ max_session_cost round flat rate cap
unfolding max_session_cost
max_session_cost_mono round laws flat rate minutes cap h =
    let m = times_mono (unwrap_or 0 rate) (minutes * 60000) (cap * 60000) (omega arith) in
    laws.monotone _ _ (omega arith)
