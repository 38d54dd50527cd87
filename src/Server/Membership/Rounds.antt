-- ===== src/Server/Membership/Rounds.antt =====
-- server/src/membership.rs: one round of the renewal loop, in its three cases.
use cooperative_systems_spac.Prelude.{ℕ, suc, ◌≡◌, refl, Bool, true, false, some, List, pos, leb_ℤ}
use cooperative_systems_spac.Server.Rbac.{RoleGraph}
use cooperative_systems_spac.Server.Membership.{
  Calendar, MembershipConfig, Store, user_balance, charge_period, end_membership, renew, dues_due,
  advance_period,
}

module _ (graph : RoleGraph) (calendar : Calendar) (config : MembershipConfig) (active : List ℕ)
    (rounds uid now due : ℕ) (s : Store) where
  pub renew-early :
      dues_due due now config.grace_days ≡ false
      → renew graph calendar config active (suc rounds) uid now (some due) s ≡ (s, 0, false)
  unfolding renew
  renew-early early = rw (early, renew) refl

  pub renew-short :
      dues_due due now config.grace_days ≡ true
      → leb_ℤ (pos config.due_amount) (user_balance s.ledger uid) ≡ false
      → renew graph calendar config active (suc rounds) uid now (some due) s
        ≡ (end_membership graph calendar config active uid s, 0, true)
  unfolding renew
  renew-short late short = rw (late, short, renew) refl

  -- What the remaining rounds do after a charge.
  abbrev pub charged_rest : Store × ℕ × Bool
  charged_rest =
      let next = advance_period calendar due config.due_period in
      renew graph calendar config active rounds uid now (some next)
        (charge_period graph calendar config active uid now next s)

  pub renew-enough :
      dues_due due now config.grace_days ≡ true
      → leb_ℤ (pos config.due_amount) (user_balance s.ledger uid) ≡ true
      → renew graph calendar config active (suc rounds) uid now (some due) s
        ≡ (charged_rest.0, suc charged_rest.1, charged_rest.2)
  unfolding renew
  renew-enough late enough = rw (late, enough, renew) refl
