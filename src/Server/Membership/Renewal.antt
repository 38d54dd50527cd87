-- ===== src/Server/Membership/Renewal.antt =====
-- server/src/membership.rs: the renewal loop ends because nothing is due, not because of its cap.
use cooperative_systems_spac.Prelude.{
  ℕ, zero, suc, ◌≡◌, refl, ◌+◌, ◌*◌, ◌<◌, ◌≤◌, Bool, true, false, Option, none, some, List, pos,
  leb_ℤ, is_some_and, leb, nat_eq, ==_refl, arith, inl, inr, Bool-cases,
}
use cooperative_systems_spac.Server.Rbac.{RoleGraph}
use cooperative_systems_spac.Server.Membership.{
  Calendar, MembershipConfig, Store, user_balance, charge_period, end_membership, renew,
  settle_renewal, dues_due, advance_period, guard_cap,
}
use cooperative_systems_spac.Server.Membership.Anniversary.{
  CalendarLaws, IsInRange, four_weeks, advance_period-later,
}
use cooperative_systems_spac.Server.Membership.Rounds.{renew-early, renew-short, renew-enough}

module _ (graph : RoleGraph) (calendar : Calendar) (config : MembershipConfig) (active : List ℕ)
    (laws : CalendarLaws calendar) (now : ℕ)
    (within : IsInRange calendar config.due_period now) where
  -- The user has an anniversary whose dues are due now.
  abbrev pub is_owing : ℕ → Store → Bool
  is_owing uid s = is_some_and (λ d. dues_due d now config.grace_days) (s.next_due uid)

  -- The rounds suffice: that many times 28 days lead past now.
  abbrev IsNear : ℕ → Option ℕ → Type 0
  IsNear rounds none = Unit
  IsNear rounds (some d) = now < d + rounds * four_weeks

  next-IsNear :
      (rounds d : ℕ)
      → now < d + suc rounds * four_weeks
      → d ≤ now
      → now < advance_period calendar d config.due_period + rounds * four_weeks
  next-IsNear rounds d h due =
      let later =
        advance_period-later calendar laws d config.due_period (λ t t_le. within t (omega arith)) in
      omega arith

  due-past : (d : ℕ) → dues_due d now config.grace_days ≡ true → d ≤ now
  unfolding dues_due
  due-past d h = ground arith

  renew-clears :
      (rounds uid : ℕ) (next_due : Option ℕ) (s : Store)
      → s.next_due uid ≡ next_due
      → IsNear rounds next_due
      → is_owing uid (renew graph calendar config active rounds uid now next_due s).0 ≡ false
  unfolding renew charge_period end_membership dues_due
  renew-clears zero uid none s e near = rw e refl
  renew-clears zero uid (some d) s e near = rw e (ground arith)
  renew-clears (suc rounds) uid none s e near = rw e refl
  renew-clears (suc rounds) uid (some d) s e near =
      elim (Bool-cases (dues_due d now config.grace_days)) [
        | inr early ↦
            rw (renew-early graph calendar config active rounds uid now d s early) (rw e early)
        | inl late ↦ elim (Bool-cases (leb_ℤ (pos config.due_amount) (user_balance s.ledger uid))) [
          | inr short ↦
              rw (renew-short graph calendar config active rounds uid now d s late short)
                (rw (==_refl uid) refl)
          | inl enough ↦
              let next = advance_period calendar d config.due_period in
              rw (renew-enough graph calendar config active rounds uid now d s late enough) (
                renew-clears rounds uid (some next)
                  (charge_period graph calendar config active uid now next s)
                  (rw (==_refl uid) refl) (next-IsNear rounds d near (due-past d late)))
        ]
      ]

  IsNear-guard_cap :
      (next_due : Option ℕ)
      → is_some_and (λ d. leb (d + guard_cap * four_weeks) now) next_due ≡ false
      → IsNear guard_cap next_due
  IsNear-guard_cap none h = tt
  IsNear-guard_cap (some d) h = ground arith

  -- With an anniversary that is less than 1200 times 28 days old, a renewal leaves its user without an
  -- anniversary whose dues are due: the loop ends by itself and not by its cap.
  pub settle_renewal-clears :
      (uid : ℕ) (s : Store)
      → (is_some_and (λ d. leb (d + guard_cap * four_weeks) now) (s.next_due uid)) ≡ false
      → is_owing uid (settle_renewal graph calendar config active uid now s).0 ≡ false
  unfolding settle_renewal
  settle_renewal-clears uid s near =
      renew-clears guard_cap uid (s.next_due uid) s refl (IsNear-guard_cap (s.next_due uid) near)
