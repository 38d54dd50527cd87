-- ===== src/Server/Membership/Balance.antt =====
-- server/src/membership.rs: what the renewal loop does to the balances.
use cooperative_systems_spac.Prelude.{
  ℕ, zero, suc, ◌≡◌, refl, ◌∙◌, ◌+◌, ◌*◌, Bool, true, false, Option, none, some, List, ℤ, pos, ◌≤ℤ◌,
  leb_ℤ, ◌+ℤ◌, neg_ℕ, parts_add, parts_inj, nat_eq, ◌==◌, ==_refl, arith, inl, inr, Bool-cases,
  if◌then◌else◌,
}
use cooperative_systems_spac.Server.Rbac.{RoleGraph}
use cooperative_systems_spac.Server.Membership.{
  Calendar, MembershipConfig, Store, LedgerEntry, user_balance, post_dues, charge_period,
  end_membership, renew, settle_renewal, dues_due, advance_period, guard_cap,
}
use cooperative_systems_spac.Server.Membership.Rounds.{renew-early, renew-short, renew-enough}

balance-post_dues :
    (uid due now : ℕ) (ledger : List LedgerEntry)
    → user_balance (post_dues uid due now ledger) uid ≡ neg_ℕ due +ℤ user_balance ledger uid
unfolding user_balance post_dues
balance-post_dues uid due now ledger = ground (arith, ==_refl uid)

balance-other :
    (uid other due now : ℕ) (ledger : List LedgerEntry)
    → (uid == other) ≡ false
    → user_balance (post_dues uid due now ledger) other ≡ user_balance ledger other
unfolding user_balance post_dues
balance-other uid other due now ledger h = ground arith

-- A charge that the balance covers leaves a balance that is not negative, and takes off the dues.
charged_once :
    (due n : ℕ) (before after last : ℤ)
    → after ≡ neg_ℕ due +ℤ before
    → last +ℤ pos (n * due) ≡ after
    → last +ℤ pos (suc n * due) ≡ before
charged_once due n before after last e rest =
    let a = parts_add (neg_ℕ due) before in
    let b = parts_add last (pos (n * due)) in
    let c = parts_add last (pos (suc n * due)) in
    let product : suc n * due ≡ due + n * due = omega arith in
    parts_inj _ _ (ground (arith, product))

covered : (due : ℕ) (before : ℤ) → leb_ℤ (pos due) before ≡ true → pos 0 ≤ℤ (neg_ℕ due +ℤ before)
covered due before h = let a = parts_add (neg_ℕ due) before in ground arith

module _ (graph : RoleGraph) (calendar : Calendar) (config : MembershipConfig)
    (active : List ℕ) where
  -- How a renewal leaves the balances of its user and of another one.
  abbrev pub IsAccounted : ℕ → ℕ → Store → Store × ℕ × Bool → Type 0
  IsAccounted uid other s r =
      (user_balance r.0.ledger uid +ℤ pos (r.1 * config.due_amount) ≡ user_balance s.ledger uid)
      × (pos 0 ≤ℤ user_balance r.0.ledger uid)
      × (user_balance r.0.ledger other ≡ user_balance s.ledger other)
      × ((if r.2 then leb_ℤ (pos config.due_amount) (user_balance r.0.ledger uid) else false)
          ≡ false)

  add_nothing : (z : ℤ) → z +ℤ pos (0 * config.due_amount) ≡ z
  add_nothing z = let a = parts_add z (pos (0 * config.due_amount)) in parts_inj _ _ (omega arith)

  renew-IsAccounted :
      (rounds uid other now : ℕ) (next_due : Option ℕ) (s : Store)
      → (uid == other) ≡ false
      → pos 0 ≤ℤ user_balance s.ledger uid
      → IsAccounted uid other s (renew graph calendar config active rounds uid now next_due s)
  unfolding charge_period end_membership renew
  renew-IsAccounted zero uid other now next_due s apart credit = (add_nothing _, credit, refl, refl)
  renew-IsAccounted (suc rounds) uid other now none s apart credit =
      (add_nothing _, credit, refl, refl)
  renew-IsAccounted (suc rounds) uid other now (some due) s apart credit =
      elim (Bool-cases (dues_due due now config.grace_days)) [
        | inr early ↦
            rw (renew-early graph calendar config active rounds uid now due s early)
              (add_nothing _, credit, refl, refl)
        | inl late ↦ elim (Bool-cases (leb_ℤ (pos config.due_amount) (user_balance s.ledger uid))) [
          | inr short ↦
              rw (renew-short graph calendar config active rounds uid now due s late short)
                (add_nothing _, credit, refl, short)
          | inl enough ↦
              let next = advance_period calendar due config.due_period in
              let after = charge_period graph calendar config active uid now next s in
              let paid = balance-post_dues uid config.due_amount now s.ledger in
              let kept : pos 0 ≤ℤ user_balance after.ledger uid =
                rw paid (covered config.due_amount _ enough) in
              let rest = renew-IsAccounted rounds uid other now (some next) after apart kept in
              rw (renew-enough graph calendar config active rounds uid now due s late enough) (
                charged_once config.due_amount _ _ _ _ paid rest.0,
                rest.1,
                rest.2 ∙ balance-other uid other config.due_amount now s.ledger apart,
                rest.3,
              )
        ]
      ]

  -- Where a user's balance is not negative, a renewal takes exactly the dues of the periods that it
  -- charges from it and leaves it not negative, ends the membership only when what is left does not
  -- cover another period, and leaves every other user's balance as it was.
  pub settle_renewal-IsAccounted :
      (uid other now : ℕ) (s : Store)
      → (uid == other) ≡ false
      → pos 0 ≤ℤ user_balance s.ledger uid
      → IsAccounted uid other s (settle_renewal graph calendar config active uid now s)
  unfolding settle_renewal
  settle_renewal-IsAccounted uid other now s apart credit =
      renew-IsAccounted guard_cap uid other now (s.next_due uid) s apart credit
