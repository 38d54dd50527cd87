-- ===== src/Server/Membership/Cycle.antt =====
-- server/src/membership.rs, `run_cycle`: what a cycle leaves due.
use cooperative_systems_spac.Prelude.{
  ℕ, zero, suc, ◌≡◌, refl, sym, ◌∙◌, ◌+◌, ◌*◌, Bool, true, false, Option, none, some, List, [], ◌∷◌,
  String, ℤ, pos, leb_ℤ, leb, is_some_and, nat_eq, ◌==◌, ==_iff, contains, arith, inl, inr,
  Bool-cases, Option-cases,
}
use cooperative_systems_spac.Server.Rbac.{RoleGraph}
use cooperative_systems_spac.Server.Membership.{
  Calendar, MembershipConfig, Store, LedgerEntry, LedgerEntryType, StripeInvoice, stripe_payment,
  user_balance, charge_period, end_membership, renew, settle_renewal, dues_due, advance_period,
  guard_cap, insert_ledger_entry, ledger_entry_exists_for_reference, settle_after_credit,
  record_credit, credit_invoices, renew_all, enrolled_users, run_cycle,
}
use cooperative_systems_spac.Server.Membership.Anniversary.{
  CalendarLaws, IsInRange, four_weeks, advance_period-later,
}
use cooperative_systems_spac.Server.Membership.Rounds.{renew-early, renew-short, renew-enough}
use cooperative_systems_spac.Server.Membership.Renewal.{settle_renewal-clears}

module _ (graph : RoleGraph) (calendar : Calendar) (config : MembershipConfig) (active : List ℕ)
    (laws : CalendarLaws calendar) (now : ℕ)
    (within : IsInRange calendar config.due_period now) where
  -- The anniversary is 1200 times 28 days old.
  abbrev pub is_far : Option ℕ → Bool
  is_far next_due = is_some_and (λ d. leb (d + guard_cap * four_weeks) now) next_due

  abbrev pub is_due : Option ℕ → Bool
  is_due next_due = is_some_and (λ d. dues_due d now config.grace_days) next_due

  renew-other :
      (rounds uid other : ℕ) (next_due : Option ℕ) (s : Store)
      → (uid == other) ≡ false
      → (renew graph calendar config active rounds uid now next_due s).0.next_due other
        ≡ s.next_due other
  unfolding renew charge_period end_membership
  renew-other zero uid other next_due s h = refl
  renew-other (suc rounds) uid other none s h = refl
  renew-other (suc rounds) uid other (some due) s h =
      elim (Bool-cases (dues_due due now config.grace_days)) [
        | inr early ↦ rw (renew-early graph calendar config active rounds uid now due s early) refl
        | inl late ↦ elim (Bool-cases (leb_ℤ (pos config.due_amount) (user_balance s.ledger uid))) [
          | inr short ↦
              rw (renew-short graph calendar config active rounds uid now due s late short)
                (ground arith)
          | inl enough ↦
              let next = advance_period calendar due config.due_period in
              rw (renew-enough graph calendar config active rounds uid now due s late enough) (
                renew-other rounds uid other (some next)
                  (charge_period graph calendar config active uid now next s) h
                ∙ ground arith)
        ]
      ]

  renew-settled :
      (rounds uid : ℕ) (next_due : Option ℕ) (s : Store)
      → is_due next_due ≡ false
      → (renew graph calendar config active rounds uid now next_due s).0 ≡ s
  unfolding renew
  renew-settled zero uid next_due s h = refl
  renew-settled (suc rounds) uid none s h = refl
  renew-settled (suc rounds) uid (some due) s h =
      rw (renew-early graph calendar config active rounds uid now due s h) refl

  -- A user whose dues are not due stays so, whoever is renewed.
  settled_stays :
      (uid u : ℕ) (s : Store)
      → is_due (s.next_due u) ≡ false
      → is_due ((settle_renewal graph calendar config active uid now s).0.next_due u) ≡ false
  unfolding settle_renewal
  settled_stays uid u s h = elim (Bool-cases (uid == u)) [
    | inl same ↦
        let e : uid ≡ u = (==_iff uid u).0 same in
        let still : is_due (s.next_due uid) ≡ false = rw e h in
        rw (renew-settled guard_cap uid (s.next_due uid) s still) h
    | inr apart ↦ rw (renew-other guard_cap uid u (s.next_due uid) s apart) h
  ]

  all_settled_stays :
      (uids : List ℕ) (u : ℕ) (s : Store)
      → is_due (s.next_due u) ≡ false
      → is_due ((renew_all graph calendar config active uids now s).0.next_due u) ≡ false
  unfolding renew_all
  all_settled_stays [] u s h = h
  all_settled_stays (uid ∷ uids) u s h =
      all_settled_stays uids u (settle_renewal graph calendar config active uid now s).0
        (settled_stays uid u s h)

  settle_renewal-other :
      (uid u : ℕ) (s : Store)
      → (uid == u) ≡ false
      → (settle_renewal graph calendar config active uid now s).0.next_due u ≡ s.next_due u
  unfolding settle_renewal
  settle_renewal-other uid u s apart = renew-other guard_cap uid u (s.next_due uid) s apart

  settle_renewal-clears_one :
      (uid u : ℕ) (s : Store)
      → uid ≡ u
      → is_far (s.next_due u) ≡ false
      → is_due ((settle_renewal graph calendar config active uid now s).0.next_due u) ≡ false
  settle_renewal-clears_one uid u s e near =
      let near_uid : is_far (s.next_due uid) ≡ false = rw e near in
      rw (sym e) (settle_renewal-clears graph calendar config active laws now within uid s near_uid)

  renew_all-clears :
      (uids : List ℕ) (u : ℕ) (s : Store)
      → is_far (s.next_due u) ≡ false
      → contains uids u ≡ true
      → is_due ((renew_all graph calendar config active uids now s).0.next_due u) ≡ false
  unfolding renew_all
  renew_all-clears [] u s near m = cc
  renew_all-clears (uid ∷ uids) u s near m = elim (Bool-cases (uid == u)) [
    | inl same ↦
        all_settled_stays uids u (settle_renewal graph calendar config active uid now s).0
          (settle_renewal-clears_one uid u s ((==_iff uid u).0 same) near)
    | inr apart ↦
        renew_all-clears uids u (settle_renewal graph calendar config active uid now s).0
          (rw (settle_renewal-other uid u s apart) near) (rw apart at m)
  ]

  settle_after_credit-near :
      (uid u : ℕ) (s : Store)
      → is_far (s.next_due u) ≡ false
      → is_far ((settle_after_credit graph calendar config active uid now s).next_due u) ≡ false
  unfolding settle_after_credit charge_period
  settle_after_credit-near uid u s near = elim (Option-cases (s.next_due uid)) [
    | inr (d, e) ↦ rw (e, settle_after_credit) near
    | inl n ↦ elim (Bool-cases (leb_ℤ (pos config.due_amount) (user_balance s.ledger uid))) [
      | inr short ↦ rw (n, short, settle_after_credit) near
      | inl enough ↦
          let later = advance_period-later calendar laws now config.due_period within in
          rw (n, enough, settle_after_credit) (ground arith)
    ]
  ]

  record_credit-near :
      (uid u : ℕ) (entry_type : LedgerEntryType) (amount : ℤ) (reference : Option String)
      (s : Store)
      → is_far (s.next_due u) ≡ false
      → is_far (
          (record_credit graph calendar config active uid entry_type amount reference now
              s).0.next_due
            u)
        ≡ false
  unfolding record_credit insert_ledger_entry
  record_credit-near uid u entry_type amount reference s near =
      let entry : LedgerEntry = record {
        user_id = uid;
        entry_type = entry_type;
        amount = amount;
        occurred_at = now;
        external_reference = reference;
      } in
      elim (Bool-cases (is_some_and (ledger_entry_exists_for_reference s.ledger) reference)) [
        | inl there ↦ rw (there, record_credit) near
        | inr fresh ↦
            rw (fresh, record_credit)
              (settle_after_credit-near uid u (record s { ledger = entry ∷ s.ledger }) near)
      ]

  credit_invoices-near :
      (invoices : List StripeInvoice) (u : ℕ) (s : Store)
      → is_far (s.next_due u) ≡ false
      → is_far ((credit_invoices graph calendar config active invoices now s).0.next_due u) ≡ false
  unfolding credit_invoices
  credit_invoices-near [] u s near = near
  credit_invoices-near (inv ∷ invoices) u s near =
      credit_invoices-near invoices u
        (record_credit graph calendar config active inv.user_id stripe_payment inv.amount_paid
          (some inv.id) now s).0
        (record_credit-near inv.user_id u stripe_payment inv.amount_paid (some inv.id) s near)

  contains-enrolled_users :
      (users : List ℕ) (u d : ℕ) (s : Store)
      → contains users u ≡ true
      → s.next_due u ≡ some d
      → contains (enrolled_users graph calendar config active users s) u ≡ true
  unfolding enrolled_users
  contains-enrolled_users [] u d s m e = cc
  contains-enrolled_users (x ∷ users) u d s m e = elim (Bool-cases (x == u)) [
    | inl same ↦
        let at_x : s.next_due x ≡ some d = rw ((==_iff x u).0 same) e in rw at_x (rw same refl)
    | inr apart ↦ ground (arith, contains-enrolled_users users u d s)
  ]

  -- Where the module is enabled, no user of the table whose anniversary is less than 1200 times 28
  -- days old has dues that are due after a cycle, whatever Stripe's invoices are.
  pub run_cycle-clears :
      (users : List ℕ) (invoices : List StripeInvoice) (u : ℕ) (s : Store)
      → config.enabled ≡ true
      → contains users u ≡ true
      → is_far (s.next_due u) ≡ false
      → is_due ((run_cycle graph calendar config active users invoices now s).0.next_due u) ≡ false
  unfolding run_cycle
  run_cycle-clears users invoices u s enabled m near =
      let credited = (credit_invoices graph calendar config active invoices now s).0 in
      let still = credit_invoices-near invoices u s near in
      let uids = enrolled_users graph calendar config active users credited in
      rw (enabled, run_cycle)
        (elim (Option-cases (credited.next_due u)) [
          | inl n ↦ all_settled_stays uids u credited (rw n refl)
          | inr (d, e) ↦
              renew_all-clears uids u credited still
                (contains-enrolled_users users u d credited m e)
        ])
