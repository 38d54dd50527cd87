-- ===== src/Server/Membership/Payments.antt =====
-- server/src/membership.rs: the ledger under sequences of credits, renewals and cycles.
use cooperative_systems_spac.Prelude.{
  ℕ, zero, suc, ◌≡◌, refl, true, false, Option, none, some, List, [], ◌∷◌, String, ℤ, pos, leb_ℤ,
  is_some_and, string_eq, ==_refl, arith, inl, inr, Bool-cases, Option-cases,
}
use cooperative_systems_spac.Server.Rbac.{RoleGraph}
use cooperative_systems_spac.Server.Membership.{
  Calendar, MembershipConfig, Store, LedgerEntry, LedgerEntryType, StripeInvoice, stripe_payment,
  user_balance, post_dues, charge_period, end_membership, renew, settle_renewal, dues_due,
  advance_period, guard_cap, insert_ledger_entry, ledger_entry_exists_for_reference,
  settle_after_credit, record_credit, credit_invoices, renew_all, enrolled_users, run_cycle,
}
use cooperative_systems_spac.Server.Membership.Rounds.{renew-early, renew-short, renew-enough}

-- What every entry that the program writes keeps of a ledger.
record IsKept (P : List LedgerEntry → Type 0) : Type 0 where
  inserted :
      (e : LedgerEntry) (ledger after : List LedgerEntry)
      → insert_ledger_entry e ledger ≡ some after
      → P ledger
      → P after
  charged :
      (uid due now : ℕ) (ledger : List LedgerEntry) → P ledger → P (post_dues uid due now ledger)

-- One operation of the service.
pub data Operation : Type 0 where
  credit : ℕ → LedgerEntryType → ℤ → Option String → ℕ → Operation
  renewal : ℕ → ℕ → Operation
  cycle : List ℕ → List StripeInvoice → ℕ → Operation

module _ (graph : RoleGraph) (calendar : Calendar) (config : MembershipConfig)
    (active : List ℕ) where
  abbrev pub operate : Operation → Store → Store
  operate (credit uid entry_type amount reference now) s =
      (record_credit graph calendar config active uid entry_type amount reference now s).0
  operate (renewal uid now) s = (settle_renewal graph calendar config active uid now s).0
  operate (cycle users invoices now) s =
      (run_cycle graph calendar config active users invoices now s).0

  abbrev pub operate_all : List Operation → Store → Store
  operate_all [] s = s
  operate_all (o ∷ os) s = operate_all os (operate o s)

  module _ (P : List LedgerEntry → Type 0) (kept : IsKept P) where
    renew-keeps :
        (rounds uid now : ℕ) (next_due : Option ℕ) (s : Store)
        → P s.ledger
        → P (renew graph calendar config active rounds uid now next_due s).0.ledger
    unfolding renew charge_period end_membership
    renew-keeps zero uid now next_due s p = p
    renew-keeps (suc rounds) uid now none s p = p
    renew-keeps (suc rounds) uid now (some due) s p =
        elim (Bool-cases (dues_due due now config.grace_days)) [
          | inr early ↦ rw (renew-early graph calendar config active rounds uid now due s early) p
          | inl late ↦
              elim (Bool-cases (leb_ℤ (pos config.due_amount) (user_balance s.ledger uid))) [
                | inr short ↦
                    rw (renew-short graph calendar config active rounds uid now due s late short) p
                | inl enough ↦
                    let next = advance_period calendar due config.due_period in
                    rw (renew-enough graph calendar config active rounds uid now due s late enough)
                      (renew-keeps rounds uid now (some next)
                        (charge_period graph calendar config active uid now next s)
                        (kept.charged uid config.due_amount now s.ledger p))
              ]
        ]

    settle_after_credit-keeps :
        (uid now : ℕ) (s : Store)
        → P s.ledger
        → P (settle_after_credit graph calendar config active uid now s).ledger
    unfolding settle_after_credit charge_period
    settle_after_credit-keeps uid now s p = elim (Option-cases (s.next_due uid)) [
      | inr (d, e) ↦ rw (e, settle_after_credit) p
      | inl n ↦ elim (Bool-cases (leb_ℤ (pos config.due_amount) (user_balance s.ledger uid))) [
        | inr short ↦ rw (n, short, settle_after_credit) p
        | inl enough ↦
            rw (n, enough, settle_after_credit) (kept.charged uid config.due_amount now s.ledger p)
      ]
    ]

    record_credit-keeps :
        (uid : ℕ) (entry_type : LedgerEntryType) (amount : ℤ) (reference : Option String) (now : ℕ)
        (s : Store)
        → P s.ledger
        → P
            (record_credit graph calendar config active uid entry_type amount reference now
              s).0.ledger
    unfolding record_credit insert_ledger_entry
    record_credit-keeps uid entry_type amount reference now s p =
        let entry : LedgerEntry = record {
          user_id = uid;
          entry_type = entry_type;
          amount = amount;
          occurred_at = now;
          external_reference = reference;
        } in
        elim (Bool-cases (is_some_and (ledger_entry_exists_for_reference s.ledger) reference)) [
          | inl there ↦ rw (there, record_credit) p
          | inr fresh ↦
              let inserts : insert_ledger_entry entry s.ledger ≡ some (entry ∷ s.ledger) =
                rw (fresh, insert_ledger_entry) refl in
              rw (fresh, record_credit)
                (settle_after_credit-keeps uid now (record s { ledger = entry ∷ s.ledger })
                  (kept.inserted entry s.ledger (entry ∷ s.ledger) inserts p))
        ]

    credit_invoices-keeps :
        (invoices : List StripeInvoice) (now : ℕ) (s : Store)
        → P s.ledger
        → P (credit_invoices graph calendar config active invoices now s).0.ledger
    unfolding credit_invoices
    credit_invoices-keeps [] now s p = p
    credit_invoices-keeps (inv ∷ invoices) now s p =
        credit_invoices-keeps invoices now _
          (record_credit-keeps inv.user_id stripe_payment inv.amount_paid (some inv.id) now s p)

    renew_all-keeps :
        (uids : List ℕ) (now : ℕ) (s : Store)
        → P s.ledger
        → P (renew_all graph calendar config active uids now s).0.ledger
    unfolding renew_all settle_renewal
    renew_all-keeps [] now s p = p
    renew_all-keeps (uid ∷ uids) now s p =
        renew_all-keeps uids now _ (renew-keeps guard_cap uid now (s.next_due uid) s p)

    operate-keeps : (o : Operation) (s : Store) → P s.ledger → P (operate o s).ledger
    unfolding settle_renewal run_cycle
    operate-keeps (credit uid entry_type amount reference now) s p =
        record_credit-keeps uid entry_type amount reference now s p
    operate-keeps (renewal uid now) s p = renew-keeps guard_cap uid now (s.next_due uid) s p
    operate-keeps (cycle users invoices now) s p = elim (Bool-cases config.enabled) [
      | inr disabled ↦ rw (disabled, run_cycle) p
      | inl enabled ↦
          let credited = (credit_invoices graph calendar config active invoices now s).0 in
          rw (enabled, run_cycle)
            (renew_all-keeps (enrolled_users graph calendar config active users credited) now
              credited (credit_invoices-keeps invoices now s p))
    ]

    operate_all-keeps : (os : List Operation) (s : Store) → P s.ledger → P (operate_all os s).ledger
    operate_all-keeps [] s p = p
    operate_all-keeps (o ∷ os) s p = operate_all-keeps os (operate o s) (operate-keeps o s p)

-- The references of a ledger's entries are distinct.
abbrev pub AreUnique : List LedgerEntry → Type 0
AreUnique [] = Unit
AreUnique (e ∷ ledger) =
    (is_some_and (ledger_entry_exists_for_reference ledger) e.external_reference ≡ false)
    × AreUnique ledger

-- What is inserted is in front, and its reference is not in the ledger.
insert-fresh :
    (e : LedgerEntry) (ledger after : List LedgerEntry)
    → insert_ledger_entry e ledger ≡ some after
    → (after ≡ e ∷ ledger)
      × (is_some_and (ledger_entry_exists_for_reference ledger) e.external_reference ≡ false)
unfolding insert_ledger_entry
insert-fresh e ledger after h =
    elim (Bool-cases
      (is_some_and (ledger_entry_exists_for_reference ledger) e.external_reference)) [
        | inl there ↦ cc (rw (there, insert_ledger_entry) at h)
        | inr fresh ↦ (cc (rw (fresh, insert_ledger_entry) at h), fresh)
      ]

AreUnique-IsKept : IsKept AreUnique
unfolding post_dues
AreUnique-IsKept = record {
  inserted =
      λ e ledger after h p. let front = insert-fresh e ledger after h in rw front.0 (front.1, p);
  charged = λ uid due now ledger p. (refl, p);
}

-- An entry with the reference is in the ledger.
abbrev HasReference : String → List LedgerEntry → Type 0
HasReference r ledger = ledger_entry_exists_for_reference ledger r ≡ true

HasReference-IsKept : (r : String) → IsKept (HasReference r)
unfolding post_dues ledger_entry_exists_for_reference
HasReference-IsKept r = record {
  inserted =
      λ e ledger after h p. let front = insert-fresh e ledger after h in rw front.0 (ground arith);
  charged = λ uid due now ledger p. p;
}

module _ (graph : RoleGraph) (calendar : Calendar) (config : MembershipConfig)
    (active : List ℕ) where
  -- In a ledger whose references are distinct they stay so, through any sequence of credits, renewals
  -- and cycles: no payment is credited twice.
  pub operate_all-AreUnique :
      (os : List Operation) (s : Store)
      → AreUnique s.ledger
      → AreUnique (operate_all graph calendar config active os s).ledger
  operate_all-AreUnique os s unique =
      operate_all-keeps graph calendar config active AreUnique AreUnique-IsKept os s unique

  record_credit-recorded :
      (uid : ℕ) (entry_type : LedgerEntryType) (amount : ℤ) (r : String) (now : ℕ) (s : Store)
      → HasReference r
          (record_credit graph calendar config active uid entry_type amount (some r) now s).0.ledger
  unfolding record_credit insert_ledger_entry
  record_credit-recorded uid entry_type amount r now s =
      let entry : LedgerEntry = record {
        user_id = uid;
        entry_type = entry_type;
        amount = amount;
        occurred_at = now;
        external_reference = some r;
      } in
      elim (Bool-cases (ledger_entry_exists_for_reference s.ledger r)) [
        | inl there ↦ rw (there, record_credit) there
        | inr fresh ↦
            rw (fresh, record_credit)
              (settle_after_credit-keeps graph calendar config active (HasReference r)
                (HasReference-IsKept r) uid now (record s { ledger = entry ∷ s.ledger })
                (rw (==_refl r, ledger_entry_exists_for_reference) refl))
      ]

  record_credit-repeated :
      (uid : ℕ) (entry_type : LedgerEntryType) (amount : ℤ) (r : String) (now : ℕ) (s : Store)
      → HasReference r s.ledger
      → record_credit graph calendar config active uid entry_type amount (some r) now s ≡ (s, false)
  unfolding record_credit
  record_credit-repeated uid entry_type amount r now s there = rw (there, record_credit) refl

  -- A credit with the reference posts nothing and changes nothing.
  abbrev pub IsRepeat : ℕ → LedgerEntryType → ℤ → String → ℕ → Store → Type 0
  IsRepeat uid entry_type amount r now s =
      record_credit graph calendar config active uid entry_type amount (some r) now s ≡ (s, false)

  -- After a credit with a reference, posted or not, and any operations, a credit with the same
  -- reference, whoever's and whatever its amount, posts nothing and changes nothing.
  pub record_credit-once :
      (uid other : ℕ) (entry_type other_type : LedgerEntryType) (amount other_amount : ℤ)
      (r : String) (now later : ℕ) (os : List Operation) (s : Store)
      → IsRepeat other other_type other_amount r later (
          operate_all graph calendar config active os
            (record_credit graph calendar config active uid entry_type amount (some r) now s).0)
  record_credit-once uid other entry_type other_type amount other_amount r now later os s =
      record_credit-repeated other other_type other_amount r later _ (
        operate_all-keeps graph calendar config active (HasReference r) (HasReference-IsKept r) os _
          (record_credit-recorded uid entry_type amount r now s))
