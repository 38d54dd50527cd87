-- ===== src/Server/Membership.antt =====
-- server/src/membership.rs: the ledger of dues, and who holds a membership. The tables that it reads
-- are the record `Store`; the queries are functions of server/src/database.rs on it. An amount is a
-- whole number of the currency's smallest unit that is stored (BigDecimal is exact); what only the
-- audit log, the screens and the transports read is left out, and so are failures of the database
-- but for the ledger's unique index. `Utc::now()` is one instant an operation.
mod Tables
pub mod Anniversary
pub mod Rounds
pub mod Balance
pub mod Renewal
pub mod Admins
pub mod Assignments
pub mod LastAdmin
pub mod Cycle
pub mod Entitlement
pub mod Payments
mod Examples
unfoldable pub use cooperative_systems_spac.Server.Membership.Tables.*
use cooperative_systems_spac.Prelude.{
  ℕ, zero, suc, ◌+◌, ◌*◌, Bool, true, false, ◌&&◌, ◌||◌, not, Option, none, some, List, [], ◌∷◌,
  ◌++◌, map, String, ℤ, pos, ltb_ℤ, leb_ℤ, ◌+ℤ◌, neg_ℕ, Map, insert, remove, is_some_and, unwrap_or,
  nat_eq, string_eq, ◌==◌, if◌then◌else◌, any, filter, filter_map, contains, length, leb,
}
use cooperative_systems_spac.Server.Rbac.{RoleGraph, level_of_name, has_permission, effective_level}

module _ (graph : RoleGraph) (calendar : Calendar) (config : MembershipConfig)
    (active : List ℕ) where
  -- `apply_role`, on the assignments: what it does to them.
  unfoldable pub apply_role : ℕ → Bool → List (ℕ × ℕ) → List (ℕ × ℕ)
  unfolding plan_role_transition set_user_primary_role
  apply_role uid entitled user_roles =
      let member_level = unwrap_or (pos 0) (level_of_name graph config.member_role) in
      let lapsed_level = unwrap_or (pos 0) (level_of_name graph config.lapsed_role) in
      let current_level = effective_level graph (roles_for_user user_roles uid) in
      let is_last_admin =
        user_is_admin graph user_roles uid && leb (count_active_admins graph active user_roles) 1 in
      elim (plan_role_transition current_level entitled is_last_admin config.member_role
        member_level config.lapsed_role lapsed_level) [
          | none ↦ user_roles
          | some new_role ↦ set_user_primary_role graph uid new_role user_roles
        ]

  -- The two bodies of the renewal loop: a period is charged, or the membership ends.
  unfoldable pub charge_period : ℕ → ℕ → ℕ → Store → Store
  unfolding post_dues apply_role
  charge_period uid now next s = record {
    ledger = post_dues uid config.due_amount now s.ledger;
    next_due = insert uid next s.next_due;
    user_roles = apply_role uid true s.user_roles;
  }

  unfoldable pub end_membership : ℕ → Store → Store
  unfolding apply_role
  end_membership uid s = record {
    ledger = s.ledger;
    next_due = remove uid s.next_due;
    user_roles = apply_role uid false s.user_roles;
  }

  -- After a credit: a user who is not enrolled and can pay a period becomes a member.
  unfoldable pub settle_after_credit : ℕ → ℕ → Store → Store
  unfolding charge_period
  settle_after_credit uid now s = elim (s.next_due uid) [
    | some _ ↦ s
    | none ↦
        if leb_ℤ (pos config.due_amount) (user_balance s.ledger uid)
        then charge_period uid now (advance_period calendar now config.due_period) s
        else s
  ]

  -- The store afterwards, and whether a new entry was posted.
  unfoldable pub record_credit : ℕ → LedgerEntryType → ℤ → Option String → ℕ → Store → Store × Bool
  unfolding insert_ledger_entry settle_after_credit
  record_credit uid entry_type amount reference now s =
      if is_some_and (ledger_entry_exists_for_reference s.ledger) reference
      then (s, false)
      else elim (insert_ledger_entry
          (record {
            user_id = uid;
            entry_type = entry_type;
            amount = amount;
            occurred_at = now;
            external_reference = reference;
          })
          s.ledger) [
            | none ↦ (s, false)
            | some ledger ↦ (settle_after_credit uid now (record s { ledger = ledger }), true)
          ]

  -- The renewal loop, with the rounds that `guard` leaves; what comes out beside the store is how many
  -- periods were charged and whether the membership ended.
  unfoldable pub renew : ℕ → ℕ → ℕ → Option ℕ → Store → Store × ℕ × Bool
  unfolding charge_period end_membership
  renew zero uid now next_due s = (s, 0, false)
  renew (suc rounds) uid now none s = (s, 0, false)
  renew (suc rounds) uid now (some due) s = elim (dues_due due now config.grace_days) [
    | false ↦ (s, 0, false)
    | true ↦ elim (leb_ℤ (pos config.due_amount) (user_balance s.ledger uid)) [
      | true ↦
          let next = advance_period calendar due config.due_period in
          let rest = renew rounds uid now (some next) (charge_period uid now next s) in
          (rest.0, suc rest.1, rest.2)
      | false ↦ (end_membership uid s, 0, true)
    ]
  ]

  unfoldable pub settle_renewal : ℕ → ℕ → Store → Store × ℕ × Bool
  unfolding renew
  settle_renewal uid now s = renew guard_cap uid now (s.next_due uid) s

  -- The poll's loop over the paid invoices, of all customers.
  unfoldable pub credit_invoices : List StripeInvoice → ℕ → Store → Store × ℕ
  unfolding record_credit
  credit_invoices [] now s = (s, 0)
  credit_invoices (inv ∷ invoices) now s =
      let (next, posted) =
        record_credit inv.user_id stripe_payment inv.amount_paid (some inv.id) now s in
      let rest = credit_invoices invoices now next in
      (rest.0, if posted then suc rest.1 else rest.1)

  -- The dues pass over the users who are enrolled.
  unfoldable pub renew_all : List ℕ → ℕ → Store → Store × MembershipCycleOutcome
  unfolding settle_renewal
  renew_all [] now s = (s, record { users_checked = 0; dues_charged = 0; lapsed = 0; credited = 0 })
  renew_all (uid ∷ uids) now s =
      let (next, charged, ended) = settle_renewal uid now s in
      let (last, o) = renew_all uids now next in
      (
        last,
        record {
          users_checked = suc o.users_checked;
          dues_charged = charged + o.dues_charged;
          lapsed = if ended then suc o.lapsed else o.lapsed;
          credited = o.credited;
        },
      )

  -- The users with an anniversary.
  unfoldable pub enrolled_users : List ℕ → Store → List ℕ
  enrolled_users users s = filter (λ uid. is_some_and (λ d. true) (s.next_due uid)) users

  -- One cycle over the table of users, with the invoices that Stripe answers; a module that is
  -- disabled does nothing.
  unfoldable pub run_cycle :
      List ℕ → List StripeInvoice → ℕ → Store → Store × Option MembershipCycleOutcome
  unfolding credit_invoices renew_all enrolled_users
  run_cycle users invoices now s =
      if config.enabled
      then (let (credited_store, credited) = credit_invoices invoices now s in
          let (last, o) = renew_all (enrolled_users users credited_store) now credited_store in
          (last, some (record o { credited = credited })))
      else (s, none)
