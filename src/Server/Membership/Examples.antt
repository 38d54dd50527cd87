-- ===== src/Server/Membership/Examples.antt =====
-- A site with an admin and two members, a calendar of months of 30 days, and dues of 2500.
use cooperative_systems_spac.Prelude.{
  ℕ, suc, ap, ◌+ℤ◌, ◌≡◌, refl, ◌+◌, ◌*◌, ◌≤◌, true, false, none, some, List, [], ◌∷◌, pos, ◌≤ℤ◌,
  inl, empty_map, insert, nat_eq, arith, ◌/◌, ◌%◌,
}
use cooperative_systems_spac.Server.Rbac.{
  RoleGraph, from_rows, level_of_name, has_permission, closure,
}
use cooperative_systems_spac.Server.Membership.{
  Calendar, monthly, months_in, one_day, MembershipConfig, Store, stripe_payment, cash_payment,
  advance_period, settle_renewal, record_credit, run_cycle, apply_role, count_active_admins,
  user_balance, dues_due, renew, charge_period, post_dues,
}
use cooperative_systems_spac.Server.Membership.Anniversary.{CalendarLaws, IsInRange}
use cooperative_systems_spac.Server.Membership.Balance.{IsAccounted, settle_renewal-IsAccounted}
use cooperative_systems_spac.Server.Membership.Renewal.{is_owing, settle_renewal-clears}
use cooperative_systems_spac.Server.Membership.Admins.{apply_role-keeps_admin}
use cooperative_systems_spac.Server.Membership.Assignments.{
  Assignment, assign, unassign, request_all,
}
use cooperative_systems_spac.Server.Membership.LastAdmin.{request_all-keeps_admin}
use cooperative_systems_spac.Server.Membership.Cycle.{is_due, run_cycle-clears}
use cooperative_systems_spac.Server.Membership.Payments.{
  Operation, credit, renewal, cycle, operate_all, record_credit-once, IsRepeat,
}

abbrev month : ℕ
month = 2592000000000000

abbrev calendar : Calendar
calendar = record {
  day = λ t. suc ((t / one_day) % 30);
  checked_add_months = λ n t. some (t + n * month);
}

same_day : (n t : ℕ) → ((t + n * month) / one_day) % 30 ≡ (t / one_day) % 30
same_day n t =
    let moved : (t + n * month) / one_day ≡ t / one_day + n * 30 = omega arith in
    rw moved (omega arith)

calendar_laws : CalendarLaws calendar
calendar_laws = record {
  same_or_last =
      λ n t u e. let e' : t + n * month ≡ u = cc in inl (rw (← e') (ap suc (same_day n t)));
  months_long = λ n t u e. let e' : t + n * month ≡ u = cc in omega arith;
}

within : (limit : ℕ) → IsInRange calendar monthly limit
within limit t le = (t + months_in monthly * month, refl)

abbrev graph : RoleGraph
unfolding from_rows
graph =
    from_rows
      (record { id = 2; name = "historical"; level = pos 2 }
        ∷ record { id = 3; name = "active"; level = pos 3 }
        ∷ record { id = 5; name = "admin"; level = pos 5 }
        ∷ [])
      ((5, "admin.access") ∷ []) []

abbrev config : MembershipConfig
config = record {
  enabled = true;
  due_amount = 2500;
  due_period = monthly;
  grace_days = 1;
  member_role = "active";
  lapsed_role = "historical";
}

-- User 10 is the admin; 11 and 12 are members with credit for two periods and for none.
abbrev store : Store
store = record {
  ledger =
      record {
        user_id = 11;
        entry_type = stripe_payment;
        amount = pos 6000;
        occurred_at = 0;
        external_reference = some "in_1";
      }
      ∷ [];
  next_due = insert 11 month (insert 12 month empty_map);
  user_roles = (10, 5) ∷ (11, 3) ∷ (12, 3) ∷ [];
}

abbrev users : List ℕ
users = 10 ∷ 11 ∷ 12 ∷ []

-- Three months later.
abbrev now : ℕ
now = 7776000000000000

-- The first period is a month overdue, the second is due, and the balance pays both.
renewed : (settle_renewal graph calendar config users 11 now store).1 ≡ 2
unfolding settle_renewal renew charge_period post_dues advance_period user_balance dues_due ◌+ℤ◌
    graph
renewed = refl

in_credit : pos 0 ≤ℤ user_balance store.ledger 11
unfolding user_balance ◌+ℤ◌
in_credit = omega arith

settle_renewal-IsAccounted_example :
    IsAccounted graph calendar config users 11 12 store
      (settle_renewal graph calendar config users 11 now store)
settle_renewal-IsAccounted_example =
    settle_renewal-IsAccounted graph calendar config users 11 12 now store refl in_credit

settle_renewal-clears_example :
    is_owing graph calendar config users calendar_laws now
      (within now)
      11
      (settle_renewal graph calendar config users 11 now store).0
    ≡ false
settle_renewal-clears_example =
    settle_renewal-clears graph calendar config users calendar_laws now (within now) 11 store refl

an_admin : 1 ≤ count_active_admins graph users store.user_roles
unfolding count_active_admins graph has_permission closure
an_admin = omega arith

apply_role-keeps_admin_example :
    1
    ≤ count_active_admins graph users
        (apply_role graph calendar config users 10 false store.user_roles)
apply_role-keeps_admin_example =
    apply_role-keeps_admin graph calendar config users 10 store.user_roles
      (refl, (refl, (refl, tt))) an_admin

-- User 11 becomes an admin before 10 gives the role up; 11 may not do so too.
abbrev changes : List Assignment
changes = unassign 10 5 ∷ assign 11 5 ∷ unassign 10 5 ∷ unassign 11 5 ∷ []

request_all-keeps_admin_example :
    1
    ≤ count_active_admins graph users
        (request_all graph users (2 ∷ 3 ∷ 5 ∷ []) users changes store.user_roles)
request_all-keeps_admin_example =
    request_all-keeps_admin graph users (2 ∷ 3 ∷ 5 ∷ []) users changes store.user_roles
      (refl, (refl, (refl, tt))) an_admin

changed_hands :
    request_all graph users (2 ∷ 3 ∷ 5 ∷ []) users changes store.user_roles
    ≡ (11, 3) ∷ (12, 3) ∷ (11, 5) ∷ []
unfolding request_all graph has_permission closure count_active_admins
changed_hands = refl

active_named : level_of_name graph "active" ≡ some (pos 3)
unfolding level_of_name graph
active_named = refl

run_cycle-clears_example :
    is_due graph calendar config users calendar_laws now (within now) (
      (run_cycle graph calendar config users users
          (record { id = "in_2"; user_id = 12; amount_paid = pos 2500 } ∷ [])
          now
          store).0.next_due
        12)
    ≡ false
run_cycle-clears_example =
    run_cycle-clears graph calendar config users calendar_laws now (within now) users
      (record { id = "in_2"; user_id = 12; amount_paid = pos 2500 } ∷ []) 12 store refl refl refl

abbrev operations : List Operation
operations = credit 12 cash_payment (pos 100) none now ∷ renewal 11 now ∷ cycle users [] now ∷ []

record_credit-once_example :
    IsRepeat graph calendar config users 12 stripe_payment (pos 2500) "in_2" now (
      operate_all graph calendar config users operations
        (record_credit graph calendar config users 12 stripe_payment
          (pos 2500)
          (some "in_2")
          now
          store).0)
record_credit-once_example =
    record_credit-once graph calendar config users 12 12 stripe_payment stripe_payment (pos 2500)
      (pos 2500) "in_2" now now operations store
