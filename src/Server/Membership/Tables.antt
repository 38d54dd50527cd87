-- ===== src/Server/Membership/Tables.antt =====
-- server/src/membership.rs and server/src/database.rs: dues and roles, and the queries about them.
use cooperative_systems_spac.Prelude.{
  ℕ, ◌+◌, ◌*◌, Bool, true, ◌&&◌, not, Option, none, some, List, [], ◌∷◌, map, String, ℤ, pos, ltb_ℤ,
  ◌+ℤ◌, neg_ℕ, Map, is_some_and, unwrap_or, nat_eq, string_eq, ◌==◌, if◌then◌else◌, any, filter,
  filter_map, contains, length, leb,
}
use cooperative_systems_spac.Server.Rbac.{RoleGraph, has_permission}

-- `plan_role_transition`
unfoldable pub plan_role_transition : ℤ → Bool → Bool → String → ℤ → String → ℤ → Option String
plan_role_transition current_level entitled is_last_admin member_role member_level lapsed_role
      lapsed_level =
    if entitled
    then (if ltb_ℤ current_level member_level then some member_role else none)
    else if is_last_admin
    then none
    else if ltb_ℤ lapsed_level current_level
    then some lapsed_role
    else none

pub data MembershipPeriod : Type 0 where
  monthly : MembershipPeriod
  quarterly : MembershipPeriod
  yearly : MembershipPeriod

-- chrono: the day of the month of an instant, and the instant a number of months later.
pub record Calendar : Type 0 where
  pub day : ℕ → ℕ
  pub checked_add_months : ℕ → ℕ → Option ℕ

-- `Duration::days(1)`
abbrev pub one_day : ℕ
one_day = 86400000000000

abbrev pub months_in : MembershipPeriod → ℕ
months_in monthly = 1
months_in quarterly = 3
months_in yearly = 12

unfoldable pub advance_period : Calendar → ℕ → MembershipPeriod → ℕ
advance_period calendar date period =
    let advanced = unwrap_or date (calendar.checked_add_months (months_in period) date) in
    if calendar.day advanced == calendar.day date then advanced else advanced + one_day

unfoldable pub dues_due : ℕ → ℕ → ℕ → Bool
dues_due next_due now grace_days = leb (next_due + grace_days * one_day) now

pub data LedgerEntryType : Type 0 where
  stripe_payment : LedgerEntryType
  cash_payment : LedgerEntryType
  dues_charge : LedgerEntryType
  stripe_refund : LedgerEntryType
  adjustment : LedgerEntryType
  tool_usage : LedgerEntryType

pub record LedgerEntry : Type 0 where
  pub user_id : ℕ
  pub entry_type : LedgerEntryType
  pub amount : ℤ
  pub occurred_at : ℕ
  pub external_reference : Option String

-- The tables: the ledger, the column `membership_next_due_at` of the users, and the assignments of
-- roles to users.
pub record Store : Type 0 where
  pub ledger : List LedgerEntry
  pub next_due : Map ℕ ℕ
  pub user_roles : List (ℕ × ℕ)

unfoldable pub ledger_entry_exists_for_reference : List LedgerEntry → String → Bool
ledger_entry_exists_for_reference ledger r =
    any (λ (e : LedgerEntry). is_some_and (λ x. x == r) e.external_reference) ledger

-- `none` is the violation of the unique index on the references that are there.
unfoldable pub insert_ledger_entry : LedgerEntry → List LedgerEntry → Option (List LedgerEntry)
unfolding ledger_entry_exists_for_reference
insert_ledger_entry entry ledger =
    if is_some_and (ledger_entry_exists_for_reference ledger) entry.external_reference
    then none
    else some (entry ∷ ledger)

-- The sum over the user's entries; addition is exact, so their order does not matter.
unfoldable pub user_balance : List LedgerEntry → ℕ → ℤ
user_balance [] uid = pos 0
user_balance (e ∷ ledger) uid =
    let rest = user_balance ledger uid in if e.user_id == uid then e.amount +ℤ rest else rest

-- Post a dues debit of `-amount`; without a reference no index stands in its way.
unfoldable pub post_dues : ℕ → ℕ → ℕ → List LedgerEntry → List LedgerEntry
post_dues uid amount now ledger =
    record {
      user_id = uid;
      entry_type = dues_charge;
      amount = neg_ℕ amount;
      occurred_at = now;
      external_reference = none;
    }
    ∷ ledger

-- The user's assignments.
unfoldable pub roles_for_user : List (ℕ × ℕ) → ℕ → List ℕ
roles_for_user user_roles uid =
    map (λ (a : ℕ × ℕ). a.1) (filter (λ (a : ℕ × ℕ). a.0 == uid) user_roles)

abbrev pub admin_access : String
admin_access = "admin.access"

-- The names of the tiers, of which a user holds one.
abbrev pub tiers : List String
tiers = "guest" ∷ "historical" ∷ "active" ∷ "staff" ∷ "admin" ∷ []

unfoldable pub user_is_admin : RoleGraph → List (ℕ × ℕ) → ℕ → Bool
unfolding roles_for_user
user_is_admin graph user_roles uid =
    has_permission graph (roles_for_user user_roles uid) admin_access

-- The active users who hold `admin.access`; a user without an assignment holds nothing.
unfoldable pub count_active_admins : RoleGraph → List ℕ → List (ℕ × ℕ) → ℕ
unfolding user_is_admin
count_active_admins graph active user_roles =
    length (filter (user_is_admin graph user_roles) active)

-- `set_user_primary_role`: the user's tiers go, and the role of that name comes.
unfoldable pub set_user_primary_role : RoleGraph → ℕ → String → List (ℕ × ℕ) → List (ℕ × ℕ)
set_user_primary_role graph uid role_name user_roles =
    let tier_ids = filter_map graph.by_name tiers in
    let kept = filter (λ (a : ℕ × ℕ). not (a.0 == uid && contains tier_ids a.1)) user_roles in
    elim (graph.by_name role_name) [
      | none ↦ kept
      | some role_id ↦ elim (any (λ (a : ℕ × ℕ). a.0 == uid && a.1 == role_id) kept) [
        | true ↦ kept
        | _ ↦ (uid, role_id) ∷ kept
      ]
    ]

pub record MembershipConfig : Type 0 where
  pub enabled : Bool
  pub due_amount : ℕ
  pub due_period : MembershipPeriod
  pub grace_days : ℕ
  pub member_role : String
  pub lapsed_role : String

pub record MembershipCycleOutcome : Type 0 where
  pub users_checked : ℕ
  pub dues_charged : ℕ
  pub lapsed : ℕ
  pub credited : ℕ

-- A paid invoice of Stripe, of the user whose customer it is.
pub record StripeInvoice : Type 0 where
  pub id : String
  pub user_id : ℕ
  pub amount_paid : ℤ

-- `if guard > 1200 { break; }`
abbrev pub guard_cap : ℕ
guard_cap = 1200
