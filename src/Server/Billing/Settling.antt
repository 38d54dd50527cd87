-- ===== src/Server/Billing/Settling.antt =====
-- server/src/tool_billing.rs: settling a session under prepaid billing.
use cooperative_systems_spac.Prelude.{
  ℕ, ◌≡◌, refl, ◌∙◌, ◌+◌, ◌≤◌, Bool, true, false, Option, some, List, ◌∷◌, String, ℤ, pos, ◌≤ℤ◌,
  ◌+ℤ◌, neg_ℕ, parts_add, nat_eq, string_eq, ◌==◌, ==_iff, ==_refl, leb, ◌⊎◌, arith, inl, inr,
  Bool-cases, Option-cases,
}
use cooperative_systems_spac.Server.Membership.{
  LedgerEntry, user_balance, insert_ledger_entry, ledger_entry_exists_for_reference,
}
use cooperative_systems_spac.Server.Billing.{
  Rounding, Tool, ToolRateTier, ToolUsageSession, SessionStatus, is_open, Usage, BillingConfig,
  sum_open_tool_holds, available_balance, open_tool_session_for_tool, update_open, charge_at,
  post_usage, close_session, settle_open_session_for_tool,
}
use cooperative_systems_spac.Server.Billing.Charges.{RoundingLaws}
use cooperative_systems_spac.Server.Billing.Holds.{
  cost_of, is_covered, IsBacked, charge_at-le_cost, find-open, found_covered, sum-closed,
  all-closed, sum-update_open,
}

-- What a charge takes off the balance, its hold gives back.
still_available :
    (balance after : ℤ) (charge hold before_sum after_sum : ℕ)
    → pos 0 ≤ℤ (balance +ℤ neg_ℕ before_sum)
    → after ≡ neg_ℕ charge +ℤ balance
    → charge ≤ hold
    → after_sum + hold ≤ before_sum
    → pos 0 ≤ℤ (after +ℤ neg_ℕ after_sum)
still_available balance after charge hold before_sum after_sum h e le sum =
    let a = parts_add balance (neg_ℕ before_sum) in
    let b = parts_add (neg_ℕ charge) balance in
    let c = parts_add (neg_ℕ charge +ℤ balance) (neg_ℕ after_sum) in rw e (ground arith)

less_held :
    (balance : ℤ) (before_sum after_sum : ℕ)
    → pos 0 ≤ℤ (balance +ℤ neg_ℕ before_sum)
    → after_sum ≤ before_sum
    → pos 0 ≤ℤ (balance +ℤ neg_ℕ after_sum)
less_held balance before_sum after_sum h le =
    let a = parts_add balance (neg_ℕ before_sum) in
    let b = parts_add balance (neg_ℕ after_sum) in ground arith

le_of_leb : (a b : ℕ) → leb a b ≡ true → a ≤ b
le_of_leb a b h = ground arith

user_balance-debit :
    (e : LedgerEntry) (ledger : List LedgerEntry) (uid : ℕ)
    → e.user_id ≡ uid
    → user_balance (e ∷ ledger) uid ≡ e.amount +ℤ user_balance ledger uid
unfolding user_balance
user_balance-debit e ledger uid mine = rw (mine, ==_refl uid) refl

user_balance-passed :
    (e : LedgerEntry) (ledger : List LedgerEntry) (uid : ℕ)
    → (e.user_id == uid) ≡ false
    → user_balance (e ∷ ledger) uid ≡ user_balance ledger uid
unfolding user_balance
user_balance-passed e ledger uid others = rw others refl

module _ (round : Rounding) (laws : RoundingLaws round) (config : BillingConfig)
    (is_member : ℕ → Bool) (tier_of : ℕ → ℕ → Option ToolRateTier) (reference : ℕ → String)
    (tool_of : ℕ → Tool) where
  -- The two results of settling: nothing, or the session closed with or without the debit.
  settle-result :
      (tool : Tool) (status : SessionStatus) (now : ℕ) (u : Usage) (s : ToolUsageSession)
      → open_tool_session_for_tool u.sessions tool.id ≡ some s
      → (λ (after : Usage).
            (after.sessions
              ≡ update_open s.id
                  (close_session status
                    (charge_at round config is_member tier_of reference tool s now))
                  u.sessions)
            × ((after.ledger ≡ u.ledger)
                ⊎ ((e : LedgerEntry) × (e.user_id ≡ s.user_id)
                    × (e.amount
                        ≡ neg_ℕ (charge_at round config is_member tier_of reference tool s now))
                    × (after.ledger ≡ e ∷ u.ledger))))
          (settle_open_session_for_tool round config is_member tier_of reference tool status now
            u).0
  unfolding settle_open_session_for_tool post_usage insert_ledger_entry
  settle-result tool status now u s found =
      elim (Bool-cases (ledger_entry_exists_for_reference u.ledger (reference s.id))) [
        | inl there ↦ rw (found, there, settle_open_session_for_tool) (refl, inl refl)
        | inr fresh ↦
            rw (found, fresh, settle_open_session_for_tool) (refl, inr (_, refl, refl, refl))
      ]

  -- A charge of a covered session is at most its hold.
  charge-le_hold :
      (tool : Tool) (s : ToolUsageSession) (now : ℕ)
      → tool_of s.tool_id ≡ tool
      → is_open s.status ≡ true
      → is_covered round laws config is_member tier_of reference tool_of s ≡ true
      → charge_at round config is_member tier_of reference tool s now ≤ s.hold_amount
  charge-le_hold tool s now listed live fine =
      let bound =
        charge_at-le_cost round laws config is_member tier_of reference tool_of tool s now in
      let cost = cost_of round laws config is_member tier_of reference tool_of tool s in
      let held : leb cost s.hold_amount ≡ true = rw (live, listed) at fine in
      let within : cost ≤ s.hold_amount = le_of_leb cost s.hold_amount held in omega arith

  settled-available :
      (tool_id : ℕ) (s : ToolUsageSession) (status : SessionStatus) (charge uid : ℕ)
      (u after : Usage)
      → is_open status ≡ false
      → open_tool_session_for_tool u.sessions tool_id ≡ some s
      → charge ≤ s.hold_amount
      → after.sessions ≡ update_open s.id (close_session status charge) u.sessions
      → (after.ledger ≡ u.ledger)
        ⊎ ((e : LedgerEntry) × (e.user_id ≡ s.user_id)
            × (e.amount ≡ neg_ℕ charge)
            × (after.ledger ≡ e ∷ u.ledger))
      → pos 0 ≤ℤ available_balance u uid
      → pos 0 ≤ℤ available_balance after uid
  unfolding available_balance
  settled-available tool_id s status charge uid u after closed found fits sessions (inl same)
        credit =
      rw (sessions, same)
        (less_held (user_balance u.ledger uid) _ _ credit
          (sum-update_open s.id status charge uid u.sessions closed))
  settled-available tool_id s status charge uid u after closed found fits sessions
        (inr (e, mine, amount, posted)) credit =
      elim (Bool-cases (s.user_id == uid)) [
        | inr others ↦
            rw (sessions, posted)
              (rw (user_balance-passed e u.ledger uid (rw mine others)) (
                less_held (user_balance u.ledger uid) _ _ credit
                  (sum-update_open s.id status charge uid u.sessions closed)))
        | inl same ↦
            let who : s.user_id ≡ uid = (==_iff s.user_id uid).0 same in
            let taken : sum_open_tool_holds
                    (update_open s.id (close_session status charge) u.sessions) uid
                  + s.hold_amount
                ≤ sum_open_tool_holds u.sessions uid =
              rw (← who) (
                sum-closed round laws config is_member tier_of reference tool_of tool_id status
                  charge u.sessions s closed found) in
            let paid : user_balance (e ∷ u.ledger) uid ≡ neg_ℕ charge +ℤ user_balance u.ledger uid =
              user_balance-debit e u.ledger uid (mine ∙ who) ∙ rw amount refl in
            rw (sessions, posted)
              (still_available (user_balance u.ledger uid) _ charge s.hold_amount _ _ credit paid
                fits taken)
      ]

  settled-IsBacked :
      (tool : Tool) (s : ToolUsageSession) (status : SessionStatus) (now : ℕ) (u after : Usage)
      → is_open status ≡ false
      → tool_of tool.id ≡ tool
      → open_tool_session_for_tool u.sessions tool.id ≡ some s
      → IsBacked round laws config is_member tier_of reference tool_of u
      → after.sessions
        ≡ update_open s.id
            (close_session status (charge_at round config is_member tier_of reference tool s now))
            u.sessions
      → (after.ledger ≡ u.ledger)
        ⊎ ((e : LedgerEntry) × (e.user_id ≡ s.user_id)
            × (e.amount ≡ neg_ℕ (charge_at round config is_member tier_of reference tool s now))
            × (after.ledger ≡ e ∷ u.ledger))
      → IsBacked round laws config is_member tier_of reference tool_of after
  settled-IsBacked tool s status now u after closed listed found backed sessions ledger =
      let (its, live) =
        find-open round laws config is_member tier_of reference tool_of tool.id u.sessions s
          found in
      let fine =
        found_covered round laws config is_member tier_of reference tool_of tool.id u.sessions s
          found backed.covered in
      let table : tool_of s.tool_id ≡ tool = rw its listed in
      let fits = charge-le_hold tool s now table live fine in
      let charge = charge_at round config is_member tier_of reference tool s now in
      record {
        covered = rw sessions (
            all-closed round laws config is_member tier_of reference tool_of s.id status charge
              u.sessions closed backed.covered);
        available = λ uid.
            settled-available tool.id s status charge uid u after closed found fits sessions ledger
              (backed.available uid);
      }

  -- Settling a tool's session, whichever way it closes, leaves every open session covered by its hold
  -- and no available balance negative: a charge is never more than the hold that it releases.
  pub settle-IsBacked :
      (tool : Tool) (status : SessionStatus) (now : ℕ) (u : Usage)
      → is_open status ≡ false
      → tool_of tool.id ≡ tool
      → IsBacked round laws config is_member tier_of reference tool_of u
      → IsBacked round laws config is_member tier_of reference tool_of
          (settle_open_session_for_tool round config is_member tier_of reference tool status now
            u).0
  unfolding settle_open_session_for_tool
  settle-IsBacked tool status now u closed listed backed =
      elim (Option-cases (open_tool_session_for_tool u.sessions tool.id)) [
        | inl n ↦ rw (n, settle_open_session_for_tool) backed
        | inr (s, found) ↦
            settled-IsBacked tool s status now u _ closed listed found backed
              (settle-result tool status now u s found).0
              (settle-result tool status now u s found).1
      ]
