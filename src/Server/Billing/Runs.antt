-- ===== src/Server/Billing/Runs.antt =====
-- server/src/tool_billing.rs: sequences of activations, reports and stops under prepaid billing.
use cooperative_systems_spac.Prelude.{
  ℕ, ◌≡◌, refl, ap, ◌≤◌, Bool, true, false, ◌&&◌, Option, none, some, List, [], ◌∷◌, String,
  unwrap_or, nat_eq, ◌==◌, if◌then◌else◌, all, arith, inl, inr, Bool-cases, Option-cases,
}
use cooperative_systems_spac.Server.Billing.{
  Rounding, Tool, ToolRateTier, ToolUsageSession, settled, abandoned, is_open, Usage, BillingConfig,
  resolve_effective_billing, sum_open_tool_holds, available_balance, open_tool_session_for_tool,
  max_minutes, open_session, update_open, add_reported_seconds, add_reported_active_seconds,
  record_usage, settle_open_session_for_tool,
}
use cooperative_systems_spac.Server.Billing.Charges.{RoundingLaws}
use cooperative_systems_spac.Server.Billing.Holds.{is_covered, IsBacked}
use cooperative_systems_spac.Server.Billing.Backing.{open_session-IsBacked}
use cooperative_systems_spac.Server.Billing.Settling.{settle-IsBacked}

sum-reported :
    (id seconds uid : ℕ) (sensed : Bool) (sessions : List ToolUsageSession)
    → sum_open_tool_holds (update_open id (add_reported_seconds seconds sensed) sessions) uid
      ≡ sum_open_tool_holds sessions uid
unfolding sum_open_tool_holds update_open add_reported_seconds
sum-reported id seconds uid sensed [] = refl
sum-reported id seconds uid true (s ∷ sessions) =
    ground (arith, sum-reported id seconds uid true sessions)
sum-reported id seconds uid false (s ∷ sessions) =
    ground (arith, sum-reported id seconds uid false sessions)

sum-active :
    (id uid : ℕ) (active : Option ℕ) (sessions : List ToolUsageSession)
    → sum_open_tool_holds (update_open id (add_reported_active_seconds active) sessions) uid
      ≡ sum_open_tool_holds sessions uid
unfolding sum_open_tool_holds update_open add_reported_active_seconds
sum-active id uid active [] = refl
sum-active id uid none (s ∷ sessions) = ground (arith, sum-active id uid none sessions)
sum-active id uid (some a) (s ∷ sessions) = ground (arith, sum-active id uid (some a) sessions)

-- What happens at a tool.
pub data UsageEvent : Type 0 where
  start : ℕ → ℕ → ℕ → ℕ → UsageEvent
  report : ℕ → Option ℕ → Bool → Option ℕ → UsageEvent
  stop : ℕ → Bool → ℕ → UsageEvent

module _ (round : Rounding) (laws : RoundingLaws round) (config : BillingConfig)
    (is_member : ℕ → Bool) (tier_of : ℕ → ℕ → Option ToolRateTier) (reference : ℕ → String)
    (tool_of : ℕ → Tool) where
  -- A member on a tool, by its key; a usage report for it; and its stop, by the member or the sweep.
  abbrev pub happen : UsageEvent → Usage → Usage
  happen (start uid tool_id now id) u =
      (open_session round config is_member tier_of reference uid (tool_of tool_id) now id u).0
  happen (report tool_id seconds sensed active) u =
      (record_usage round config is_member tier_of reference tool_id seconds sensed active u).0
  happen (stop tool_id swept now) u =
      (settle_open_session_for_tool round config is_member tier_of reference (tool_of tool_id)
        (if swept then abandoned else settled) now u).0

  abbrev pub happen_all : List UsageEvent → Usage → Usage
  happen_all [] u = u
  happen_all (e ∷ es) u = happen_all es (happen e u)

  covered-reported :
      (id seconds : ℕ) (sensed : Bool) (sessions : List ToolUsageSession)
      → all (is_covered round laws config is_member tier_of reference tool_of) sessions ≡ true
      → all
          (is_covered round laws config is_member tier_of reference tool_of)
          (update_open id (add_reported_seconds seconds sensed) sessions)
        ≡ true
  unfolding update_open add_reported_seconds
  covered-reported id seconds sensed [] h = refl
  covered-reported id seconds true (s ∷ sessions) h =
      elim (Bool-cases (s.id == id && is_open s.status)) [
        | inl here ↦ rw here (ground (arith, covered-reported id seconds true sessions))
        | inr other ↦ rw other (ground (arith, covered-reported id seconds true sessions))
      ]
  covered-reported id seconds false (s ∷ sessions) h =
      elim (Bool-cases (s.id == id && is_open s.status)) [
        | inl here ↦ rw here (ground (arith, covered-reported id seconds false sessions))
        | inr other ↦ rw other (ground (arith, covered-reported id seconds false sessions))
      ]

  covered-active :
      (id : ℕ) (active : Option ℕ) (sessions : List ToolUsageSession)
      → all (is_covered round laws config is_member tier_of reference tool_of) sessions ≡ true
      → all
          (is_covered round laws config is_member tier_of reference tool_of)
          (update_open id (add_reported_active_seconds active) sessions)
        ≡ true
  unfolding update_open add_reported_active_seconds
  covered-active id active [] h = refl
  covered-active id none (s ∷ sessions) h = elim (Bool-cases (s.id == id && is_open s.status)) [
    | inl here ↦ rw here (ground (arith, covered-active id none sessions))
    | inr other ↦ rw other (ground (arith, covered-active id none sessions))
  ]
  covered-active id (some a) (s ∷ sessions) h = elim (Bool-cases (s.id == id && is_open s.status)) [
    | inl here ↦ rw here (ground (arith, covered-active id (some a) sessions))
    | inr other ↦ rw other (ground (arith, covered-active id (some a) sessions))
  ]

  reported-available :
      (u : Usage) (id seconds uid : ℕ) (sensed : Bool) (active : Option ℕ)
      → available_balance
          (record u {
            sessions =
                update_open id
                  (add_reported_active_seconds active)
                  (update_open id (add_reported_seconds seconds sensed) u.sessions);
          })
          uid
        ≡ available_balance u uid
  unfolding available_balance
  reported-available u id seconds uid sensed active =
      rw
        (
          sum-active id uid active
              (update_open id (add_reported_seconds seconds sensed) u.sessions),
          sum-reported id seconds uid sensed u.sessions,
        )
        refl

  record_usage-IsBacked :
      (tool_id : ℕ) (seconds : Option ℕ) (sensed : Bool) (active : Option ℕ) (u : Usage)
      → IsBacked round laws config is_member tier_of reference tool_of u
      → IsBacked round laws config is_member tier_of reference tool_of
          (record_usage round config is_member tier_of reference tool_id seconds sensed active u).0
  unfolding record_usage
  record_usage-IsBacked tool_id none sensed active u backed = backed
  record_usage-IsBacked tool_id (some seconds) sensed active u backed =
      elim (Option-cases (open_tool_session_for_tool u.sessions tool_id)) [
        | inl n ↦ rw (n, record_usage) backed
        | inr (s, found) ↦
            rw (found, record_usage)
              (record {
                covered =
                    covered-active s.id active _
                      (covered-reported s.id seconds sensed u.sessions backed.covered);
                available = λ uid.
                    rw (reported-available u s.id seconds uid sensed active) (backed.available uid);
              })
      ]

  -- Under prepaid billing, with tools under their own keys and no tier with a lower cap than its
  -- tool: where every open session is covered by its hold and no member's available balance is
  -- negative, both stay so through any sequence of activations, usage reports and stops, at whatever
  -- times. So no charge takes a member's credit below zero.
  pub happen_all-IsBacked :
      (es : List UsageEvent) (u : Usage)
      → config.prepaid ≡ true
      → ((i : ℕ) → (tool_of i).id ≡ i)
      → ((uid i : ℕ)
          → max_minutes config (tool_of i)
            ≤ unwrap_or config.default_max_session_minutes
                (resolve_effective_billing
                  (tier_of uid (tool_of i).id)
                  (tool_of i)).max_session_minutes)
      → IsBacked round laws config is_member tier_of reference tool_of u
      → IsBacked round laws config is_member tier_of reference tool_of (happen_all es u)
  happen_all-IsBacked [] u prepaid keyed wide backed = backed
  happen_all-IsBacked (e ∷ es) u prepaid keyed wide backed =
      happen_all-IsBacked es (happen e u) prepaid keyed wide (happens e)
    where
      listed : (i : ℕ) → tool_of (tool_of i).id ≡ tool_of i
      listed i = ap tool_of (keyed i)

      happens :
          (e : UsageEvent)
          → IsBacked round laws config is_member tier_of reference tool_of (happen e u)
      happens (start uid i now id) =
          open_session-IsBacked round laws config is_member tier_of reference tool_of uid now id
            (tool_of i) u prepaid (listed i) (wide uid i) backed
      happens (report i seconds sensed active) =
          record_usage-IsBacked i seconds sensed active u backed
      happens (stop i true now) =
          settle-IsBacked round laws config is_member tier_of reference tool_of (tool_of i)
            abandoned now u refl (listed i) backed
      happens (stop i false now) =
          settle-IsBacked round laws config is_member tier_of reference tool_of (tool_of i) settled
            now u refl (listed i) backed
