-- ===== src/Edge/Modules/Interlocks.antt =====
-- edge/src/modules.rs: the interlocks (`satisfied`, `offline_fail_off`, `evaluate`).
use cooperative_systems_spac.Prelude.{
  ℕ, ◌+◌, ◌≡◌, refl, ap, ◌∙◌, Bool, true, false, ◌&&◌, ◌||◌, not, is_some_and, Option, none, some,
  List, [], ◌∷◌, String, pos_part, ltb, leb, if◌then◌else◌, ◌==◌, string_eq, pair_eq, find, any,
  all, ◌↔◌, inl, inr, arith, ◌⊎◌, Option-cases, find-none, find-of-any,
}
use cooperative_systems_spac.CssLib.Wire.{
  DeviceBinding, ToolInterlockRule, ToolModuleTool, ToolModuleStatePayload,
}
use cooperative_systems_spac.Edge.Modules.{ModuleState, Reading, millis, resolve, in_use}

pub data Denial : Type 0 where
  gate latched tripped unobserved module_offline : String → Denial
  not_in_use unknown : Denial

pub data Decision : Type 0 where
  allow : Decision
  deny : Denial → Decision

unfoldable pub is_hazard : String → Bool
is_hazard condition = not ((condition == "flow_ok") || (condition == "authorized"))

-- Whether a reading, which counts as its opposite until it has outlasted the debounce, is safe.
unfoldable pub is_safe : Reading → ToolInterlockRule → ℕ → Bool
is_safe reading rule now =
    let settled = leb (reading.since + millis (pos_part rule.debounce_ms)) now in
    let effective = if settled then reading.asserted else not reading.asserted in
    if is_hazard rule.condition then not effective else effective

unfoldable pub satisfied : ModuleState → String → ToolInterlockRule → ℕ → Option Bool
satisfied s key rule now = elim (s.readings (key, rule.condition)) [
  | none ↦ none
  | some reading ↦ some (is_safe reading rule now)
]

-- A binding that has gone quiet and has to fail off; a coordinator is never one.
unfoldable pub is_quiet : ModuleState → ℕ → ℕ → DeviceBinding → Bool
is_quiet s now timeout m =
    if m.role == "edge"
    then false
    else if not (m.on_disconnect == "fail_off")
    then false
    else elim (s.module_seen m.id) [ none ↦ true | some seen ↦ ltb (seen + timeout) now ]

unfoldable pub offline_fail_off : ModuleState → ToolModuleTool → ℕ → ℕ → Option String
offline_fail_off s tool now timeout = elim (find (is_quiet s now timeout) tool.modules) [
  | none ↦ none
  | some m ↦ some m.name
]

-- What a rule that is not satisfied denies with: an unknown kind counts as a gate.
unfoldable pub refusal : ToolInterlockRule → Denial
refusal rule = if rule.kind == "trip" then tripped rule.condition else gate rule.condition

-- The loop over the interlocks: the first denial.
unfoldable pub check_rules : ModuleState → String → ℕ → List ToolInterlockRule → Option Denial
check_rules s key now [] = none
check_rules s key now (rule ∷ rules) = elim (satisfied s key rule now) [
  | none ↦ some (unobserved rule.condition)
  | some true ↦ check_rules s key now rules
  | some false ↦ some (refusal rule)
]

unfoldable pub evaluate_wiring : ModuleState → ToolModuleTool → ℕ → ℕ → Decision
evaluate_wiring s wiring now timeout = elim (s.latched wiring.tool_id) [
  | some condition ↦ deny (latched condition)
  | none ↦ elim (offline_fail_off s wiring now timeout) [
    | some name ↦ deny (module_offline name)
    | none ↦ elim (check_rules s wiring.tool_id now wiring.interlocks) [
      | some denial ↦ deny denial
      | none ↦ if in_use s wiring.tool_id now then allow else deny not_in_use
    ]
  ]
]

unfoldable pub evaluate : ModuleState → String → ℕ → ℕ → Decision
evaluate s tool now timeout = elim s.snapshot [
  | none ↦ deny unknown
  | some snapshot ↦ elim (resolve snapshot tool) [
    | none ↦ allow
    | some wiring ↦ evaluate_wiring s wiring now timeout
  ]
]

-- A rule's condition has been observed, and is safe: a reading that has lasted for the debounce counts as
-- it is, a younger one as its opposite. A hazard is safe where it counts as absent, `flow_ok` and
-- `authorized` where they count as there.
abbrev pub holds : ModuleState → String → ℕ → ToolInterlockRule → Bool
holds s key now rule =
    is_some_and
      (λ (r : Reading).
        let lasted = leb (r.since + millis (pos_part rule.debounce_ms)) now in
        let present = (lasted && r.asserted) || (not lasted && not r.asserted) in
        (is_hazard rule.condition && not present) || (not (is_hazard rule.condition) && present))
      (s.readings (key, rule.condition))

-- A binding that needs no watching, the edge's own or one that need not fail off, or one that was heard
-- from within the timeout.
abbrev pub is_live : ModuleState → ℕ → ℕ → DeviceBinding → Bool
is_live s now timeout m =
    (m.role == "edge")
    || not (m.on_disconnect == "fail_off")
    || is_some_and (λ seen. leb now (seen + timeout)) (s.module_seen m.id)

-- All that energizing a wired tool takes.
pub record IsClear (s : ModuleState) (wiring : ToolModuleTool) (now timeout : ℕ) : Type 0 where
  pub no_latch : s.latched wiring.tool_id ≡ none
  pub heard : all (is_live s now timeout) wiring.modules ≡ true
  pub safe : all (holds s wiring.tool_id now) wiring.interlocks ≡ true
  pub used : in_use s wiring.tool_id now ≡ true

check_rules-none_iff :
    (s : ModuleState) (key : String) (now : ℕ) (rules : List ToolInterlockRule)
    → (check_rules s key now rules ≡ none) ↔ (all (holds s key now) rules ≡ true)
unfolding check_rules satisfied is_safe
check_rules-none_iff s key now [] = (λ _. refl, λ _. refl)
check_rules-none_iff s key now (r ∷ rules) =
    let rest = check_rules-none_iff s key now rules in
    (λ h. ground (arith, rest.0), λ h. ground (arith, rest.1))

any_quiet-all_live :
    (s : ModuleState) (now timeout : ℕ) (modules : List DeviceBinding)
    → all (is_live s now timeout) modules ≡ not (any (is_quiet s now timeout) modules)
unfolding is_quiet
any_quiet-all_live s now timeout [] = refl
any_quiet-all_live s now timeout (m ∷ modules) =
    let rest = any_quiet-all_live s now timeout modules in ground (arith, rest)

offline-none_iff :
    (s : ModuleState) (wiring : ToolModuleTool) (now timeout : ℕ)
    → (offline_fail_off s wiring now timeout ≡ none)
      ↔ (all (is_live s now timeout) wiring.modules ≡ true)
unfolding offline_fail_off
offline-none_iff s wiring now timeout =
    let p = is_quiet s now timeout in
    let live = any_quiet-all_live s now timeout wiring.modules in
    (
      λ h. live ∙ ap not (find-none p wiring.modules (ground arith)),
      λ h.
          let none_quiet : any p wiring.modules ≡ false = ground (arith, live, h) in
          rw (find-of-any p wiring.modules none_quiet, offline_fail_off) refl,
    )

pub evaluate_wiring-allow_iff :
    (s : ModuleState) (wiring : ToolModuleTool) (now timeout : ℕ)
    → (evaluate_wiring s wiring now timeout ≡ allow) ↔ IsClear s wiring now timeout
unfolding evaluate_wiring
evaluate_wiring-allow_iff s wiring now timeout =
    let rules = check_rules-none_iff s wiring.tool_id now wiring.interlocks in
    let quiet = offline-none_iff s wiring now timeout in
    (
      λ h. record {
        no_latch = ground arith;
        heard = quiet.0 (ground arith);
        safe = rules.0 (ground arith);
        used = ground arith;
      },
      λ c. ground (arith, c.no_latch, quiet.1 c.heard, rules.1 c.safe, c.used),
    )

-- The edge holds a snapshot, in which the tool has either no wiring or wiring that is clear.
abbrev pub IsEnergizable : ModuleState → String → ℕ → ℕ → Type 0
IsEnergizable s tool now timeout =
    (p : ToolModuleStatePayload) × (s.snapshot ≡ some p)
    × ((resolve p tool ≡ none)
        ⊎ ((w : ToolModuleTool) × (resolve p tool ≡ some w) × IsClear s w now timeout))

-- `evaluate` allows exactly when the edge holds a snapshot and either no wiring for the tool, or
-- wiring with no latched trip, every module heard from within the timeout but for the edge's own and
-- those that need not fail off, every interlock observed and safe, where a reading younger than its
-- debounce counts as its opposite, and a session in progress.
pub evaluate-allow_iff :
    (s : ModuleState) (tool : String) (now timeout : ℕ)
    → (evaluate s tool now timeout ≡ allow) ↔ IsEnergizable s tool now timeout
unfolding evaluate
evaluate-allow_iff s tool now timeout = (
  λ h. elim (Option-cases s.snapshot) [
    | inl n ↦ ground arith
    | inr (p, e) ↦ (
      p,
      e,
      elim (Option-cases (resolve p tool)) [
        | inl n ↦ inl n
        | inr (w, f) ↦ inr (w, f, (evaluate_wiring-allow_iff s w now timeout).0 (ground arith))
      ],
    )
  ],
  λ (p, e, c). elim c [
    | inl n ↦ ground arith
    | inr (w, f, clear) ↦
        let ok = (evaluate_wiring-allow_iff s w now timeout).1 clear in ground arith
  ],
)
