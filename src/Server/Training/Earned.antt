-- ===== src/Server/Training/Earned.antt =====
-- server/src/cmi5.rs, `record_statement`: what must have been reported before a step is granted.
use cooperative_systems_spac.Prelude.{
  Bool, true, false, ◌||◌, List, [], ◌∷◌, ◌++◌, string_eq, nat_eq, ap, Result, ok, err, ◌≡◌, refl,
  arith, any, any_append, All, ◌⊎◌, inl, inr,
}
use cooperative_systems_spac.Cmi5.Manifest.{MoveOn}
use cooperative_systems_spac.Cmi5.Statement.{Statement, verb_id}
use cooperative_systems_spac.Cmi5.Verbs
use cooperative_systems_spac.Cmi5.Validation.{
  SessionExpectation, SessionOutcome, SessionState, Violation, new, apply, evaluate_move_on,
}
use cooperative_systems_spac.Cmi5.Validation.Sequence.{After, counts_as, noted, apply-noted}
use cooperative_systems_spac.Cmi5.Validation.Credit.{
  IsValid, IsReport, IsPass, IsCompletion, Earned, Earned-of, any-Any, passed-IsReport,
  completed-IsReport,
}
use cooperative_systems_spac.Server.Training.Statements.{replay}

module _ {F64 : Type 0} where
  -- A flag of a replayed outcome was set at the start, or is reported.
  abbrev pub Within : SessionState → List (Statement F64) → SessionOutcome → Type 0
  Within st ss o =
      (o.passed ≡ true → (st.outcome.passed || any (counts_as Verbs.passed) ss) ≡ true)
      × (o.completed ≡ true → (st.outcome.completed || any (counts_as Verbs.completed) ss) ≡ true)

  Within-later :
      (st next : SessionState) (s : Statement F64) (ss : List (Statement F64)) (o : SessionOutcome)
      → next.outcome ≡ noted st.outcome s
      → Within next ss o
      → Within st (s ∷ ss) o
  Within-later st next s ss o e (p, c) =
      let ep = ap (λ (x : SessionOutcome). x.passed) e in
      let ec = ap (λ (x : SessionOutcome). x.completed) e in
      (λ h. let g = p h in ground (arith, g, ep), λ h. let g = c h in ground (arith, g, ec))

  replay-Within :
      (st : SessionState) (ss : List (Statement F64)) → Within st ss (replay st ss).outcome
  unfolding replay
  replay-Within st [] = (λ h. ground (arith, h), λ h. ground (arith, h))
  replay-Within st (s ∷ ss) =
      go (apply st s) (apply-noted st s) (λ next. replay-Within next ss) (replay-Within st ss)
    where
      go :
          (r : Result Violation SessionState)
          → After r (λ next. next.outcome ≡ noted st.outcome s)
          → ((next : SessionState) → Within next ss (replay next ss).outcome)
          → Within st ss (replay st ss).outcome
          → Within st
              (s ∷ ss)
              (elim r as (λ _. SessionState) [
                | ok next ↦ replay next ss
                | err e ↦ replay st ss
              ]).outcome
      go (ok next) e rest same = Within-later st next s ss (replay next ss).outcome e (rest next)
      go (err x) e rest (p, c) =
          (λ h. let g = p h in ground (arith, g), λ h. let g = c h in ground (arith, g))

  -- The outcome after one more statement.
  pub apply-Within :
      (ss : List (Statement F64)) (s : Statement F64) (machine : SessionState)
      → apply (replay new ss) s ≡ ok machine
      → Within new (ss ++ (s ∷ [])) machine.outcome
  apply-Within ss s machine h =
      let noting = apply-noted (replay new ss) s in
      let total = rw h at noting in
      let ep = ap (λ (x : SessionOutcome). x.passed) total in
      let ec = ap (λ (x : SessionOutcome). x.completed) total in
      let (p, c) = replay-Within new ss in
      (
        λ t. ground (arith, t, ep, p, any_append (counts_as Verbs.passed) ss (s ∷ [])),
        λ t. ground (arith, t, ec, c, any_append (counts_as Verbs.completed) ss (s ∷ [])),
      )

module _ {F64 : Type 0} (lt : F64 → F64 → Bool) (expect : SessionExpectation F64) where
  -- What is kept of a session: the LMS's own `launched`, and what has passed the checks.
  abbrev pub IsKept : Statement F64 → Type 0
  IsKept s = (verb_id s ≡ Verbs.launched) ⊎ IsValid lt expect s

  launched-counts_as :
      (s : Statement F64)
      → verb_id s ≡ Verbs.launched
      → (counts_as Verbs.passed s ≡ false) × (counts_as Verbs.completed s ≡ false)
  launched-counts_as s e = (rw e refl, rw e refl)

  kept-IsPass :
      (s : Statement F64)
      → IsKept s
      → counts_as Verbs.passed s ≡ true
      → IsReport lt expect (IsPass lt expect) s
  kept-IsPass s (inl e) h = let (n, _) = launched-counts_as s e in absurd (ground (arith, n, h))
  kept-IsPass s (inr v) h = passed-IsReport lt expect s v h

  kept-IsCompletion :
      (s : Statement F64)
      → IsKept s
      → counts_as Verbs.completed s ≡ true
      → IsReport lt expect (IsCompletion lt expect) s
  kept-IsCompletion s (inl e) h =
      let (_, n) = launched-counts_as s e in absurd (ground (arith, n, h))
  kept-IsCompletion s (inr v) h = completed-IsReport lt expect s v h

  -- A met criterion was earned.
  pub met-Earned :
      (m : MoveOn) (ss : List (Statement F64)) (o : SessionOutcome)
      → All IsKept ss
      → Within new ss o
      → evaluate_move_on m o ≡ true
      → Earned lt expect m ss
  met-Earned m ss o kept (p, c) met =
      Earned-of lt expect m ss o
        (λ t.
          any-Any (IsReport lt expect (IsPass lt expect)) IsKept Verbs.passed kept-IsPass ss kept
            (p t))
        (λ t.
          any-Any (IsReport lt expect (IsCompletion lt expect)) IsKept Verbs.completed
            kept-IsCompletion ss kept (c t))
        met
