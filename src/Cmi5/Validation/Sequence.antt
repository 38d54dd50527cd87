-- ===== src/Cmi5/Validation/Sequence.antt =====
-- cmi5/src/validation.rs: which sequences of statements a session accepts, and what they add up to.
use cooperative_systems_spac.Prelude.{
  Bool, true, false, not, ◌&&◌, ◌||◌, List, [], ◌∷◌, String, ◌==◌, string_eq, ==_iff, ◌≡◌, refl,
  ◌∙◌, ap, any, is_empty, Result, ok, err, ◌>>=◌, if◌then◌else◌, Bool-cases, inl, inr, arith,
}
use cooperative_systems_spac.Cmi5.Statement.{Statement, verb_id, is_moveon}
use cooperative_systems_spac.Cmi5.Verbs
use cooperative_systems_spac.Cmi5.Validation.{
  Violation, SessionOutcome, SessionState, new, is_au_verb, step, apply,
}

abbrev pub is_ok : Result Violation SessionState → Bool
is_ok (ok st) = true
is_ok (err e) = false

-- What holds of the state after, where there is one.
abbrev pub After : Result Violation SessionState → (SessionState → Type 0) → Type 0
After (ok st) P = P st
After (err e) P = Unit

After-to :
    {a b : SessionOutcome} (r : Result Violation SessionState)
    → a ≡ b
    → After r (λ st. st.outcome ≡ a)
    → After r (λ st. st.outcome ≡ b)
After-to (ok st) e h = h ∙ e
After-to (err x) e h = tt

-- A session that has begun and not ended.
abbrev pub running : Bool → Bool → Bool → SessionState
running p c f = record {
  initialized = true;
  terminated = false;
  outcome = record { passed = p; completed = c; failed = f };
}

-- What a verb can be.
data VerbCase (v : String) : Type 0 where
  starts : v ≡ Verbs.initialized → VerbCase v
  passes : v ≡ Verbs.passed → VerbCase v
  fails : v ≡ Verbs.failed → VerbCase v
  completes : v ≡ Verbs.completed → VerbCase v
  ends : v ≡ Verbs.terminated → VerbCase v
  is_other :
      (v == Verbs.initialized) ≡ false
      → (v == Verbs.passed) ≡ false
      → (v == Verbs.failed) ≡ false
      → (v == Verbs.completed) ≡ false
      → (v == Verbs.terminated) ≡ false
      → VerbCase v

verb_case : (v : String) → VerbCase v
verb_case v = elim (Bool-cases (v == Verbs.initialized)) [
  | inl e ↦ starts ((==_iff v _).0 e)
  | inr e1 ↦ elim (Bool-cases (v == Verbs.passed)) [
    | inl e ↦ passes ((==_iff v _).0 e)
    | inr e2 ↦ elim (Bool-cases (v == Verbs.failed)) [
      | inl e ↦ fails ((==_iff v _).0 e)
      | inr e3 ↦ elim (Bool-cases (v == Verbs.completed)) [
        | inl e ↦ completes ((==_iff v _).0 e)
        | inr e4 ↦ elim (Bool-cases (v == Verbs.terminated)) [
          | inl e ↦ ends ((==_iff v _).0 e)
          | inr e5 ↦ is_other e1 e2 e3 e4 e5
        ]
      ]
    ]
  ]
]

module _ {F64 : Type 0} where
  -- The statements of a session in the order of their arrival, up to the first that is refused.
  unfoldable pub apply_all : SessionState → List (Statement F64) → Result Violation SessionState
  apply_all st [] = ok st
  apply_all st (s ∷ ss) = apply st s >>= λ next. apply_all next ss

  abbrev pub counts_as : String → Statement F64 → Bool
  counts_as verb s = (verb_id s == verb) && is_moveon s

  -- What may come after the first statement: reports, and one `terminated` as the last.
  unfoldable pub is_continued : List (Statement F64) → Bool
  is_continued [] = true
  is_continued (s ∷ ss) =
      is_au_verb (verb_id s)
      && not (verb_id s == Verbs.initialized)
      && (if verb_id s == Verbs.terminated then is_empty ss else is_continued ss)

  -- An order of the statements that cmi5 allows.
  unfoldable pub is_in_order : List (Statement F64) → Bool
  is_in_order [] = true
  is_in_order (s ∷ ss) =
      verb_id s == Verbs.initialized
      && is_continued ss
      && not (any (counts_as Verbs.passed) ss && any (counts_as Verbs.failed) ss)

  -- Once a session is over, nothing more is accepted.
  stopped :
      (p c f : Bool) (ss : List (Statement F64))
      → (p && f) ≡ false
      → is_ok (apply_all (record (running p c f) { terminated = true }) ss) ≡ (
          is_empty ss
          && not ((p || any (counts_as Verbs.passed) ss) && (f || any (counts_as Verbs.failed) ss)))
  unfolding apply_all apply
  stopped p c f [] h = ground arith
  stopped p c f (s ∷ ss) h = refl

  continued :
      (p c f : Bool) (ss : List (Statement F64))
      → (p && f) ≡ false
      → is_ok (apply_all (running p c f) ss) ≡ (
          is_continued ss
          && not ((p || any (counts_as Verbs.passed) ss) && (f || any (counts_as Verbs.failed) ss)))
  unfolding apply_all is_continued apply step is_au_verb
  continued p c f [] h = ground arith
  continued p c f (s ∷ ss) h = elim (verb_case (verb_id s)) [
    | starts e ↦ rw e refl
    | passes e ↦ rw e ground (arith, continued true c f ss, continued p c f ss h)
    | fails e ↦ rw e ground (arith, continued p c true ss, continued p c f ss h)
    | completes e ↦ rw e ground (arith, continued p true f ss h, continued p c f ss h)
    | ends e ↦ rw e (stopped p c f ss h)
    | is_other e1 e2 e3 e4 e5 ↦ rw (e1, e2, e3, e4, e5) refl
  ]

  -- A session accepts a sequence of statements exactly where it is in the order that cmi5 allows:
  -- nothing at all, or `initialized` once and first, then statements that an AU may issue, `terminated`
  -- at most once and last, and not both a `passed` and a `failed` that count.
  pub apply_all-is_in_order :
      (ss : List (Statement F64)) → is_ok (apply_all new ss) ≡ is_in_order ss
  unfolding apply_all apply step is_in_order
  apply_all-is_in_order [] = refl
  apply_all-is_in_order (s ∷ ss) = elim (verb_case (verb_id s)) [
    | starts e ↦ rw e (continued false false false ss refl)
    | passes e ↦ rw e refl
    | fails e ↦ rw e refl
    | completes e ↦ rw e refl
    | ends e ↦ rw e refl
    | is_other e1 e2 e3 e4 e5 ↦ rw (e1, e2, e3, e4, e5) refl
  ]

  -- What a statement adds to the outcome.
  abbrev pub noted : SessionOutcome → Statement F64 → SessionOutcome
  noted o s = record {
    passed = o.passed || counts_as Verbs.passed s;
    completed = o.completed || counts_as Verbs.completed s;
    failed = o.failed || counts_as Verbs.failed s;
  }

  -- Either the statement is refused, or the outcome is the old one with what the statement adds.
  pub apply-noted :
      (st : SessionState) (s : Statement F64)
      → After (apply st s) (λ st'. st'.outcome ≡ noted st.outcome s)
  unfolding apply step
  apply-noted st s = elim (verb_case (verb_id s)) [
    | starts e ↦ rw e ground arith
    | passes e ↦ rw e ground arith
    | fails e ↦ rw e ground arith
    | completes e ↦ rw e ground arith
    | ends e ↦ rw e ground arith
    | is_other e1 e2 e3 e4 e5 ↦ rw (e1, e2, e3, e4, e5) ground arith
  ]

  -- The outcome of a whole sequence.
  abbrev pub tally : SessionOutcome → List (Statement F64) → SessionOutcome
  tally o ss = record {
    passed = o.passed || any (counts_as Verbs.passed) ss;
    completed = o.completed || any (counts_as Verbs.completed) ss;
    failed = o.failed || any (counts_as Verbs.failed) ss;
  }

  tally-noted :
      (o : SessionOutcome) (s : Statement F64) (ss : List (Statement F64))
      → tally (noted o s) ss ≡ tally o (s ∷ ss)
  tally-noted o s ss = ground arith

  -- Either a statement of the sequence is refused, or the outcome is that of the whole sequence.
  pub apply_all-tally :
      (st : SessionState) (ss : List (Statement F64))
      → After (apply_all st ss) (λ st'. st'.outcome ≡ tally st.outcome ss)
  unfolding apply_all
  apply_all-tally st [] = ground arith
  apply_all-tally st (s ∷ ss) = go (apply st s) (apply-noted st s) (λ next. apply_all-tally next ss)
    where
      go :
          (r : Result Violation SessionState)
          → After r (λ st'. st'.outcome ≡ noted st.outcome s)
          → ((next : SessionState)
              → After (apply_all next ss) (λ st'. st'.outcome ≡ tally next.outcome ss))
          → After (r >>= λ next. apply_all next ss) (λ st'. st'.outcome ≡ tally st.outcome (s ∷ ss))
      go (err e) h rest = tt
      go (ok next) h rest =
          let e = ap (λ (o : SessionOutcome). tally o ss) h ∙ tally-noted st.outcome s ss in
          After-to (apply_all next ss) e (rest next)
