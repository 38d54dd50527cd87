-- ===== src/Server/Training/Launches.antt =====
-- server/src/cmi5.rs: a launch, its one-time token, and the session that the token is traded for.
use cooperative_systems_spac.Prelude.{
  ℕ, suc, ltb, Bool, true, false, ◌&&◌, Option, none, some, List, [], ◌∷◌, ◌+◌, ◌++◌, map, find,
  String, ◌==◌, string_eq, nat_eq, is_some_and, Result, ok, err, if◌then◌else◌,
}
use cooperative_systems_spac.Cmi5.Manifest.{MoveOn, move_on_text, parse_move_on}
use cooperative_systems_spac.Cmi5.Statement.{StatementObject, Statement}
use cooperative_systems_spac.Cmi5.Verbs
use cooperative_systems_spac.Cmi5.Categories
use cooperative_systems_spac.Server.Training.{
  Cmi5Error, Cmi5AssignableUnit, Cmi5Registration, Cmi5LaunchToken, Cmi5Course, TrainingStep, Lrs,
  Cmi5SessionContext,
}

abbrev pub is_none : {A : Type 0} → Option A → Bool
is_none none = true
is_none (some a) = false

-- The filters of the claim.
abbrev pub is_claimable : String → ℕ → Cmi5LaunchToken → Bool
is_claimable fetch_hash now t =
    t.fetch_token_hash == fetch_hash && is_none t.fetch_consumed_at && ltb now t.expires_at

abbrev pub claim_token : String → String → ℕ → Cmi5LaunchToken → Cmi5LaunchToken
claim_token fetch_hash session_hash now t =
    if is_claimable fetch_hash now t
    then record t { fetch_consumed_at = some now; session_token_hash = some session_hash }
    else t

-- The claim's `UPDATE`, with the number of rows that it changed.
abbrev pub claim : String → String → ℕ → List Cmi5LaunchToken → List Cmi5LaunchToken × ℕ
claim fetch_hash session_hash now [] = ([], 0)
claim fetch_hash session_hash now (t ∷ ts) =
    let rest = claim fetch_hash session_hash now ts in
    (
      claim_token fetch_hash session_hash now t ∷ rest.0,
      if is_claimable fetch_hash now t then suc rest.1 else rest.1,
    )

abbrev pub is_session : (ℕ → String) → ℕ → ℕ → Cmi5LaunchToken → Bool
is_session hash_token session now t =
    is_some_and (λ h. h == hash_token session) t.session_token_hash && ltb now t.session_expires_at

module _ {F64 : Type 0} where
  -- The row of the two joins.
  abbrev pub context_of : Lrs F64 → Cmi5LaunchToken → Option Cmi5SessionContext
  context_of db token =
      elim (find (λ (r : Cmi5Registration). r.id == token.registration_id) db.registrations) [
        | none ↦ none
        | some r ↦ elim (find (λ (u : Cmi5AssignableUnit F64). u.id == r.au_id) db.units) [
          | none ↦ none
          | some u ↦ some (record {
            registration_id = r.id;
            user_id = r.user_id;
            au_id = r.au_id;
            activity_id = u.au_iri;
            launch_mode = r.launch_mode;
          })
        ]
      ]

module _ {F64 : Type 0} (hash_token : ℕ → String) where
  -- `fetch` is the token that is shown, `session` the one that is minted.
  unfoldable pub consume_fetch : ℕ → ℕ → ℕ → Lrs F64 → Result Cmi5Error ℕ × Lrs F64
  consume_fetch fetch session now db =
      let (tokens, affected) = claim (hash_token fetch) (hash_token session) now db.tokens in
      (
        if affected == 1 then ok session else err Cmi5Error.fetch_token_invalid,
        record db { tokens = tokens },
      )

  unfoldable pub resolve_session : ℕ → ℕ → Lrs F64 → Option Cmi5SessionContext
  resolve_session session now db = elim (find (is_session hash_token session now) db.tokens) [
    | none ↦ none
    | some token ↦ context_of db token
  ]

-- What is minted for a launch.
pub record LaunchIds : Type 0 where
  pub registration_id : ℕ
  pub statement_id : ℕ
  pub fetch_token : ℕ

module _ {F64 : Type 0} where
  -- The LMS's own statement.
  abbrev pub launched :
      (ℕ → String) → LaunchIds → ℕ → String → Cmi5AssignableUnit F64 → Statement F64
  launched uuid_text ids user_id site_url au = record {
    id = some ids.statement_id;
    actor = record {
      object_type = some "Agent";
      name = none;
      mbox = none;
      account = some (record { home_page = site_url; name = uuid_text user_id });
    };
    verb = record { id = Verbs.launched };
    object = StatementObject.activity (record { object_type = some "Activity"; id = au.au_iri });
    result = none;
    context = some (record {
      registration = some ids.registration_id;
      context_activities = some (record {
        category = some (record { object_type = none; id = Categories.cmi5 } ∷ []);
        parent = none;
        grouping = none;
        other = none;
      });
    });
  }

module _ {F64 : Type 0} (hash_token uuid_text : ℕ → String) (fetch_ttl session_ttl : ℕ) where
  -- The transaction.
  unfoldable pub insert_launch :
      LaunchIds → ℕ → String → Cmi5AssignableUnit F64 → ℕ → Lrs F64 → Lrs F64
  insert_launch ids user_id site_url au now t = record t {
    registrations =
        t.registrations
        ++ (record {
          id = ids.registration_id;
          user_id = user_id;
          au_id = au.id;
          launch_mode = "Normal";
          satisfied_at = none;
          passed_at = none;
          completed_at = none;
        }
            ∷ []);
    tokens =
        t.tokens
        ++ (record {
          registration_id = ids.registration_id;
          fetch_token_hash = hash_token ids.fetch_token;
          session_token_hash = none;
          fetch_consumed_at = none;
          expires_at = now + fetch_ttl;
          session_expires_at = now + session_ttl;
        }
            ∷ []);
    statements =
        t.statements
        ++ (record {
          registration_id = ids.registration_id;
          statement_id = ids.statement_id;
          statement = launched uuid_text ids user_id site_url au;
        }
            ∷ []);
  }

  unfoldable pub create_launch :
      LaunchIds → ℕ → ℕ → String → ℕ → Lrs F64 → Result Cmi5Error ℕ × Lrs F64
  unfolding insert_launch
  create_launch ids au_id user_id site_url now t =
      elim (find (λ (u : Cmi5AssignableUnit F64). u.id == au_id) t.units) [
        | none ↦ (err Cmi5Error.au_not_found, t)
        | some au ↦
            elim (find (λ (c : Cmi5Course). c.id == au.course_id && is_none c.deleted_at)
              t.courses) [
                | none ↦ (err Cmi5Error.course_not_found, t)
                | some course ↦ elim (parse_move_on au.move_on) [
                  | err e ↦ (err (Cmi5Error.manifest e), t)
                  | ok move_on ↦
                      (ok ids.registration_id, insert_launch ids user_id site_url au now t)
                ]
              ]
      ]

module _ {F64 : Type 0} (step_of : ℕ → Option TrainingStep) where
  abbrev pub bind_step : ℕ → Option ℕ → Cmi5AssignableUnit F64 → Cmi5AssignableUnit F64
  bind_step au_id step_id u = if u.id == au_id then record u { training_step_id = step_id } else u

  -- Why a step may not be bound to the unit.
  unfoldable pub check_step : Cmi5AssignableUnit F64 → Option ℕ → Option Cmi5Error
  check_step au none = none
  check_step au (some sid) = elim (step_of sid) [
    | none ↦ some Cmi5Error.step_not_found
    | some step ↦
        if step.requires_assessment
        then some Cmi5Error.step_requires_assessment
        else if au.move_on == move_on_text MoveOn.not_applicable
        then some Cmi5Error.move_on_not_applicable
        else none
  ]

  unfoldable pub assign_au_step : ℕ → Option ℕ → Lrs F64 → Result Cmi5Error (Unit {0}) × Lrs F64
  unfolding check_step
  assign_au_step au_id step_id t =
      elim (find (λ (u : Cmi5AssignableUnit F64). u.id == au_id) t.units) [
        | none ↦ (err Cmi5Error.au_not_found, t)
        | some au ↦ elim (check_step au step_id) [
          | some e ↦ (err e, t)
          | none ↦ (ok tt, record t { units = map (bind_step au_id step_id) t.units })
        ]
      ]
