-- ===== src/Server/Training/Examples.antt =====
-- A launch of one unit, with scores in percent, and what its content reports.
use cooperative_systems_spac.Prelude.{
  ℕ, ltb, ◌≤◌, Bool, true, false, List, [], ◌∷◌, String, Option, none, some, ok, err, ◌≡◌, refl,
  arith, inl,
}
use cooperative_systems_spac.Cmi5.Manifest.{MoveOn}
use cooperative_systems_spac.Cmi5.Statement.{
  StatementObject, Statement, is_moveon, lists_category, registration,
}
use cooperative_systems_spac.Cmi5.Verbs
use cooperative_systems_spac.Cmi5.Categories
use cooperative_systems_spac.Cmi5.Validation.{
  validate_cmi5_statement, check_result, reaches, has_category, is_au_verb, apply, step,
  evaluate_move_on,
}
use cooperative_systems_spac.Cmi5.Validation.Credit.{Earned}
use cooperative_systems_spac.Server.Training.{Cmi5Error, Cmi5AssignableUnit, TrainingStep, Lrs}
use cooperative_systems_spac.Server.Training.Launches.{
  LaunchIds, consume_fetch, create_launch, insert_launch, resolve_session,
}
use cooperative_systems_spac.Server.Training.Statements.{
  expectation, prior, replay, grant_step, grant_on_satisfaction, apply_statement, record_statement,
}
use cooperative_systems_spac.Server.Training.SingleUse.{consume_fetch-single_use}
use cooperative_systems_spac.Server.Training.Grants.{
  Request, serve, serve_all, grants, grants-le-one,
}
use cooperative_systems_spac.Server.Training.Launched.{session_of, launch, serve-Earned}

abbrev hashed : ℕ → String
hashed n = "hash"

abbrev named : ℕ → String
named n = "learner"

abbrev steps : ℕ → Option TrainingStep
steps n = some (record { tool_id = 9; requires_assessment = false })

abbrev laser : Cmi5AssignableUnit ℕ
laser = record {
  id = 4;
  course_id = 3;
  au_iri = "http://example.com/au/laser";
  move_on = "CompletedAndPassed";
  mastery_score = some 80;
  training_step_id = some 6;
}

abbrev before : Lrs ℕ
before = record {
  courses = record { id = 3; deleted_at = none } ∷ [];
  units = laser ∷ [];
  registrations = [];
  tokens = [];
  statements = [];
  completions = [];
}

abbrev minted : LaunchIds
minted = record { registration_id = 7; statement_id = 100; fetch_token = 5 }

abbrev said : String → Option ℕ → Option Bool → Option Bool → Statement ℕ
said verb scaled success completion = record {
  id = none;
  actor = record {
    object_type = none;
    name = none;
    mbox = none;
    account = some (record { home_page = "https://space"; name = "learner" });
  };
  verb = record { id = verb };
  object =
      StatementObject.activity (record { object_type = none; id = "http://example.com/au/laser" });
  result = some (record {
    score = some (record { scaled = scaled; raw = none; min = none; max = none });
    success = success;
    completion = completion;
    duration = none;
  });
  context = some (record {
    registration = some 7;
    context_activities = some (record {
      category = some (
          record { object_type = none; id = Categories.cmi5 }
          ∷ record { object_type = none; id = Categories.moveon }
          ∷ []);
      parent = none;
      grouping = none;
      other = none;
    });
  });
}

abbrev call : ℕ → Statement ℕ → Request ℕ
call id stmt = record {
  session = session_of ltb hashed named 10 100 steps minted 2 "https://space" laser;
  site_url = "https://space";
  hint = none;
  fresh = id;
  stmt = stmt;
  now = 50;
}

abbrev reports : List (Request ℕ)
reports =
    call 101 (said Verbs.initialized none none none)
    ∷ call 102 (said Verbs.completed none none (some true))
    ∷ []

abbrev passing : Request ℕ
passing = call 103 (said Verbs.passed (some 90) (some true) none)

serve-Earned_example :
    Earned ltb
      (expectation named
        (session_of ltb hashed named 10 100 steps minted 2 "https://space" laser)
        "https://space"
        laser)
      MoveOn.completed_and_passed
      (prior 7
        (serve ltb named steps passing (
          serve_all ltb named steps reports
            (launch ltb hashed named 10 100 steps minted 2 "https://space" laser 40
              before).1)).1.statements)
unfolding create_launch insert_launch record_statement expectation validate_cmi5_statement
    check_result reaches has_category is_au_verb lists_category registration apply step is_moveon
    replay apply_statement grant_on_satisfaction grant_step evaluate_move_on
serve-Earned_example =
    serve-Earned ltb hashed named 10 100 steps minted 2 "https://space" laser
      MoveOn.completed_and_passed 40 before reports passing refl refl refl refl
      (inl (refl, refl), (inl (refl, refl), tt)) refl refl refl

grants-le-one_example :
    grants ltb named steps 7
      (passing ∷ passing ∷ [])
      (launch ltb hashed named 10 100 steps minted 2 "https://space" laser 40 before).1
    ≤ 1
grants-le-one_example =
    grants-le-one ltb named steps 7 (passing ∷ passing ∷ [])
      (launch ltb hashed named 10 100 steps minted 2 "https://space" laser 40 before).1

consume_fetch-single_use_example :
    (consume_fetch hashed 5 12 46
      (consume_fetch hashed 5 11 45
        (launch ltb hashed named 10 100 steps minted 2 "https://space" laser 40 before).1).1).0
    ≡ err Cmi5Error.fetch_token_invalid
consume_fetch-single_use_example =
    consume_fetch-single_use hashed 5 11 12 45 46
      (launch ltb hashed named 10 100 steps minted 2 "https://space" laser 40 before).1
      (omega arith)

-- The first use is accepted, and the credential stands for the launch's own session.
consume_fetch_first :
    (consume_fetch hashed 5 11 45
      (launch ltb hashed named 10 100 steps minted 2 "https://space" laser 40 before).1).0
    ≡ ok 11
unfolding consume_fetch create_launch insert_launch
consume_fetch_first = refl

resolve_session_first :
    resolve_session hashed 11 46
      (consume_fetch hashed 5 11 45
        (launch ltb hashed named 10 100 steps minted 2 "https://space" laser 40 before).1).1
    ≡ some (session_of ltb hashed named 10 100 steps minted 2 "https://space" laser)
unfolding consume_fetch create_launch insert_launch resolve_session
resolve_session_first = refl
