-- ===== src/Cmi5/Validation/Examples.antt =====
-- A session that is ended and goes on.
use cooperative_systems_spac.Prelude.{ℕ, false, List, [], ◌∷◌, String, none, some, ◌≡◌, refl}
use cooperative_systems_spac.Cmi5.Statement.{StatementObject, Statement, is_moveon, lists_category}
use cooperative_systems_spac.Cmi5.Verbs
use cooperative_systems_spac.Cmi5.Categories
use cooperative_systems_spac.Cmi5.Validation.{new, apply, step}
use cooperative_systems_spac.Cmi5.Validation.Sequence.{
  is_ok, apply_all, is_in_order, apply_all-is_in_order,
}

abbrev report : String → Statement ℕ
report verb = record {
  id = none;
  actor = record { object_type = none; name = none; mbox = none; account = none };
  verb = record { id = verb };
  object = StatementObject.activity (record { object_type = none; id = "au" });
  result = none;
  context = some (record {
    registration = none;
    context_activities = some (record {
      category = some (record { object_type = none; id = Categories.moveon } ∷ []);
      parent = none;
      grouping = none;
      other = none;
    });
  });
}

abbrev ended : List (Statement ℕ)
ended =
    report Verbs.initialized
    ∷ report Verbs.passed
    ∷ report Verbs.terminated
    ∷ report Verbs.completed
    ∷ []

apply_all-is_in_order_example : is_ok (apply_all new ended) ≡ is_in_order ended
apply_all-is_in_order_example = apply_all-is_in_order ended

apply_all-ended : is_ok (apply_all new ended) ≡ false
unfolding apply_all apply step is_moveon lists_category
apply_all-ended = refl
