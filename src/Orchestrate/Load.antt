-- ===== src/Orchestrate/Load.antt =====
-- `load_plan` and `validate_plan` of agentiso/src/workspace/orchestrate.rs. Reading a file and
-- parsing TOML are parameters.
use agentiso.Prelude.{
  ℕ, ◌*◌, Bool, true, false, Option, List, [], ◌∷◌, Str, str_eq, length, Result, ok, ok_or, fail_if,
  ◌>>=◌, ◌>>◌, ltb,
}
use agentiso.Prelude.Set
use agentiso.Orchestrate.Plan.{TaskDef, OrchestrationPlan}

pub data PlanError : Type 0 where
  unreadable too_large malformed : PlanError
  no_golden_workspace no_tasks : PlanError
  too_many_tasks : ℕ → PlanError
  no_task_name : PlanError
  no_prompt duplicate_name : Str → PlanError

abbrev pub is_empty {ℓ} : {A : Type ℓ} → List A → Bool
is_empty [] = true
is_empty (x ∷ xs) = false

-- The loop over the tasks; `seen` has the names of the ones before.
unfoldable pub check_tasks : List TaskDef → List Str → Result PlanError (Unit {0})
check_tasks [] seen = ok tt
check_tasks (task ∷ tasks) seen =
    let later = check_tasks tasks (Set.insert task.name seen) in
    do
      fail_if (is_empty task.name) no_task_name
      fail_if (is_empty task.prompt) (no_prompt task.name)
      fail_if (Set.contains task.name seen) (duplicate_name task.name)
      later

unfoldable pub validate_plan : OrchestrationPlan → Result PlanError (Unit {0})
unfolding check_tasks
validate_plan plan = do
  fail_if (is_empty plan.golden_workspace) no_golden_workspace
  fail_if (is_empty plan.tasks) no_tasks
  fail_if (ltb 20 (length plan.tasks)) (too_many_tasks (length plan.tasks))
  check_tasks plan.tasks []

module _ (read_to_string : Str → Option Str) (from_toml : Str → Option OrchestrationPlan) where
  unfoldable pub load_plan : Str → Result PlanError OrchestrationPlan
  load_plan path = do
    content ← ok_or (read_to_string path) unreadable
    fail_if (ltb (10 * 1024 * 1024) (length content)) too_large
    plan ← ok_or (from_toml content) malformed
    validate_plan plan
    ok plan
