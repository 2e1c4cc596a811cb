-- ===== src/Orchestrate/Examples.antt =====
-- Plans at concrete inputs.
use agentiso.Prelude.{
  ◌≡◌, refl, ◌↔◌, none, some, List, [], ◌∷◌, Str, str_eq, str_beq, codes, All, Result, ok, err,
  arith,
}
use agentiso.Prelude.Dict
use agentiso.Prelude.Set
use agentiso.Orchestrate.Plan.{OrchestrationPlan, TeamTaskDef, TeamPlan, default_snapshot_name}
use agentiso.Orchestrate.Load.{validate_plan}
use agentiso.Orchestrate.TeamDag.{
  TeamPlanError, dependency_cycle, ids_of, names_of, check_references, validate_team_dag,
}
use agentiso.Orchestrate.Kahn.Runs.{runs}
use agentiso.Orchestrate.Kahn.Order.{
  IsTopological, validate_team_dag_complete, IsAnswer, validate_team_dag-IsTopological,
}
use agentiso.Orchestrate.PlanChecks.{
  IsRunnable, validate_plan-IsRunnable, AllIn, check_references_iff,
}

abbrev two_tasks : OrchestrationPlan
two_tasks = record {
  golden_workspace = codes "base";
  snapshot_name = default_snapshot_name;
  tasks =
      record { name = codes "a"; prompt = codes "do"; workdir = none; vault_context = none }
      ∷ record { name = codes "b"; prompt = codes "do"; workdir = none; vault_context = none }
      ∷ [];
  mcp_bridge = none;
}

validate_plan-IsRunnable_example : (validate_plan two_tasks ≡ ok tt) ↔ IsRunnable two_tasks
validate_plan-IsRunnable_example = validate_plan-IsRunnable two_tasks

abbrev task : Str → List Str → TeamTaskDef
task id deps = record {
  id = id;
  name = id;
  prompt = codes "do";
  assigned_to = codes "dev" ∷ [];
  depends_on = deps;
  workdir = none;
  vault_context = none;
}

abbrev team : List TeamTaskDef → TeamPlan
team tasks = record {
  team_name = codes "t";
  roles = record { name = codes "dev"; role = codes "developer"; skills = []; count = none } ∷ [];
  tasks = tasks;
}

abbrev diamond : TeamPlan
diamond = team (
    task (codes "d") (codes "b" ∷ codes "c" ∷ [])
    ∷ task (codes "c") (codes "a" ∷ [])
    ∷ task (codes "b") (codes "a" ∷ [])
    ∷ task (codes "a") []
    ∷ [])

program : Unit {0}
unfolding validate_team_dag Set.contains Set.insert Dict.lookup Dict.insert str_beq
program = tt

diamond_order :
    validate_team_dag diamond ≡ some (ok (codes "a" ∷ codes "b" ∷ codes "c" ∷ codes "d" ∷ []))
unfolding program
diamond_order = refl

loop_refused :
    validate_team_dag
      (team (task (codes "x") (codes "y" ∷ []) ∷ task (codes "y") (codes "x" ∷ []) ∷ []))
    ≡ some (err (dependency_cycle (codes "x" ∷ codes "y" ∷ [])))
unfolding program
loop_refused = refl

check_references_iff_example : (check_references diamond ≡ ok tt) ↔ (
    All (λ t. AllIn (ids_of diamond.tasks) t.depends_on) diamond.tasks
    × All (λ t. AllIn (names_of diamond.roles) t.assigned_to) diamond.tasks)
check_references_iff_example = check_references_iff diamond

validate_team_dag-IsTopological_example :
    (r : Result TeamPlanError (List Str)) × (validate_team_dag diamond ≡ some r)
    × IsAnswer diamond r
validate_team_dag-IsTopological_example = validate_team_dag-IsTopological diamond (omega arith)

abbrev diamond_names : List Str
diamond_names = codes "a" ∷ codes "c" ∷ codes "b" ∷ codes "d" ∷ []

diamond-IsTopological : IsTopological diamond diamond_names
unfolding runs Set.contains str_beq
diamond-IsTopological = record {
  distinct = (refl, (refl, (refl, (refl, tt))));
  inside = (refl, (refl, (refl, (refl, tt))));
  complete = refl;
  runs_all = refl;
}

validate_team_dag_complete_example :
    (order : List Str) × (validate_team_dag diamond ≡ some (ok order)) × IsTopological diamond order
validate_team_dag_complete_example =
    validate_team_dag_complete diamond diamond_names (omega arith) diamond-IsTopological
