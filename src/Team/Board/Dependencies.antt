-- ===== src/Team/Board/Dependencies.antt =====
-- The dependencies between tasks (agentiso/src/team/task_board.rs): what `available_tasks`,
-- `is_task_ready` and `dependency_order` compute from the tasks that `list_tasks` gave them.
use agentiso.Prelude.{
  suc, Bool, true, false, ◌&&◌, Option, none, some, List, [], ◌∷◌, Str, str_eq, ◌==◌, ltb, nat_eq,
  nat_beq, length, all, keep, if◌then◌else◌, Result, ok, err,
}
use agentiso.Prelude.Set
use agentiso.Orchestrate.Plan.{TeamTaskDef}
use agentiso.Orchestrate.TeamDag.{
  Graph, ids_of, set_of, init_degrees, build, sort, keys_where, kahn_loop,
}
use agentiso.Team.Board.Task.{pending, completed, same_status, BoardTask}

unfoldable pub is_completed : BoardTask → Bool
unfolding same_status
is_completed t = same_status t.status completed

unfoldable pub is_pending : BoardTask → Bool
unfolding same_status
is_pending t = same_status t.status pending

-- The identifiers of the completed tasks, which the code collects into a set.
unfoldable pub completed_ids : List BoardTask → List Str
unfolding is_completed
completed_ids [] = []
completed_ids (t ∷ ts) =
    let rest = completed_ids ts in if is_completed t then Set.insert t.id rest else rest

-- `task.depends_on.iter().all(|dep| completed.contains(dep))`
abbrev pub deps_met : List Str → BoardTask → Bool
deps_met done t = all (λ dep. Set.contains dep done) t.depends_on

-- `task.owner.as_deref() != Some(name)` passes a task over, if a name is given.
abbrev pub owned_by : Option Str → BoardTask → Bool
owned_by none t = true
owned_by (some name) t = elim t.owner [ none ↦ false | some owner ↦ owner == name ]

unfoldable pub available_tasks : Option Str → List BoardTask → List BoardTask
unfolding completed_ids is_pending
available_tasks agent tasks =
    keep (λ t. is_pending t && (deps_met (completed_ids tasks) t && owned_by agent t)) tasks

unfoldable pub is_task_ready : BoardTask → List BoardTask → Bool
unfolding completed_ids
is_task_ready t tasks = deps_met (completed_ids tasks) t

-- The loops of `dependency_order` are those of `validate_team_dag`, on the identifiers and the
-- dependencies of the tasks: all other fields of these nodes are empty.
abbrev pub node_of : BoardTask → TeamTaskDef
node_of t = record {
  id = t.id;
  name = [];
  prompt = [];
  assigned_to = [];
  depends_on = t.depends_on;
  workdir = none;
  vault_context = none;
}

abbrev pub nodes_of : List BoardTask → List TeamTaskDef
nodes_of [] = []
nodes_of (t ∷ ts) = node_of t ∷ nodes_of ts

abbrev pub graph_of_tasks : List BoardTask → Graph
graph_of_tasks tasks =
    build (set_of (ids_of (nodes_of tasks))) (nodes_of tasks)
      (record { in_degree = init_degrees (ids_of (nodes_of tasks)) []; dependents = [] })

-- An order, or the tasks on a cycle. A round for each task and one for the end; `none` is the fuel
-- run out, or a panic.
unfoldable pub dependency_order : List BoardTask → Option (Result (List Str) (List Str))
unfolding init_degrees build kahn_loop sort
dependency_order tasks =
    let ids = ids_of (nodes_of tasks) in
    let g = graph_of_tasks tasks in
    elim (kahn_loop (suc (length ids)) g.dependents (sort (keys_where (λ n. n == 0) g.in_degree))
      g.in_degree []) [
        | none ↦ none
        | some (degrees, result) ↦ some (
            if nat_beq (length result) (length ids)
            then ok result
            else err (keys_where (λ n. ltb 0 n) degrees))
      ]
