-- ===== src/Team/Board/Order.antt =====
-- `dependency_order` of agentiso/src/team/task_board.rs as a topological sort.
use agentiso.Prelude.{
  ◌^◌, ◌<◌, ◌≡◌, refl, some, List, [], Str, str_eq, nat_eq, nat_beq, nat_beq_iff, ltb, length,
  Bool-cases, inl, inr, Result, ok, err, arith,
}
use agentiso.Orchestrate.Plan.{TeamPlan}
use agentiso.Orchestrate.TeamDag.{keys_where, ids_of}
use agentiso.Orchestrate.Kahn.Build.{edge_count}
use agentiso.Orchestrate.Kahn.Order.{IsTopological, loop_lem}
use agentiso.Team.Board.Task.{BoardTask}
use agentiso.Team.Board.Dependencies.{nodes_of, dependency_order}

-- The tasks as a plan without roles.
abbrev pub plan_of : List BoardTask → TeamPlan
plan_of tasks = record { team_name = []; roles = []; tasks = nodes_of tasks }

-- A topological order of the tasks; or tasks that are in the way of each other, and no order exists.
abbrev pub IsOrder : List BoardTask → Result (List Str) (List Str) → Type 0
IsOrder tasks (ok order) = IsTopological (plan_of tasks) order
IsOrder tasks (err stuck) = (other : List Str) → ¬ IsTopological (plan_of tasks) other

-- For all tasks with fewer than 2^64 dependencies in all, `dependency_order` ends without a panic.
-- If it gives an order, it has as many tasks as the board, all of the board and none twice, and
-- whatever a task depends on, if it is on the board, stands before it. If it reports a cycle, there
-- is no such order.
pub dependency_order-IsOrder :
    (tasks : List BoardTask)
    → edge_count (nodes_of tasks) < 2 ^ 64
    → (r : Result (List Str) (List Str)) × (dependency_order tasks ≡ some r) × IsOrder tasks r
unfolding dependency_order
dependency_order-IsOrder tasks small =
    let (last, order, ran, good, complete) = loop_lem (plan_of tasks) small in
    let ids = ids_of (nodes_of tasks) in
    elim (Bool-cases (nat_beq (length order) (length ids))) [
      | inl all ↦ (
        ok order,
        rw (ran, dependency_order, all) refl,
        good ((nat_beq_iff (length order) (length ids)).0 all),
      )
      | inr stuck ↦ (
        err (keys_where (λ n. ltb 0 n) last),
        rw (ran, dependency_order, stuck) refl,
        λ other topological.
            absurd
              (ground (arith, complete other topological, nat_beq_iff (length order) (length ids))),
      )
    ]
