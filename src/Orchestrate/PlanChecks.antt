-- ===== src/Orchestrate/PlanChecks.antt =====
-- Which plans agentiso/src/workspace/orchestrate.rs lets through.
use agentiso.Prelude.{
  ◌≤◌, ◌≡◌, refl, ◌↔◌, true, false, List, [], ◌∷◌, Str, str_eq, str_beq_iff, length, All, ok, arith,
}
use agentiso.Prelude.Set
use agentiso.Orchestrate.Plan.{TaskDef, OrchestrationPlan, TeamTaskDef, TeamPlan}
use agentiso.Orchestrate.Load.{is_empty, check_tasks, validate_plan}
use agentiso.Orchestrate.TeamDag.{
  TeamPlanError, ids_of, names_of, set_of, check_known, check_depends_on, check_assigned_to,
  check_references,
}

abbrev pub task_names : List TaskDef → List Str
task_names [] = []
task_names (t ∷ ts) = t.name ∷ task_names ts

abbrev pub IsFilled : TaskDef → Type 0
IsFilled t = (is_empty t.name ≡ false) × (is_empty t.prompt ≡ false)

-- No text of the list is in the set.
abbrev Avoids : List Str → List Str → Type 0
Avoids seen [] = Unit
Avoids seen (x ∷ xs) = (Set.contains x seen ≡ false) × Avoids seen xs

insert-Avoids :
    (a : Str) (seen xs : List Str)
    → Avoids (Set.insert a seen) xs ↔ (Avoids seen xs × (Set.contains a xs ≡ false))
unfolding Set.contains
insert-Avoids a seen [] = (λ h. (tt, refl), λ h. tt)
insert-Avoids a seen (x ∷ xs) = (
  λ h. ground (
    arith,
    Set.contains-insert a x seen,
    str_beq_iff a x,
    str_beq_iff x a,
    insert-Avoids a seen xs,
  ),
  λ h. ground (
    arith,
    Set.contains-insert a x seen,
    str_beq_iff a x,
    str_beq_iff x a,
    insert-Avoids a seen xs,
  ),
)

Avoids-empty : (xs : List Str) → Avoids [] xs
unfolding Set.contains
Avoids-empty [] = tt
Avoids-empty (x ∷ xs) = (refl, Avoids-empty xs)

check_tasks_iff :
    (ts : List TaskDef) (seen : List Str)
    → (check_tasks ts seen ≡ ok tt)
      ↔ (All IsFilled ts × (Set.IsDistinct (task_names ts) × Avoids seen (task_names ts)))
unfolding check_tasks
check_tasks_iff [] seen = (λ h. (tt, (tt, tt)), λ h. refl)
check_tasks_iff (t ∷ ts) seen = (
  λ h. ground (
    arith,
    check_tasks_iff ts (Set.insert t.name seen),
    insert-Avoids t.name seen (task_names ts),
  ),
  λ h. ground (
    arith,
    check_tasks_iff ts (Set.insert t.name seen),
    insert-Avoids t.name seen (task_names ts),
  ),
)

-- What the engine relies on in a plan.
pub record IsRunnable (plan : OrchestrationPlan) : Type 0 where
  pub golden : is_empty plan.golden_workspace ≡ false
  pub some_task : is_empty plan.tasks ≡ false
  pub few_tasks : length plan.tasks ≤ 20
  pub filled : All IsFilled plan.tasks
  pub distinct : Set.IsDistinct (task_names plan.tasks)

-- A plan passes validation exactly when it names a golden workspace and has 1 to 20 tasks, each with
-- a name and a prompt, no two with the same name.
pub validate_plan-IsRunnable :
    (plan : OrchestrationPlan) → (validate_plan plan ≡ ok tt) ↔ IsRunnable plan
unfolding validate_plan
validate_plan-IsRunnable plan =
    let loop = check_tasks_iff plan.tasks [] in
    (
      λ h.
          let checked : check_tasks plan.tasks [] ≡ ok tt = ground arith in
          record {
            golden = ground arith;
            some_task = ground arith;
            few_tasks = ground arith;
            filled = (loop.0 checked).0;
            distinct = (loop.0 checked).1.0;
          },
      λ r.
          let checked : check_tasks plan.tasks [] ≡ ok tt =
            loop.1 (r.filled, (r.distinct, Avoids-empty (task_names plan.tasks))) in
          ground (arith, checked, r.golden, r.some_task, r.few_tasks),
    )

pub contains-set_of : (a : Str) (xs : List Str) → Set.contains a (set_of xs) ≡ Set.contains a xs
unfolding Set.contains
contains-set_of a [] = refl
contains-set_of a (x ∷ xs) =
    ground (arith, Set.contains-insert x a (set_of xs), contains-set_of a xs)

-- Every text of the second list is in the first.
abbrev pub AllIn : List Str → List Str → Type 0
AllIn known xs = All (λ x. Set.contains x known ≡ true) xs

check_known_iff :
    (missing : Str → TeamPlanError) (known xs : List Str)
    → (check_known missing (set_of known) xs ≡ ok tt) ↔ AllIn known xs
unfolding check_known
check_known_iff missing known [] = (λ h. tt, λ h. refl)
check_known_iff missing known (x ∷ xs) = (
  λ h. ground (arith, contains-set_of x known, check_known_iff missing known xs),
  λ h. ground (arith, contains-set_of x known, check_known_iff missing known xs),
)

check_depends_on_iff :
    (known : List Str) (ts : List TeamTaskDef)
    → (check_depends_on (set_of known) ts ≡ ok tt) ↔ All (λ t. AllIn known t.depends_on) ts
unfolding check_depends_on
check_depends_on_iff known [] = (λ h. tt, λ h. refl)
check_depends_on_iff known (t ∷ ts) = (
  λ h. ground (
    arith,
    check_known_iff (TeamPlanError.no_such_task t.id) known t.depends_on,
    check_depends_on_iff known ts,
  ),
  λ h. ground (
    arith,
    check_known_iff (TeamPlanError.no_such_task t.id) known t.depends_on,
    check_depends_on_iff known ts,
  ),
)

check_assigned_to_iff :
    (known : List Str) (ts : List TeamTaskDef)
    → (check_assigned_to (set_of known) ts ≡ ok tt) ↔ All (λ t. AllIn known t.assigned_to) ts
unfolding check_assigned_to
check_assigned_to_iff known [] = (λ h. tt, λ h. refl)
check_assigned_to_iff known (t ∷ ts) = (
  λ h. ground (
    arith,
    check_known_iff (TeamPlanError.no_such_role t.id) known t.assigned_to,
    check_assigned_to_iff known ts,
  ),
  λ h. ground (
    arith,
    check_known_iff (TeamPlanError.no_such_role t.id) known t.assigned_to,
    check_assigned_to_iff known ts,
  ),
)

-- The references of a team's plan pass exactly when each dependency is the identifier of one of its
-- tasks and each task is assigned to names of its roles only.
pub check_references_iff :
    (plan : TeamPlan)
    → (check_references plan ≡ ok tt) ↔ (
        All (λ t. AllIn (ids_of plan.tasks) t.depends_on) plan.tasks
        × All (λ t. AllIn (names_of plan.roles) t.assigned_to) plan.tasks)
unfolding check_references
check_references_iff plan =
    let deps = check_depends_on_iff (ids_of plan.tasks) plan.tasks in
    let roles = check_assigned_to_iff (names_of plan.roles) plan.tasks in
    (λ h. ground (arith, deps, roles), λ h. ground (arith, deps, roles))
