-- ===== src/Orchestrate/Kahn/Order.antt =====
-- `validate_team_dag` of agentiso/src/workspace/orchestrate.rs as a topological sort.
use agentiso.Prelude.{
  ℕ, suc, ◌+◌, ◌^◌, ◌≤◌, ◌<◌, ◌≡◌, refl, sym, ap, subst, ◌∙◌, true, some, List, [], ◌∷◌, Str,
  str_eq, str_beq_iff, nat_eq, nat_beq, nat_beq_iff, ltb, ◌==◌, length, all, All, Bool-cases, inl,
  inr, ◌⊎◌, Result, ok, err, arith,
}
use mathlib.Core.List.{append-nil}
use agentiso.Prelude.Dict
use agentiso.Prelude.Set
use agentiso.Orchestrate.Plan.{TeamTaskDef, TeamPlan}
use agentiso.Orchestrate.TeamDag.{
  TeamPlanError, duplicate_ids, dependency_cycle, Graph, ids_of, set_of, init_degrees, build,
  keys_where, sort, kahn_loop, dependents_of, validate_team_dag,
}
use agentiso.Orchestrate.PlanChecks.{contains-set_of}
use agentiso.Orchestrate.Kahn.Sorting.{contains-sort, sort-IsDistinct}
use agentiso.Orchestrate.Kahn.Degrees.{count, pending}
use agentiso.Orchestrate.Kahn.Loop.{IsState, kahn_loop_total}
use agentiso.Orchestrate.Kahn.Graph.{
  IsGraph, empty-IsGraph, contains-keys_where, keys_where-IsDistinct,
}
use agentiso.Orchestrate.Kahn.Runs.{runs, ordered-runs, runs_finished}
use agentiso.Orchestrate.Kahn.Sources.{depends, build_source}
use agentiso.Orchestrate.Kahn.Build.{edge_count, build_lem}

-- A topological order of the plan's tasks.
pub record IsTopological (plan : TeamPlan) (order : List Str) : Type 0 where
  pub distinct : Set.IsDistinct order
  pub inside : All (λ x. Set.contains x (ids_of plan.tasks) ≡ true) order
  pub complete : length order ≡ length plan.tasks
  pub runs_all : runs plan.tasks (ids_of plan.tasks) [] order ≡ true

All-listed :
    (xs ids : List Str)
    → ((x : Str) → Set.contains x xs ≡ true → Set.contains x ids ≡ true)
    → All (λ x. Set.contains x ids ≡ true) xs
unfolding Set.contains
All-listed [] ids sub = tt
All-listed (x ∷ xs) ids sub =
    (sub x (ground (arith, str_beq_iff x x)), All-listed xs ids (λ y h. sub y (ground arith)))

All-tasks_listed :
    (ts : List TeamTaskDef)
    → (ids : List Str) → ((x : Str) → Set.contains x (ids_of ts) ≡ true → Set.contains x ids ≡ true)
    → All (λ t. Set.contains t.id ids ≡ true) ts
unfolding Set.contains
All-tasks_listed [] ids sub = tt
All-tasks_listed (t ∷ ts) ids sub = (
  sub t.id (ground (arith, str_beq_iff t.id t.id)),
  All-tasks_listed ts ids (λ x h. sub x (ground arith)),
)

start-IsState :
    (ids : List Str) (edges : ℕ) (g : Graph)
    → edges < 2 ^ 64
    → (v : IsGraph ids edges g)
    → IsState ids g.dependents v.single v.known
        (sort (keys_where (λ n. n == 0) g.in_degree))
        g.in_degree
        []
start-IsState ids edges g small v =
    let at = λ (x : Str). contains-keys_where (λ n. n == 0) x g.in_degree v.once in
    let sorted = λ (x : Str). contains-sort x (keys_where (λ n. n == 0) g.in_degree) in
    record {
      distinct =
          sort-IsDistinct (keys_where (λ n. n == 0) g.in_degree)
            (keys_where-IsDistinct (λ n. n == 0) g.in_degree v.once);
      inside = λ x h. ground (arith, at x, sorted x, v.degree x);
      degree = λ x h. ground (arith, v.degree x);
      small = λ x. omega (arith, v.few x);
      free = λ x h. ground (arith, at x, sorted x, v.degree x);
      ordered = tt;
    }

-- The maps that the code builds, and the loop on them.
abbrev pub graph_of : TeamPlan → Graph
graph_of plan =
    build (set_of (ids_of plan.tasks)) plan.tasks
      (record { in_degree = init_degrees (ids_of plan.tasks) []; dependents = [] })

pub length-ids_of : (ts : List TeamTaskDef) → length (ids_of ts) ≡ length ts
length-ids_of [] = refl
length-ids_of (t ∷ ts) = omega (arith, length-ids_of ts)

nothing_done : (x : Str) (xs : List Str) → Set.contains x [] ≡ true → Set.contains x xs ≡ true
unfolding Set.contains
nothing_done x xs h = absurd (cc)

-- An edge comes from a dependency that is in the plan.
edge_source :
    (plan : TeamPlan) (x v : Str)
    → 1 ≤ count x (dependents_of v (graph_of plan).dependents)
    → (depends plan.tasks x v ≡ true) × (Set.contains v (ids_of plan.tasks) ≡ true)
unfolding count Dict.lookup
edge_source plan x v h =
    elim (build_source (set_of (ids_of plan.tasks)) x v plan.tasks
      (record { in_degree = init_degrees (ids_of plan.tasks) []; dependents = [] }) h) [
        | inl old ↦ absurd (omega arith)
        | inr (dep, listed) ↦ (dep, sym (contains-set_of v (ids_of plan.tasks)) ∙ listed)
      ]

length-set_of : (xs : List Str) → length (set_of xs) ≤ length xs
length-set_of [] = omega arith
length-set_of (x ∷ xs) = ground (arith, length-set_of xs, Set.length-insert x (set_of xs))

pub listed-All :
    (xs ids : List Str) (x : Str)
    → All (λ y. Set.contains y ids ≡ true) xs
    → Set.contains x xs ≡ true
    → Set.contains x ids ≡ true
unfolding Set.contains
listed-All [] ids x h e = absurd (cc)
listed-All (y ∷ xs) ids x h e = elim (Bool-cases (y == x)) [
  | inl this ↦ subst (λ z. Set.contains z ids ≡ true) ((str_beq_iff y x).0 this) h.0
  | inr other ↦ listed-All xs ids x h.1 (ground arith)
]

-- What the loop does on the maps of a plan.
pub loop_lem :
    (plan : TeamPlan)
    → edge_count plan.tasks < 2 ^ 64
    → (last : Dict.Dict Str ℕ) × (order : List Str) × (kahn_loop
          (suc (length (ids_of plan.tasks)))
          (graph_of plan).dependents
          (sort (keys_where (λ n. n == 0) (graph_of plan).in_degree))
          (graph_of plan).in_degree
          []
        ≡ some (last, order))
      × (length order ≡ length (ids_of plan.tasks) → IsTopological plan order)
      × ((other : List Str) → IsTopological plan other → length order ≡ length (ids_of plan.tasks))
loop_lem plan small =
    let ids = ids_of plan.tasks in
    let (graph, more, edges) =
      build_lem ids (set_of ids) 0 plan.tasks
        (record { in_degree = init_degrees ids []; dependents = [] })
        (All-tasks_listed plan.tasks ids (λ x h. h)) (omega arith) (empty-IsGraph ids) in
    let (last, order, ran, end) =
      kahn_loop_total ids (graph_of plan).dependents graph.single graph.known (suc (length ids))
        (sort (keys_where (λ n. n == 0) (graph_of plan).in_degree)) (graph_of plan).in_degree []
        (start-IsState ids (0 + edge_count plan.tasks) (graph_of plan) (omega arith) graph)
        (omega arith) in
    (
      last,
      order,
      ran,
      λ all. record {
        distinct = subst Set.IsDistinct (append-nil order) end.distinct;
        inside =
            All-listed order ids (λ x h. end.inside x (ap (Set.contains x) (append-nil order) ∙ h));
        complete = all ∙ length-ids_of plan.tasks;
        runs_all = ordered-runs ids (graph_of plan) plan.tasks [] order edges end.ordered;
      },
      λ other good.
          let within : (x : Str) → Set.contains x order ≡ true → Set.contains x ids ≡ true =
            λ x h. end.inside x (ap (Set.contains x) (append-nil order) ∙ h) in
          let distinct : Set.IsDistinct order =
            subst Set.IsDistinct (append-nil order) end.distinct in
          let finished : (x : Str) → Set.contains x other ≡ true → Set.contains x order ≡ true =
            runs_finished plan.tasks ids order [] other (graph_of plan).dependents graph.single
              (edge_source plan)
              (λ x listed none_left.
                sym (ap (Set.contains x) (append-nil order))
                ∙ end.free x listed
                ∙ (nat_beq_iff (pending x order (graph_of plan).dependents) 0).1 none_left)
              (λ x h. nothing_done x order h) good.inside good.runs_all in
          omega (
            arith,
            length-ids_of plan.tasks,
            good.complete,
            Set.length-le_of_subset other order good.distinct finished,
            Set.length-le_of_subset order ids distinct within,
          ),
    )

-- What `validate_team_dag` may answer: a topological order, or one of its two errors.
abbrev pub IsAnswer : TeamPlan → Result TeamPlanError (List Str) → Type 0
IsAnswer plan (ok order) = IsTopological plan order
IsAnswer plan (err e) = (e ≡ duplicate_ids) ⊎ ((stuck : List Str) × (e ≡ dependency_cycle stuck))

-- For every plan with fewer than 2^64 dependencies, `validate_team_dag` ends without a panic; an
-- order that it gives has as many tasks as the plan, all of the plan and none twice, and the tasks
-- can run in it one after the other: whatever a task depends on stands before it, if it is a task of
-- the plan. A dependency that is no task of the plan does not count.
pub validate_team_dag-IsTopological :
    (plan : TeamPlan)
    → edge_count plan.tasks < 2 ^ 64
    → (r : Result TeamPlanError (List Str)) × (validate_team_dag plan ≡ some r) × IsAnswer plan r
unfolding validate_team_dag
validate_team_dag-IsTopological plan small =
    let ids = ids_of plan.tasks in
    let (last, order, ran, good, complete) = loop_lem plan small in
    elim (Bool-cases (nat_beq (length (set_of ids)) (length ids))) [
      | inr twice ↦ (err duplicate_ids, rw twice refl, inl refl)
      | inl once ↦ elim (Bool-cases (nat_beq (length order) (length ids))) [
        | inl all ↦ (
          ok order,
          rw (once, ran, all) refl,
          good ((nat_beq_iff (length order) (length ids)).0 all),
        )
        | inr stuck ↦
            let cycle = keys_where (λ n. ltb 0 n) last in
            (err (dependency_cycle cycle), rw (once, ran, stuck) refl, inr (cycle, refl))
      ]
    ]

-- If the tasks of a plan with fewer than 2^64 dependencies have a topological order, then
-- `validate_team_dag` gives one.
pub validate_team_dag_complete :
    (plan : TeamPlan) (other : List Str)
    → edge_count plan.tasks < 2 ^ 64
    → IsTopological plan other
    → (order : List Str) × (validate_team_dag plan ≡ some (ok order)) × IsTopological plan order
unfolding validate_team_dag
validate_team_dag_complete plan other small good =
    let ids = ids_of plan.tasks in
    let (last, order, ran, topological, complete) = loop_lem plan small in
    let all : length order ≡ length ids = complete other good in
    let few : length other ≤ length (set_of ids) =
      Set.length-le_of_subset other (set_of ids) good.distinct
        (λ x h. contains-set_of x ids ∙ listed-All other ids x good.inside h) in
    let once : length (set_of ids) ≡ length ids =
      omega (arith, good.complete, length-ids_of plan.tasks, length-set_of ids, few) in
    (
      order,
      rw
          (
            (nat_beq_iff (length (set_of ids)) (length ids)).1 once,
            ran,
            (nat_beq_iff (length order) (length ids)).1 all,
          )
          refl,
      topological all,
    )
