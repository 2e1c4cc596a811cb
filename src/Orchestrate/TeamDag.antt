-- ===== src/Orchestrate/TeamDag.antt =====
-- `parse_team_plan` and `validate_team_dag` of agentiso/src/workspace/orchestrate.rs. Parsing TOML
-- is a parameter. A hash map is its entries in order of insertion: the code sorts what it takes
-- from one, but for the list in the error about a cycle, whose order means nothing.
use agentiso.Prelude.{
  ℕ, zero, suc, ◌+◌, ◌-◌, ◌^◌, Bool, true, false, not, Option, none, some, List, [], ◌∷◌, ◌++◌, Str,
  str_eq, nat_eq, ◌==◌, ltb, nat_beq, length, if◌then◌else◌, Result, ok, err, fail_if, ◌>>◌,
}
use agentiso.Prelude.Word.{u64}
use agentiso.Prelude.Dict.{Dict}
use agentiso.Prelude.Dict
use agentiso.Prelude.Set
use agentiso.Orchestrate.Plan.{TeamRoleDef, TeamTaskDef, TeamPlan}

pub data TeamPlanError : Type 0 where
  bad_toml duplicate_ids : TeamPlanError
  no_such_task no_such_role : (task missing : Str) → TeamPlanError
  dependency_cycle : List Str → TeamPlanError

abbrev pub ids_of : List TeamTaskDef → List Str
ids_of [] = []
ids_of (t ∷ ts) = t.id ∷ ids_of ts

abbrev pub names_of : List TeamRoleDef → List Str
names_of [] = []
names_of (r ∷ rs) = r.name ∷ names_of rs

-- `collect::<HashSet<_>>()`
abbrev pub set_of : List Str → List Str
set_of [] = []
set_of (x ∷ xs) = Set.insert x (set_of xs)

-- One of the two loops over references: the first that is not known is the error.
unfoldable pub check_known :
    (Str → TeamPlanError) → List Str → List Str → Result TeamPlanError (Unit {0})
check_known missing known [] = ok tt
check_known missing known (x ∷ xs) =
    let later = check_known missing known xs in
    fail_if (not (Set.contains x known)) (missing x) >> later

unfoldable pub check_depends_on : List Str → List TeamTaskDef → Result TeamPlanError (Unit {0})
unfolding check_known
check_depends_on known [] = ok tt
check_depends_on known (t ∷ ts) =
    let later = check_depends_on known ts in
    check_known (no_such_task t.id) known t.depends_on >> later

unfoldable pub check_assigned_to : List Str → List TeamTaskDef → Result TeamPlanError (Unit {0})
unfolding check_known
check_assigned_to known [] = ok tt
check_assigned_to known (t ∷ ts) =
    let later = check_assigned_to known ts in
    check_known (no_such_role t.id) known t.assigned_to >> later

-- The maps of the algorithm: how many dependencies each task waits for, and who waits for it.
pub record Graph : Type 0 where
  pub in_degree : Dict Str ℕ
  pub dependents : Dict Str (List Str)

-- `entry(key).or_insert(0)` and `entry(key).or_default()`
abbrev pub degree_of : Str → Dict Str ℕ → ℕ
degree_of id m = elim (Dict.lookup id m) [ none ↦ 0 | some n ↦ n ]

abbrev pub dependents_of : Str → Dict Str (List Str) → List Str
dependents_of id m = elim (Dict.lookup id m) [ none ↦ [] | some ids ↦ ids ]

unfoldable pub init_degrees : List Str → Dict Str ℕ → Dict Str ℕ
init_degrees [] m = m
init_degrees (id ∷ ids) m = init_degrees ids (Dict.insert id (degree_of id m) m)

unfoldable pub add_edge : List Str → Str → Str → Graph → Graph
add_edge id_set task dep g =
    if Set.contains dep id_set
    then record {
      in_degree = Dict.insert task (u64 (degree_of task g.in_degree + 1)) g.in_degree;
      dependents = Dict.insert dep (dependents_of dep g.dependents ++ task ∷ []) g.dependents;
    }
    else g

unfoldable pub add_edges : List Str → Str → List Str → Graph → Graph
unfolding add_edge
add_edges id_set task [] g = g
add_edges id_set task (dep ∷ deps) g = add_edges id_set task deps (add_edge id_set task dep g)

unfoldable pub build : List Str → List TeamTaskDef → Graph → Graph
unfolding add_edges
build id_set [] g = g
build id_set (t ∷ ts) g = build id_set ts (add_edges id_set t.id t.depends_on g)

-- The order of texts: by bytes.
unfoldable pub str_leb : Str → Str → Bool
str_leb [] t = true
str_leb (a ∷ s) [] = false
str_leb (a ∷ s) (b ∷ t) =
    let rest = str_leb s t in if ltb a b then true else (if nat_beq a b then rest else false)

unfoldable pub insert_sorted : Str → List Str → List Str
unfolding str_leb
insert_sorted x [] = x ∷ []
insert_sorted x (y ∷ ys) =
    let later = insert_sorted x ys in if str_leb x y then x ∷ y ∷ ys else y ∷ later

unfoldable pub sort : List Str → List Str
unfolding insert_sorted
sort [] = []
sort (x ∷ xs) = insert_sorted x (sort xs)

-- The keys whose value passes the test.
abbrev pub keys_where : (ℕ → Bool) → Dict Str ℕ → List Str
keys_where p [] = []
keys_where p ((id, n) ∷ m) = let rest = keys_where p m in if p n then id ∷ rest else rest

-- The loop over the dependents of a finished task: the degrees after it, and the tasks that are now
-- free, in order. `none` is the panic of `unwrap` on a task without an entry.
unfoldable pub release_dependents :
    List Str → Dict Str ℕ → List Str → Option (Dict Str ℕ × List Str)
release_dependents [] degrees next = some (degrees, next)
release_dependents (dep ∷ deps) degrees next = elim (Dict.lookup dep degrees) [
  | none ↦ none
  | some deg ↦
      let left = u64 (deg + 2 ^ 64 - 1) in
      release_dependents deps (Dict.insert dep left degrees)
        (if left == 0 then next ++ dep ∷ [] else next)
]

-- The loop over the queue, with fuel: `none` means that the fuel ran out, or a panic.
unfoldable pub kahn_loop :
    ℕ → Dict Str (List Str) → List Str → Dict Str ℕ → List Str → Option (Dict Str ℕ × List Str)
unfolding release_dependents sort
kahn_loop zero dependents queue degrees result = none
kahn_loop (suc fuel) dependents [] degrees result = some (degrees, result)
kahn_loop (suc fuel) dependents (node ∷ queue) degrees result =
    elim (release_dependents (dependents_of node dependents) degrees []) [
      | none ↦ none
      | some (after, next) ↦
          kahn_loop fuel dependents (queue ++ sort next) after (result ++ node ∷ [])
    ]

-- Each task enters the queue once, so a round for each and one for the end are enough.
unfoldable pub validate_team_dag : TeamPlan → Option (Result TeamPlanError (List Str))
unfolding init_degrees build kahn_loop sort
validate_team_dag plan =
    let task_ids = ids_of plan.tasks in
    let id_set = set_of task_ids in
    let g =
      build id_set plan.tasks (record { in_degree = init_degrees task_ids []; dependents = [] }) in
    if nat_beq (length id_set) (length task_ids)
    then (elim (kahn_loop (suc (length task_ids)) g.dependents
        (sort (keys_where (λ n. n == 0) g.in_degree)) g.in_degree []) [
          | none ↦ none
          | some (degrees, result) ↦ some (
              if nat_beq (length result) (length task_ids)
              then ok result
              else err (dependency_cycle (keys_where (λ n. ltb 0 n) degrees)))
        ])
    else some (err duplicate_ids)

-- The plan's references, checked before its order.
unfoldable pub check_references : TeamPlan → Result TeamPlanError (Unit {0})
unfolding check_depends_on check_assigned_to
check_references plan = do
  check_depends_on (set_of (ids_of plan.tasks)) plan.tasks
  check_assigned_to (set_of (names_of plan.roles)) plan.tasks

module _ (from_toml : Str → Option TeamPlan) where
  unfoldable pub parse_team_plan : Str → Option (Result TeamPlanError TeamPlan)
  unfolding check_references validate_team_dag
  parse_team_plan text = elim (from_toml text) [
    | none ↦ some (err bad_toml)
    | some plan ↦ elim (check_references plan) [
      | err e ↦ some (err e)
      | ok u ↦ elim (validate_team_dag plan) [
        | none ↦ none
        | some (err e) ↦ some (err e)
        | some (ok order) ↦ some (ok plan)
      ]
    ]
  ]
