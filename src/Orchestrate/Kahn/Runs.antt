-- ===== src/Orchestrate/Kahn/Runs.antt =====
-- Running the tasks of a plan one after the other, against the edges that `validate_team_dag`
-- (agentiso/src/workspace/orchestrate.rs) stores.
use agentiso.Prelude.{
  ◌≤◌, ◌≡◌, refl, subst, Bool, true, false, not, ◌||◌, List, [], ◌∷◌, ◌++◌, Str, str_eq,
  str_beq_iff, nat_eq, ◌==◌, if◌then◌else◌, all, All, Bool-cases, inl, inr, arith,
}
use agentiso.Prelude.Dict
use agentiso.Prelude.Set
use agentiso.Orchestrate.Plan.{TeamTaskDef}
use agentiso.Orchestrate.TeamDag.{Graph, set_of, dependents_of}
use agentiso.Orchestrate.PlanChecks.{contains-set_of}
use agentiso.Orchestrate.Kahn.Degrees.{count, pending}
use agentiso.Orchestrate.Kahn.Loop.{IsOrdered}
use agentiso.Orchestrate.Kahn.Build.{HasEdges, HasAllEdges}
use agentiso.Orchestrate.Kahn.Sources.{depends, pending_done}

-- Whether all dependencies that are tasks of the plan are done.
abbrev pub deps_done : List Str → List Str → List Str → Bool
deps_done ids done deps = all (λ d. not (Set.contains d ids) || Set.contains d done) deps

-- Whether a task may run: the dependencies of every task with its identifier are done.
abbrev pub is_ready : List TeamTaskDef → List Str → List Str → Str → Bool
is_ready ts ids done y = all (λ t. not (t.id == y) || deps_done ids done t.depends_on) ts

-- Whether the tasks may run one after the other.
unfoldable pub runs : List TeamTaskDef → List Str → List Str → List Str → Bool
runs ts ids done [] = true
runs ts ids done (y ∷ ys) =
    if is_ready ts ids done y then runs ts ids (done ++ y ∷ []) ys else false

module _ (ids : List Str) (g : Graph) where
  -- Edges into a task come from tasks that are done.
  abbrev EdgesDone : List Str → Str → Type 0
  EdgesDone done y =
      (v : Str) → 1 ≤ count y (dependents_of v g.dependents) → Set.contains v done ≡ true

  ready_deps :
      (done deps : List Str) (y : Str)
      → EdgesDone done y
      → HasEdges ids (set_of ids) y deps g
      → deps_done ids done deps ≡ true
  ready_deps done [] y edges has = refl
  ready_deps done (d ∷ deps) y edges has =
      ground (arith, ready_deps done deps y edges has.1, edges d, contains-set_of d ids, has.0)

  ready_tasks :
      (ts : List TeamTaskDef) (done : List Str) (y : Str)
      → EdgesDone done y
      → HasAllEdges ids (set_of ids) ts g
      → is_ready ts ids done y ≡ true
  ready_tasks [] done y edges has = refl
  ready_tasks (t ∷ ts) done y edges has = elim (Bool-cases (t.id == y)) [
    | inl same ↦
        let mine : HasEdges ids (set_of ids) y t.depends_on g =
          subst (λ i. HasEdges ids (set_of ids) i t.depends_on g) ((str_beq_iff t.id y).0 same)
            has.0 in
        ground (arith, ready_deps done t.depends_on y edges mine, ready_tasks ts done y edges has.1)
    | inr other ↦ ground (arith, ready_tasks ts done y edges has.1)
  ]

  pub ordered-runs :
      (ts : List TeamTaskDef) (done order : List Str)
      → HasAllEdges ids (set_of ids) ts g
      → IsOrdered g.dependents done order
      → runs ts ids done order ≡ true
  unfolding runs
  ordered-runs ts done [] has h = refl
  ordered-runs ts done (y ∷ ys) has h =
      rw (ready_tasks ts done y h.0 has) (ordered-runs ts (done ++ y ∷ []) ys has h.1)

-- A task that may run has its dependencies done.
deps_done_lem :
    (ids done deps : List Str) (v : Str)
    → deps_done ids done deps ≡ true
    → Set.contains v deps ≡ true
    → Set.contains v ids ≡ true
    → Set.contains v done ≡ true
unfolding Set.contains
deps_done_lem ids done [] v h e listed = absurd (cc)
deps_done_lem ids done (d ∷ deps) v h e listed =
    ground (arith, deps_done_lem ids done deps v, str_beq_iff d v)

is_ready_lem :
    (ts : List TeamTaskDef) (ids done : List Str) (y v : Str)
    → is_ready ts ids done y ≡ true
    → depends ts y v ≡ true
    → Set.contains v ids ≡ true
    → Set.contains v done ≡ true
is_ready_lem [] ids done y v h e listed = absurd (cc)
is_ready_lem (t ∷ ts) ids done y v h e listed =
    ground (arith, is_ready_lem ts ids done y v, deps_done_lem ids done t.depends_on v)

-- Whatever can run in some order is finished when nothing is free any more.
pub runs_finished :
    (ts : List TeamTaskDef) (ids result done order : List Str) (m : Dict.Dict Str (List Str))
    → Dict.IsDistinct m
    → ((x v : Str)
        → 1 ≤ count x (dependents_of v m)
        → (depends ts x v ≡ true) × (Set.contains v ids ≡ true))
    → ((x : Str)
        → Set.contains x ids ≡ true
        → pending x result m ≡ 0
        → Set.contains x result ≡ true)
    → ((x : Str) → Set.contains x done ≡ true → Set.contains x result ≡ true)
    → All (λ x. Set.contains x ids ≡ true) order
    → runs ts ids done order ≡ true
    → (x : Str) → Set.contains x order ≡ true
    → Set.contains x result ≡ true
unfolding runs Set.contains
runs_finished ts ids result done [] m one src free sub inside h x e = absurd (cc)
runs_finished ts ids result done (y ∷ ys) m one src free sub inside h x e =
    elim (Bool-cases (is_ready ts ids done y)) [
      | inr blocked ↦ absurd (ground arith)
      | inl ready ↦
          let finished : Set.contains y result ≡ true = free y inside.0 (
            pending_done y result m one (λ v edge.
              sub v (is_ready_lem ts ids done y v ready (src y v edge).0 (src y v edge).1))) in
          elim (Bool-cases (y == x)) [
            | inl this ↦
                subst (λ z. Set.contains z result ≡ true) ((str_beq_iff y x).0 this) finished
            | inr other ↦
                runs_finished ts ids result (done ++ y ∷ []) ys m one src free
                  (λ z k.
                    ground (
                      arith,
                      Set.contains-append z done (y ∷ []),
                      sub z,
                      str_beq_iff y z,
                      finished,
                    ))
                  inside.1 (ground arith) x (ground arith)
          ]
    ]
