-- ===== src/Orchestrate/Kahn/Sources.antt =====
-- Every edge that `validate_team_dag` (agentiso/src/workspace/orchestrate.rs) stores comes from a
-- dependency of the plan.
use agentiso.Prelude.{
  ◌≤◌, ◌≡◌, refl, Bool, true, ◌&&◌, List, [], ◌∷◌, Str, str_eq, str_beq_iff, ◌==◌, any, Bool-cases,
  inl, inr, ◌⊎◌, arith,
}
use agentiso.Prelude.Dict.{Dict}
use agentiso.Prelude.Dict
use agentiso.Prelude.Set
use agentiso.Orchestrate.Plan.{TeamTaskDef}
use agentiso.Orchestrate.TeamDag.{Graph, dependents_of, add_edge, add_edges, build}
use agentiso.Orchestrate.Kahn.Degrees.{count, pending}
use agentiso.Orchestrate.Kahn.Graph.{count-edge}

-- Whether a task with the first identifier depends on the second.
abbrev pub depends : List TeamTaskDef → Str → Str → Bool
depends ts y d = any (λ t. t.id == y && Set.contains d t.depends_on) ts

add_edge_source :
    (id_set : List Str) (t dep x v : Str) (g : Graph)
    → 1 ≤ count x (dependents_of v (add_edge id_set t dep g).dependents)
    → (1 ≤ count x (dependents_of v g.dependents))
      ⊎ ((t ≡ x) × (dep ≡ v) × (Set.contains v id_set ≡ true))
unfolding add_edge
add_edge_source id_set t dep x v g h = elim (Bool-cases (Set.contains dep id_set)) [
  | inl listed ↦
      ground (arith, count-edge x v dep t g.dependents, str_beq_iff t x, str_beq_iff dep v)
  | inr missing ↦ ground arith
]

add_edges_source :
    (id_set : List Str) (t x v : Str) (deps : List Str) (g : Graph)
    → 1 ≤ count x (dependents_of v (add_edges id_set t deps g).dependents)
    → (1 ≤ count x (dependents_of v g.dependents))
      ⊎ ((t ≡ x) × (Set.contains v deps ≡ true) × (Set.contains v id_set ≡ true))
unfolding add_edges Set.contains
add_edges_source id_set t x v [] g h = inl h
add_edges_source id_set t x v (d ∷ deps) g h =
    elim (add_edges_source id_set t x v deps (add_edge id_set t d g) h) [
      | inr (mine, within, listed) ↦ inr (mine, ground arith, listed)
      | inl before ↦ elim (add_edge_source id_set t d x v g before) [
        | inl old ↦ inl old
        | inr (mine, this, listed) ↦ inr (mine, ground (arith, str_beq_iff d v), listed)
      ]
    ]

pub build_source :
    (id_set : List Str) (x v : Str) (ts : List TeamTaskDef) (g : Graph)
    → 1 ≤ count x (dependents_of v (build id_set ts g).dependents)
    → (1 ≤ count x (dependents_of v g.dependents))
      ⊎ ((depends ts x v ≡ true) × (Set.contains v id_set ≡ true))
unfolding build
build_source id_set x v [] g h = inl h
build_source id_set x v (t ∷ ts) g h =
    elim (build_source id_set x v ts (add_edges id_set t.id t.depends_on g) h) [
      | inr (within, listed) ↦ inr (ground arith, listed)
      | inl before ↦ elim (add_edges_source id_set t.id x v t.depends_on g before) [
        | inl old ↦ inl old
        | inr (mine, this, listed) ↦ inr (ground (arith, str_beq_iff t.id x), listed)
      ]
    ]

-- A task whose edges all come from finished tasks has none left.
pub pending_done :
    (y : Str) (done : List Str) (m : Dict Str (List Str))
    → Dict.IsDistinct m
    → ((v : Str) → 1 ≤ count y (dependents_of v m) → Set.contains v done ≡ true)
    → pending y done m ≡ 0
unfolding pending Dict.lookup
pending_done y done [] d h = refl
pending_done y done ((w, xs) ∷ m) d h =
    let rest = pending_done y done m d.1 (λ v e. h v (ground (arith, str_beq_iff w v, d.0))) in
    ground (arith, rest, h w, str_beq_iff w w)
