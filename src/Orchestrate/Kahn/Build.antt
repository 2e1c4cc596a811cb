-- ===== src/Orchestrate/Kahn/Build.antt =====
-- The maps of `validate_team_dag` (agentiso/src/workspace/orchestrate.rs) after all tasks.
use agentiso.Prelude.{
  ℕ, ◌+◌, ◌^◌, ◌≤◌, ◌<◌, ◌≡◌, true, List, [], ◌∷◌, Str, str_eq, length, All, arith,
}
use agentiso.Prelude.Set
use agentiso.Orchestrate.Plan.{TeamTaskDef}
use agentiso.Orchestrate.TeamDag.{Graph, add_edge, add_edges, build}
use agentiso.Orchestrate.Kahn.Graph.{
  IsGraph, add_edge-IsGraph, Grows, Grows-refl, Grows-trans, add_edge-Grows, has_edge,
  add_edge-has_edge, Grows-has_edge,
}

-- The dependencies of all tasks together.
abbrev pub edge_count : List TeamTaskDef → ℕ
edge_count [] = 0
edge_count (t ∷ ts) = length t.depends_on + edge_count ts

IsGraph-more :
    (ids : List Str) (fewer more : ℕ) (g : Graph)
    → fewer ≤ more
    → IsGraph ids fewer g
    → IsGraph ids more g
IsGraph-more ids fewer more g h v = record {
  single = v.single;
  once = v.once;
  known = v.known;
  degree = v.degree;
  few = λ x. omega (arith, v.few x);
}

module _ (ids id_set : List Str) where
  -- The edges of one task are there.
  abbrev pub HasEdges : Str → List Str → Graph → Type 0
  HasEdges t deps g = All (λ d. has_edge id_set t g d ≡ true) deps

  HasEdges-grow :
      (t : Str) (deps : List Str) (g h : Graph) → Grows g h → HasEdges t deps g → HasEdges t deps h
  HasEdges-grow t [] g h more e = tt
  HasEdges-grow t (d ∷ deps) g h more e =
      (Grows-has_edge id_set t d g h more e.0, HasEdges-grow t deps g h more e.1)

  add_edges_lem :
      (edges : ℕ) (t : Str) (deps : List Str) (g : Graph)
      → Set.contains t ids ≡ true
      → edges + length deps < 2 ^ 64
      → IsGraph ids edges g
      → IsGraph ids (edges + length deps) (add_edges id_set t deps g)
        × Grows g (add_edges id_set t deps g)
        × HasEdges t deps (add_edges id_set t deps g)
  unfolding add_edges
  add_edges_lem edges t [] g mine small v =
      (IsGraph-more ids edges (edges + 0) g (omega arith) v, Grows-refl g, tt)
  add_edges_lem edges t (d ∷ deps) g mine small v =
      let h = add_edge id_set t d g in
      let (graph, more, all) =
        add_edges_lem (edges + 1) t deps h mine (omega arith)
          (add_edge-IsGraph ids id_set edges t d g mine (omega arith) v) in
      (
        IsGraph-more ids (edges + 1 + length deps) (edges + length (d ∷ deps))
            (add_edges id_set t deps h) (omega arith) graph,
        Grows-trans g h (add_edges id_set t deps h) (add_edge-Grows id_set t d g) more,
        (
          Grows-has_edge id_set t d h (add_edges id_set t deps h) more
              (add_edge-has_edge id_set t d g),
          all,
        ),
      )

  -- The edges of all tasks are there.
  abbrev pub HasAllEdges : List TeamTaskDef → Graph → Type 0
  HasAllEdges ts g = All (λ t. HasEdges t.id t.depends_on g) ts

  pub build_lem :
      (edges : ℕ) (ts : List TeamTaskDef) (g : Graph)
      → All (λ t. Set.contains t.id ids ≡ true) ts
      → edges + edge_count ts < 2 ^ 64
      → IsGraph ids edges g
      → IsGraph ids (edges + edge_count ts) (build id_set ts g)
        × Grows g (build id_set ts g)
        × HasAllEdges ts (build id_set ts g)
  unfolding build
  build_lem edges [] g mine small v =
      (IsGraph-more ids edges (edges + 0) g (omega arith) v, Grows-refl g, tt)
  build_lem edges (t ∷ ts) g mine small v =
      let h = add_edges id_set t.id t.depends_on g in
      let (graph, more, edges_of) =
        add_edges_lem edges t.id t.depends_on g mine.0 (omega arith) v in
      let (last, rest, all) =
        build_lem (edges + length t.depends_on) ts h mine.1 (omega arith) graph in
      (
        IsGraph-more ids (edges + length t.depends_on + edge_count ts) (edges + edge_count (t ∷ ts))
            (build id_set ts h) (omega arith) last,
        Grows-trans g h (build id_set ts h) more rest,
        (HasEdges-grow t.id t.depends_on h (build id_set ts h) rest edges_of, all),
      )
