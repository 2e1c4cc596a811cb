-- ===== src/Team/Board/Progress.antt =====
-- Work never stops (agentiso/src/team/task_board.rs): as long as tasks are pending, one is available.
use agentiso.Prelude.{
  ◌^◌, ◌<◌, ◌≡◌, refl, ◌∙◌, ◌≢◌, Bool, true, false, ◌&&◌, ◌||◌, none, some, List, [], ◌∷◌, ◌++◌,
  Str, str_eq, str_beq_iff, nat_eq, ◌==◌, all, any, keep, All, Bool-cases, inl, inr, ok, arith,
}
use agentiso.Prelude.Set
use agentiso.Orchestrate.TeamDag.{ids_of}
use agentiso.Orchestrate.Kahn.Order.{IsTopological, listed-All, length-ids_of}
use agentiso.Orchestrate.Kahn.Build.{edge_count}
use agentiso.Orchestrate.Kahn.Runs.{runs, is_ready, deps_done}
use agentiso.Team.Board.Task.{BoardTask, same_status}
use agentiso.Team.Board.Dependencies.{
  is_completed, is_pending, completed_ids, deps_met, owned_by, available_tasks, nodes_of,
  dependency_order,
}
use agentiso.Team.Board.Order.{plan_of, dependency_order-IsOrder}

-- Whether every dependency is a task of the board.
abbrev pub known_deps : List Str → List BoardTask → Bool
known_deps ids ts = all (λ t. all (λ d. Set.contains d ids) t.depends_on) ts

-- Whether every task is pending or completed.
abbrev pub none_running : List BoardTask → Bool
none_running ts = all (λ t. is_pending t || is_completed t) ts

abbrev pub board_ids : List BoardTask → List Str
board_ids ts = ids_of (nodes_of ts)

deps_known_done :
    (ids done finished deps : List Str)
    → ((x : Str) → Set.contains x done ≡ true → Set.contains x finished ≡ true)
    → all (λ d. Set.contains d ids) deps ≡ true
    → deps_done ids done deps ≡ true
    → all (λ d. Set.contains d finished) deps ≡ true
deps_known_done ids done finished [] sub known ready = refl
deps_known_done ids done finished (d ∷ deps) sub known ready =
    ground (arith, deps_known_done ids done finished deps sub, sub d)

-- If nothing is available, a task that could run is completed.
ready_completed :
    (ids done finished : List Str) (y : Str) (ts : List BoardTask)
    → ((x : Str) → Set.contains x done ≡ true → Set.contains x finished ≡ true)
    → known_deps ids ts ≡ true
    → none_running ts ≡ true
    → keep (λ t. is_pending t && (deps_met finished t && owned_by none t)) ts ≡ []
    → is_ready (nodes_of ts) ids done y ≡ true
    → Set.contains y (board_ids ts) ≡ true
    → any (λ t. t.id == y && is_completed t) ts ≡ true
unfolding Set.contains
ready_completed ids done finished y [] sub known still none_left ready listed = absurd (cc)
ready_completed ids done finished y (t ∷ ts) sub known still none_left ready listed = ground (
  arith,
  ready_completed ids done finished y ts sub,
  deps_known_done ids done finished t.depends_on sub,
)

contains-completed_ids :
    (y : Str) (ts : List BoardTask)
    → Set.contains y (completed_ids ts) ≡ any (λ t. t.id == y && is_completed t) ts
unfolding Set.contains completed_ids
contains-completed_ids y [] = refl
contains-completed_ids y (t ∷ ts) = elim (Bool-cases (is_completed t)) [
  | inl finished ↦ rw finished (
      ground (
        arith,
        contains-completed_ids y ts,
        Set.contains-insert t.id y (completed_ids ts),
        str_beq_iff t.id y,
        str_beq_iff y t.id,
      ))
  | inr unfinished ↦ rw unfinished (ground (arith, contains-completed_ids y ts))
]

-- Every task of an order that can run is completed, if nothing is available.
runs_completed :
    (ts : List BoardTask) (ys done : List Str)
    → ((x : Str) → Set.contains x done ≡ true → Set.contains x (completed_ids ts) ≡ true)
    → known_deps (board_ids ts) ts ≡ true
    → none_running ts ≡ true
    → available_tasks none ts ≡ []
    → All (λ y. Set.contains y (board_ids ts) ≡ true) ys
    → runs (nodes_of ts) (board_ids ts) done ys ≡ true
    → (x : Str) → Set.contains x ys ≡ true
    → Set.contains x (completed_ids ts) ≡ true
unfolding Set.contains runs available_tasks
runs_completed ts [] done sub known still none_left inside ready x h = absurd (cc)
runs_completed ts (y ∷ ys) done sub known still none_left inside ready x h =
    let now : is_ready (nodes_of ts) (board_ids ts) done y ≡ true = ground arith in
    let here : Set.contains y (completed_ids ts) ≡ true =
      contains-completed_ids y ts
      ∙ ready_completed (board_ids ts) done (completed_ids ts) y ts sub known still none_left now
          inside.0 in
    let more : (z : Str)
        → Set.contains z (done ++ y ∷ []) ≡ true
        → Set.contains z (completed_ids ts) ≡ true =
      λ z e. ground (arith, here, sub z, Set.contains-append z done (y ∷ []), str_beq_iff y z) in
    ground (
      arith,
      here,
      str_beq_iff y x,
      runs_completed ts ys (done ++ y ∷ []) more known still none_left inside.1 (ground arith) x,
    )

any_absent :
    (y : Str) (ts : List BoardTask)
    → Set.contains y (board_ids ts) ≡ false
    → any (λ t. t.id == y && is_completed t) ts ≡ false
unfolding Set.contains
any_absent y [] absent = refl
any_absent y (t ∷ ts) absent = ground (arith, any_absent y ts)

any_present :
    (y : Str) (ts : List BoardTask)
    → any (λ t. t.id == y && is_completed t) ts ≡ true
    → Set.contains y (board_ids ts) ≡ true
unfolding Set.contains
any_present y [] h = absurd (cc)
any_present y (t ∷ ts) h = ground (arith, any_present y ts)

pending_unfinished :
    (ts : List BoardTask)
    → Set.IsDistinct (board_ids ts)
    → any is_pending ts ≡ true
    → (y : Str) × (Set.contains y (board_ids ts) ≡ true)
      × (any (λ t. t.id == y && is_completed t) ts ≡ false)
unfolding Set.contains is_pending is_completed same_status
pending_unfinished [] distinct some_pending = absurd (cc)
pending_unfinished (t ∷ ts) distinct some_pending = elim (Bool-cases (is_pending t)) [
  | inl now ↦ (t.id, ground (arith, str_beq_iff t.id t.id), ground (arith, any_absent t.id ts))
  | inr later ↦
      let (y, listed, unfinished) = pending_unfinished ts distinct.1 (ground arith) in
      (y, ground arith, ground (arith, str_beq_iff t.id y, listed, unfinished, distinct.0))
]

given_order :
    (ts : List BoardTask) (order : List Str)
    → edge_count (nodes_of ts) < 2 ^ 64
    → dependency_order ts ≡ some (ok order)
    → IsTopological (plan_of ts) order
given_order ts order small given =
    let (r, ran, good) = dependency_order-IsOrder ts small in
    let same : r ≡ ok order = ground arith in rw same at good

-- If the tasks of a board have distinct identifiers and fewer than 2^64 dependencies, which are all
-- on the board, `dependency_order` finds an order, every task is pending or completed, and some task
-- is pending, then `available_tasks` without a filter has a task to offer.
pub available_tasks_progress :
    (ts : List BoardTask) (order : List Str)
    → Set.IsDistinct (board_ids ts)
    → edge_count (nodes_of ts) < 2 ^ 64
    → dependency_order ts ≡ some (ok order)
    → known_deps (board_ids ts) ts ≡ true
    → none_running ts ≡ true
    → any is_pending ts ≡ true
    → available_tasks none ts ≢ []
unfolding Set.contains
available_tasks_progress ts order distinct small given known still some_pending none_left =
    let good = given_order ts order small given in
    let (y, listed, unfinished) = pending_unfinished ts distinct some_pending in
    let finished : (x : Str)
        → Set.contains x order ≡ true
        → Set.contains x (completed_ids ts) ≡ true =
      runs_completed ts order [] (λ x h. absurd (cc)) known still none_left good.inside
        good.runs_all in
    elim (Bool-cases (Set.contains y order)) [
      | inl ordered ↦
          absurd (ground (arith, finished y ordered, contains-completed_ids y ts, unfinished))
      | inr missing ↦
          let longer =
            Set.length-le_of_subset (y ∷ order) (board_ids ts) (missing, good.distinct)
              (λ x h.
                ground (
                  arith,
                  str_beq_iff y x,
                  listed,
                  listed-All order (board_ids ts) x good.inside,
                )) in
          absurd (omega (arith, longer, good.complete, length-ids_of (nodes_of ts)))
    ]
