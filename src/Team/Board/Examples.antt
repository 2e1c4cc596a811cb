-- ===== src/Team/Board/Examples.antt =====
-- The task board at concrete inputs.
use agentiso.Prelude.{
  ℕ, ◌≡◌, ◌≢◌, refl, true, false, none, some, List, [], ◌∷◌, ◌++◌, Str, codes, str_eq, str_beq,
  nat_eq, ◌==◌, Result, ok, all, not, ◌||◌, if◌then◌else◌, arith,
}
use agentiso.Prelude.Dict.{Dict}
use agentiso.Prelude.Dict
use agentiso.Prelude.Set
use agentiso.Team.Board.Task.{
  TaskStatus, pending, claimed, completed, same_status, high, BoardTask, display, display_priority,
}
use agentiso.Team.Board.Dependencies.{
  available_tasks, is_pending, is_completed, completed_ids, dependency_order,
}
use agentiso.Team.Board.Order.{IsOrder, dependency_order-IsOrder}
use agentiso.Team.Board.Progress.{available_tasks_progress}
use agentiso.Team.Board.Markdown.{
  Yaml, fence, split_first, strip_prefix, trim_newlines, strip_cr, join_lines,
}
use agentiso.Team.Board.Notes.{Libraries, parse_task_markdown, render_task_markdown}
use agentiso.Team.Board.RoundTrip.{Reads, Tidy, parse-render}
use agentiso.Team.Board.Actions.{
  Notes, get_task, write_task, update_task, apply_update, claim_after, claim_task,
}
use agentiso.Team.Board.Claims.{claim_update, claim_task-claim_task}
use agentiso.Team.Board.Transitions.{
  claims, Effect, perform, perform-Effect, unowned, available_tasks-unowned,
}

abbrev task : Str → TaskStatus → List Str → BoardTask
task id status deps = record {
  id = id;
  title = codes "Build it";
  status = status;
  owner = some (codes "ann");
  priority = high;
  depends_on = deps;
  created_at = 5;
  updated_at = 7;
  body = codes "first" ++ b'\n' ∷ b'\n' ∷ codes "last";
}

abbrev board : List BoardTask
board =
    task (codes "task-002") pending (codes "task-001" ∷ [])
    ∷ task (codes "task-001") completed []
    ∷ []

program : Unit {0}
unfolding available_tasks is_pending is_completed completed_ids dependency_order Set.contains
    Set.insert Dict.insert Dict.lookup str_beq same_status display display_priority split_first
    strip_prefix trim_newlines strip_cr join_lines
program = tt

board_order : dependency_order board ≡ some (ok (codes "task-001" ∷ codes "task-002" ∷ []))
unfolding program
board_order = refl

dependency_order-IsOrder_example :
    (r : Result (List Str) (List Str)) × (dependency_order board ≡ some r) × IsOrder board r
dependency_order-IsOrder_example = dependency_order-IsOrder board (omega arith)

available_tasks_progress_example : available_tasks none board ≢ []
unfolding program
available_tasks_progress_example =
    available_tasks_progress board (codes "task-001" ∷ codes "task-002" ∷ []) (refl, (refl, tt))
      (omega arith) board_order refl refl refl

abbrev only : BoardTask
only = task (codes "task-001") pending (codes "task-000" ∷ [])

abbrev mapping : Dict Str Yaml
mapping =
    (codes "status", Yaml.text (codes "pending"))
    ∷ (codes "priority", Yaml.text (codes "high"))
    ∷ (codes "owner", Yaml.text (codes "ann"))
    ∷ (codes "depends_on", Yaml.sequence (some (codes "task-000") ∷ []))
    ∷ (codes "created_at", Yaml.text (5 ∷ []))
    ∷ (codes "updated_at", Yaml.text (7 ∷ []))
    ∷ []

-- Libraries that know one task.
abbrev libraries : Libraries
libraries = record {
  to_yaml = λ m. codes "x";
  from_yaml = λ s. some (some mapping);
  quoted = λ s. some s;
  time_text = λ t. t ∷ [];
  parse_time = λ s. elim s [ [] ↦ none | t ∷ rest ↦ some t ];
  trim = λ s. s;
}

reads : Reads libraries only
unfolding program
reads = record {
  closes = λ rest. refl;
  mapping = refl;
  status = refl;
  priority = refl;
  created_at = refl;
  updated_at = refl;
  title = refl;
  empty = refl;
}

tidy : Tidy libraries only (codes "first" ∷ [] ∷ codes "last" ∷ [])
unfolding program
tidy = record {
  title = (refl, refl);
  named = λ e. absurd (cc);
  body = refl;
  all_lines = ((refl, refl), ((refl, refl), ((refl, refl), tt)));
  begins = refl;
  ends = refl;
}

parse-render_example :
    parse_task_markdown libraries (render_task_markdown libraries only) (codes "task-001") 99
    ≡ ok only
parse-render_example =
    parse-render libraries only (codes "first" ∷ [] ∷ codes "last" ∷ []) 99 reads tidy

-- A task before and after it is claimed, and libraries that know both front matters: the text "y" is
-- the first one's.
abbrev waiting : BoardTask
waiting = record {
  id = codes "task-001";
  title = codes "Build it";
  status = pending;
  owner = none;
  priority = high;
  depends_on = [];
  created_at = 5;
  updated_at = 5;
  body = [];
}

abbrev mapping_of : (status : Str) → (owner : Dict Str Yaml) → (updated : ℕ) → Dict Str Yaml
mapping_of status owner updated =
    (codes "status", Yaml.text status)
    ∷ (codes "priority", Yaml.text (codes "high"))
    ∷ (owner
        ++ (codes "created_at", Yaml.text (5 ∷ []))
          ∷ (codes "updated_at", Yaml.text (updated ∷ []))
          ∷ [])

abbrev two_tasks : Libraries
two_tasks = record libraries {
  from_yaml = λ s.
      if s == codes "y"
      then some (some (mapping_of (codes "pending") [] 5))
      else some
          (some (mapping_of (codes "claimed") ((codes "owner", Yaml.text (codes "ann")) ∷ []) 9));
}

abbrev notes : Notes
notes =
    (
      codes "tasks/task-001.md",
      codes "---" ++ b'\n' ∷ (codes "y" ++ (fence ++ (codes "# Build it" ++ b'\n' ∷ []))),
    )
    ∷ []

actions : Unit {0}
unfolding program get_task update_task apply_update parse_task_markdown
actions = tt

find_waiting : get_task two_tasks (codes "task-001") 9 notes ≡ ok waiting
unfolding actions
find_waiting = refl

claimed-Reads : Reads two_tasks (apply_update (claim_update two_tasks (codes "ann")) 9 waiting)
unfolding actions
claimed-Reads = record {
  closes = λ rest. refl;
  mapping = refl;
  status = refl;
  priority = refl;
  created_at = refl;
  updated_at = refl;
  title = refl;
  empty = refl;
}

claimed-Tidy : Tidy two_tasks (apply_update (claim_update two_tasks (codes "ann")) 9 waiting) []
unfolding actions
claimed-Tidy = record {
  title = (refl, refl);
  named = λ e. absurd (cc);
  body = refl;
  all_lines = tt;
  begins = refl;
  ends = refl;
}

claim_task-claim_task_example :
    let (notes1, answer) = claim_task two_tasks (codes "task-001") (codes "ann") 9 true notes in
    (answer ≡ ok true)
    × (get_task two_tasks (codes "task-001") 20 notes1
        ≡ ok (record waiting { status = claimed; owner = some (codes "ann"); updated_at = 9 }))
    × (claim_task two_tasks (codes "task-001") (codes "bob") 20 true notes1 ≡ (notes1, ok false))
    × (claim_after two_tasks
          (get_task two_tasks (codes "task-001") 9 notes)
          (codes "task-001")
          (codes "bob")
          20
          true
          notes1
        ≡ (
          write_task two_tasks
              (record waiting { status = claimed; owner = some (codes "bob"); updated_at = 20 })
              notes1,
          ok true,
        ))
claim_task-claim_task_example =
    claim_task-claim_task two_tasks waiting (codes "ann") (codes "bob") 9 20 [] notes find_waiting
      refl claimed-Reads claimed-Tidy

perform-Effect_example :
    Effect two_tasks
      (claims (codes "ann"))
      (codes "task-001")
      waiting
      notes
      (perform two_tasks (claims (codes "ann")) (codes "task-001") 9 true notes)
perform-Effect_example =
    perform-Effect two_tasks (claims (codes "ann")) (codes "task-001") 9 true waiting notes
      find_waiting

waiting-unowned : all (λ t. not (is_pending t) || unowned t) (waiting ∷ []) ≡ true
unfolding actions
waiting-unowned = refl

available_tasks-unowned_example : available_tasks (some (codes "ann")) (waiting ∷ []) ≡ []
available_tasks-unowned_example =
    available_tasks-unowned (codes "ann") (waiting ∷ []) waiting-unowned
