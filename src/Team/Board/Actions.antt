-- ===== src/Team/Board/Actions.antt =====
-- Claiming, releasing, starting, completing and failing tasks (agentiso/src/team/task_board.rs). The
-- vault is its notes, by path; whether it could write is an argument. The index note that each
-- change renews is left out.
use agentiso.Prelude.{
  ℕ, Bool, true, false, ◌||◌, Option, none, some, [], ◌∷◌, ◌++◌, Str, codes, str_eq, if◌then◌else◌,
  Result, ok, err,
}
use agentiso.Prelude.Dict.{Dict}
use agentiso.Prelude.Dict
use agentiso.Team.Board.Task.{
  TaskStatus, pending, claimed, in_progress, completed, failed, same_status, TaskPriority,
  BoardTask,
}
use agentiso.Team.Board.Markdown.{NoteError}
use agentiso.Team.Board.Notes.{Libraries, parse_task_markdown, render_task_markdown, or_else}

abbrev pub Notes : Type 0
Notes = Dict Str Str

pub data BoardError : Type 0 where
  no_note : (id : Str) → BoardError
  bad_note : NoteError → BoardError
  write_failed : BoardError
  wrong_status : TaskStatus → BoardError

-- `owner` is absent, or the new owner, or none.
pub record TaskUpdate : Type 0 where
  pub status : Option TaskStatus
  pub owner : Option (Option Str)
  pub priority : Option TaskPriority
  pub body_append : Option Str

-- `TaskUpdate::default()` with a status.
abbrev pub to_status : TaskStatus → TaskUpdate
to_status s = record { status = some s; owner = none; priority = none; body_append = none }

-- `format!("tasks/{}.md", id)`
abbrev pub note_path : Str → Str
note_path id = codes "tasks/" ++ (id ++ codes ".md")

abbrev pub appended : Str → Option Str → Str
appended body none = body
appended body (some more) = body ++ b'\n' ∷ more

unfoldable pub apply_update : TaskUpdate → (now : ℕ) → BoardTask → BoardTask
apply_update u now t = record t {
  status = or_else t.status u.status;
  owner = or_else t.owner u.owner;
  priority = or_else t.priority u.priority;
  body = appended t.body u.body_append;
  updated_at = now;
}

module _ (lib : Libraries) where
  unfoldable pub get_task : (id : Str) → (now : ℕ) → Notes → Result BoardError BoardTask
  unfolding parse_task_markdown
  get_task id now notes = elim (Dict.lookup (note_path id) notes) [
    | none ↦ err (no_note id)
    | some content ↦ elim (parse_task_markdown lib content id now) [
      | err e ↦ err (bad_note e)
      | ok t ↦ ok t
    ]
  ]

  -- A task goes to its note.
  abbrev pub write_task : BoardTask → Notes → Notes
  write_task t notes = Dict.insert (note_path t.id) (render_task_markdown lib t) notes

  unfoldable pub update_task :
      (id : Str)
      → TaskUpdate
      → (now : ℕ) → (written : Bool) → Notes
      → Notes × Result BoardError BoardTask
  unfolding get_task apply_update render_task_markdown
  update_task id u now written notes = elim (get_task id now notes) [
    | err e ↦ (notes, err e)
    | ok t ↦
        if written
        then (
          Dict.insert (note_path id) (render_task_markdown lib (apply_update u now t)) notes,
          ok (apply_update u now t),
        )
        else (notes, err write_failed)
  ]

  -- The end of an action: `.await?` and a value.
  abbrev pub and_then {ℓ} :
      {A : Type ℓ} → A → Notes × Result BoardError BoardTask → Notes × Result BoardError A
  and_then a (notes, err e) = (notes, err e)
  and_then a (notes, ok t) = (notes, ok a)

  -- Only a pending task is claimed; a claimed one, or one at work, is not, without an error.
  abbrev pub claim_from :
      TaskStatus
      → (id agent : Str) → (now : ℕ) → (written : Bool) → Notes
      → Notes × Result BoardError Bool
  claim_from pending id agent now written notes =
      and_then true (
        update_task id (record (to_status claimed) { owner = some (some agent) }) now written notes)
  claim_from claimed id agent now written notes = (notes, ok false)
  claim_from in_progress id agent now written notes = (notes, ok false)
  claim_from completed id agent now written notes = (notes, err (wrong_status completed))
  claim_from failed id agent now written notes = (notes, err (wrong_status failed))

  -- What a claim does with the task that it has read; `notes` is the vault as it is by then. The
  -- vault is not locked between the two, so other calls may come in between.
  abbrev pub claim_after :
      Result BoardError BoardTask
      → (id agent : Str) → (now : ℕ) → (written : Bool) → Notes
      → Notes × Result BoardError Bool
  claim_after (err e) id agent now written notes = (notes, err e)
  claim_after (ok t) id agent now written notes = claim_from t.status id agent now written notes

  -- A claim that nothing comes in between.
  unfoldable pub claim_task :
      (id agent : Str) → (now : ℕ) → (written : Bool) → Notes → Notes × Result BoardError Bool
  unfolding update_task
  claim_task id agent now written notes =
      claim_after (get_task id now notes) id agent now written notes

  -- An action that asks for a status first.
  abbrev pub guarded :
      (TaskStatus → Bool)
      → (id : Str) → TaskUpdate
      → (now : ℕ) → (written : Bool) → Notes
      → Notes × Result BoardError (Unit {0})
  guarded may id u now written notes = elim (get_task id now notes) [
    | err e ↦ (notes, err e)
    | ok t ↦
        if may t.status
        then and_then tt (update_task id u now written notes)
        else (notes, err (wrong_status t.status))
  ]

  unfoldable pub release_task :
      (id : Str) → (now : ℕ) → (written : Bool) → Notes → Notes × Result BoardError (Unit {0})
  unfolding update_task
  release_task id now written notes =
      guarded (λ s. same_status s claimed) id (record (to_status pending) { owner = some none }) now
        written notes

  unfoldable pub start_task :
      (id : Str) → (now : ℕ) → (written : Bool) → Notes → Notes × Result BoardError (Unit {0})
  unfolding update_task
  start_task id now written notes =
      guarded (λ s. same_status s claimed) id (to_status in_progress) now written notes

  -- `format!("\n## Result\n{}\n", msg)`
  abbrev pub section : (title : Str) → Str → Str
  section title message = b'\n' ∷ (codes "## " ++ (title ++ b'\n' ∷ (message ++ b'\n' ∷ [])))

  abbrev pub result_section : Option Str → Option Str
  result_section none = none
  result_section (some message) = some (section (codes "Result") message)

  unfoldable pub complete_task :
      (id : Str)
      → (result : Option Str) → (now : ℕ) → (written : Bool) → Notes
      → Notes × Result BoardError (Unit {0})
  unfolding update_task
  complete_task id result now written notes =
      guarded (λ s. same_status s in_progress || same_status s claimed) id
        (record (to_status completed) { body_append = result_section result }) now written notes

  -- A task fails from every status.
  unfoldable pub fail_task :
      (id reason : Str)
      → (now : ℕ) → (written : Bool) → Notes
      → Notes × Result BoardError (Unit {0})
  unfolding update_task
  fail_task id reason now written notes = and_then tt (
      update_task id
        (record (to_status failed) { body_append = some (section (codes "Failure") reason) }) now
        written notes)
