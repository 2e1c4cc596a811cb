-- ===== src/Team/Board/Claims.antt =====
-- Who gets a task, and which changes of status there are (agentiso/src/team/task_board.rs).
use agentiso.Prelude.{ℕ, ◌≡◌, refl, true, false, some, List, Str, str_eq, ok}
use agentiso.Prelude.Dict
use agentiso.Team.Board.Task.{pending, claimed, BoardTask}
use agentiso.Team.Board.Notes.{Libraries, render_task_markdown}
use agentiso.Team.Board.RoundTrip.{Reads, Tidy, parse-render}
use agentiso.Team.Board.Actions.{
  Notes, TaskUpdate, to_status, note_path, apply_update, get_task, write_task, update_task,
  claim_after, claim_task,
}

module _ (lib : Libraries) where
  get_task-write_task :
      (t : BoardTask) (lines : List Str) (now : ℕ) (notes : Notes)
      → Reads lib t
      → Tidy lib t lines
      → get_task lib t.id now (write_task lib t notes) ≡ ok t
  unfolding get_task
  get_task-write_task t lines now notes reads tidy =
      rw
        (
          get_task,
          Dict.lookup-insert_self (note_path t.id) (render_task_markdown lib t) notes,
          parse-render lib t lines now reads tidy,
        )
        refl

  update_task-written :
      (id : Str) (u : TaskUpdate) (now : ℕ) (t : BoardTask) (notes : Notes)
      → get_task lib id now notes ≡ ok t
      → update_task lib id u now true notes ≡ (
        Dict.insert (note_path id) (render_task_markdown lib (apply_update u now t)) notes,
        ok (apply_update u now t),
      )
  unfolding update_task
  update_task-written id u now t notes found = rw (update_task, found) refl

  abbrev pub claim_update : Str → TaskUpdate
  claim_update agent = record (to_status claimed) { owner = some (some agent) }

  claim_task-pending :
      (id agent : Str) (now : ℕ) (t : BoardTask) (notes : Notes)
      → get_task lib id now notes ≡ ok t
      → t.status ≡ pending
      → claim_task lib id agent now true notes ≡ (
        Dict.insert
            (note_path id)
            (render_task_markdown lib (apply_update (claim_update agent) now t))
            notes,
        ok true,
      )
  unfolding claim_task
  claim_task-pending id agent now t notes found free =
      rw (claim_task, found, free, update_task-written id (claim_update agent) now t notes found)
        refl

  claim_task-claimed :
      (id agent : Str) (now : ℕ) (t : BoardTask) (notes : Notes)
      → get_task lib id now notes ≡ ok t
      → t.status ≡ claimed
      → claim_task lib id agent now true notes ≡ (notes, ok false)
  unfolding claim_task
  claim_task-claimed id agent now t notes found taken = rw (claim_task, found, taken) refl

  -- Two agents claim a pending task in a vault that can write. The first one's claim succeeds, and
  -- the task is read back as its own. The second one's result depends on when it read the task: if
  -- after the first one's write, its claim is refused, without an error and without a change; if
  -- before, its claim succeeds too, and the task is written as its own instead. The note that the
  -- first claim writes has to be one that is read back (`Reads`, `Tidy`).
  pub claim_task-claim_task :
      (t : BoardTask) (agent other : Str) (now later : ℕ) (lines : List Str) (notes : Notes)
      → get_task lib t.id now notes ≡ ok t
      → t.status ≡ pending
      → Reads lib (apply_update (claim_update agent) now t)
      → Tidy lib (apply_update (claim_update agent) now t) lines
      → let (notes1, answer) = claim_task lib t.id agent now true notes in
        (answer ≡ ok true)
        × (get_task lib t.id later notes1
            ≡ ok (record t { status = claimed; owner = some agent; updated_at = now }))
        × (claim_task lib t.id other later true notes1 ≡ (notes1, ok false))
        × (claim_after lib (get_task lib t.id now notes) t.id other later true notes1 ≡ (
          write_task lib
              (record t { status = claimed; owner = some other; updated_at = later })
              notes1,
          ok true,
        ))
  unfolding apply_update
  claim_task-claim_task t agent other now later lines notes found free reads tidy =
      let t1 : BoardTask = record t { status = claimed; owner = some agent; updated_at = now } in
      let notes1 = write_task lib t1 notes in
      let back : get_task lib t.id later notes1 ≡ ok t1 =
        get_task-write_task t1 lines later notes reads tidy in
      let done : claim_task lib t.id agent now true notes ≡ (notes1, ok true) =
        claim_task-pending t.id agent now t notes found free in
      rw done (
        refl,
        back,
        claim_task-claimed t.id other later t1 notes1 back refl,
        rw (found, free, update_task-written t.id (claim_update other) later t1 notes1 back) refl,
      )
