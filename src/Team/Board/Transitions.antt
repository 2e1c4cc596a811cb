-- ===== src/Team/Board/Transitions.antt =====
-- The changes of status that the task board allows (agentiso/src/team/task_board.rs).
use agentiso.Prelude.{
  ℕ, ◌≡◌, refl, ◌⊎◌, Bool, true, false, not, ◌&&◌, ◌||◌, Option, none, some, List, [], ◌∷◌, Str,
  codes, str_eq, all, keep, Bool-cases, inl, inr, ok, arith,
}
use agentiso.Prelude.Dict
use agentiso.Team.Board.Task.{
  TaskStatus, pending, claimed, in_progress, completed, failed, same_status, BoardTask,
}
use agentiso.Team.Board.Dependencies.{
  is_pending, available_tasks, completed_ids, deps_met, owned_by,
}
use agentiso.Team.Board.Notes.{Libraries, render_task_markdown}
use agentiso.Team.Board.Actions.{
  Notes, TaskUpdate, to_status, note_path, apply_update, get_task, update_task, and_then,
  claim_from, claim_task, guarded, release_task, start_task, complete_task, fail_task, section,
  result_section,
}
use agentiso.Team.Board.Claims.{claim_update}

-- What an agent does with a task.
pub data Action : Type 0 where
  claims : (agent : Str) → Action
  releases starts : Action
  completes : (result : Option Str) → Action
  fails : (reason : Str) → Action

-- The note that an action leaves.
unfoldable pub perform :
    Libraries → Action → (id : Str) → (now : ℕ) → (written : Bool) → Notes → Notes
unfolding claim_task release_task start_task complete_task fail_task
perform lib (claims agent) id now written notes = (claim_task lib id agent now written notes).0
perform lib releases id now written notes = (release_task lib id now written notes).0
perform lib starts id now written notes = (start_task lib id now written notes).0
perform lib (completes result) id now written notes =
    (complete_task lib id result now written notes).0
perform lib (fails reason) id now written notes = (fail_task lib id reason now written notes).0

-- The task before and after an action that takes effect.
abbrev pub Allowed : Action → (t x : BoardTask) → Type 0
Allowed (claims agent) t x = (t.status ≡ pending) × (x.status ≡ claimed) × (x.owner ≡ some agent)
Allowed releases t x = (t.status ≡ claimed) × (x.status ≡ pending) × (x.owner ≡ none)
Allowed starts t x = (t.status ≡ claimed) × (x.status ≡ in_progress) × (x.owner ≡ t.owner)
Allowed (completes result) t x =
    ((t.status ≡ in_progress) ⊎ (t.status ≡ claimed)) × (x.status ≡ completed) × (x.owner ≡ t.owner)
Allowed (fails reason) t x = (x.status ≡ failed) × (x.owner ≡ t.owner)

-- Nothing changes, or the task's note is that of an allowed one.
abbrev pub Effect : Libraries → Action → (id : Str) → BoardTask → (before after : Notes) → Type 0
Effect lib a id t before after =
    (after ≡ before)
    ⊎ ((x : BoardTask) × (after ≡ Dict.insert (note_path id) (render_task_markdown lib x) before)
        × Allowed a t x)

status_is : (s t : TaskStatus) → same_status s t ≡ true → s ≡ t
unfolding same_status
status_is pending pending e = refl
status_is claimed claimed e = refl
status_is in_progress in_progress e = refl
status_is completed completed e = refl
status_is failed failed e = refl
status_is s t e = absurd (cc)

either_status :
    (s : TaskStatus)
    → (same_status s in_progress || same_status s claimed) ≡ true
    → (s ≡ in_progress) ⊎ (s ≡ claimed)
either_status s may = elim (Bool-cases (same_status s in_progress)) [
  | inl working ↦ inl (status_is s in_progress working)
  | inr other ↦ inr (status_is s claimed (rw other at may))
]

module _ (lib : Libraries) (a : Action) (id : Str) (u : TaskUpdate) (now : ℕ) (t : BoardTask)
    (notes : Notes) (found : get_task lib id now notes ≡ ok t) where
  updated-Effect :
      {A : Type 0} (value : A) (written : Bool)
      → Allowed a t (apply_update u now t)
      → Effect lib a id t notes (and_then lib value (update_task lib id u now written notes)).0
  unfolding update_task
  updated-Effect value true allowed =
      inr (apply_update u now t, rw (update_task, found) refl, allowed)
  updated-Effect value false allowed = inl (rw (update_task, found) refl)

  guarded-Effect :
      (may : TaskStatus → Bool) (written : Bool)
      → (may t.status ≡ true → Allowed a t (apply_update u now t))
      → Effect lib a id t notes (guarded lib may id u now written notes).0
  guarded-Effect may written allowed = elim (Bool-cases (may t.status)) [
    | inl may_act ↦ rw (guarded, found, may_act) (updated-Effect tt written (allowed may_act))
    | inr refused ↦ rw (guarded, found, refused) (inl refl)
  ]

claim_from-Effect :
    (lib : Libraries) (agent id : Str) (now : ℕ) (written : Bool) (t : BoardTask) (notes : Notes)
    (s : TaskStatus)
    → get_task lib id now notes ≡ ok t
    → t.status ≡ s
    → Effect lib (claims agent) id t notes (claim_from lib s id agent now written notes).0
unfolding apply_update
claim_from-Effect lib agent id now written t notes pending found free =
    updated-Effect lib (claims agent) id (claim_update lib agent) now t notes found true written
      (free, refl, refl)
claim_from-Effect lib agent id now written t notes claimed found taken = inl refl
claim_from-Effect lib agent id now written t notes in_progress found taken = inl refl
claim_from-Effect lib agent id now written t notes completed found done = inl refl
claim_from-Effect lib agent id now written t notes failed found done = inl refl

-- Every action on a task that can be read leaves the notes as they are, or writes exactly the task's
-- note, with an allowed change: a claim takes a pending task and makes the agent its owner; a
-- release and a start take a claimed one, and the release clears the owner; a completion takes one
-- that is claimed or at work; a failure takes any. The last three keep the owner.
pub perform-Effect :
    (lib : Libraries) (a : Action) (id : Str) (now : ℕ) (written : Bool) (t : BoardTask)
    (notes : Notes)
    → get_task lib id now notes ≡ ok t
    → Effect lib a id t notes (perform lib a id now written notes)
unfolding perform claim_task release_task start_task complete_task fail_task apply_update
perform-Effect lib (claims agent) id now written t notes found =
    rw (perform, claim_task, found)
      (claim_from-Effect lib agent id now written t notes t.status found refl)
perform-Effect lib releases id now written t notes found =
    guarded-Effect lib releases id (record (to_status pending) { owner = some none }) now t notes
      found (λ s. same_status s claimed) written
      (λ may. (status_is t.status claimed may, refl, refl))
perform-Effect lib starts id now written t notes found =
    guarded-Effect lib starts id (to_status in_progress) now t notes found
      (λ s. same_status s claimed) written (λ may. (status_is t.status claimed may, refl, refl))
perform-Effect lib (completes result) id now written t notes found =
    guarded-Effect lib (completes result) id
      (record (to_status completed) { body_append = result_section lib result }) now t notes found
      (λ s. same_status s in_progress || same_status s claimed) written
      (λ may. (either_status t.status may, refl, refl))
perform-Effect lib (fails reason) id now written t notes found =
    updated-Effect lib (fails reason) id
      (record (to_status failed) { body_append = some (section lib (codes "Failure") reason) }) now
      t notes found tt written (refl, refl)

-- Whether the task has no owner.
abbrev pub unowned : BoardTask → Bool
unowned t = elim t.owner [ none ↦ true | some owner ↦ false ]

none_owned :
    (agent : Str) (done : List Str) (tasks : List BoardTask)
    → all (λ t. not (is_pending t) || unowned t) tasks ≡ true
    → keep (λ t. is_pending t && (deps_met done t && owned_by (some agent) t)) tasks ≡ []
none_owned agent done [] e = refl
none_owned agent done (t ∷ tasks) e = ground (arith, none_owned agent done tasks)

-- `available_tasks` with an agent's name offers nothing, to any agent, as long as the pending tasks
-- of the board have no owner.
pub available_tasks-unowned :
    (agent : Str) (tasks : List BoardTask)
    → all (λ t. not (is_pending t) || unowned t) tasks ≡ true
    → available_tasks (some agent) tasks ≡ []
unfolding available_tasks
available_tasks-unowned agent tasks e = none_owned agent (completed_ids tasks) tasks e
