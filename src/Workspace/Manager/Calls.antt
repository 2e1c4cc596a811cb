-- ===== src/Workspace/Manager/Calls.antt =====
-- The calls on the workspace manager that change its state (agentiso/src/workspace/mod.rs).
use agentiso.Prelude.{ℕ, Bool, Option, List, Str}
use agentiso.Workspace.Snapshots.{Uuid}
use agentiso.Workspace.Manager.State.{
  WorkspaceManager, CreateParams, TeamState, register_team, remove_team, set_workspace_team_id,
}
use agentiso.Workspace.Manager.Boot.{Answers}
use agentiso.Workspace.Manager.Create.{create, replenish_pool}
use agentiso.Workspace.Manager.Lifecycle.{
  StartAnswers, SnapshotAnswers, destroy, stop, start, suspend, resume, snapshot_create,
  snapshot_restore, snapshot_delete,
}
use agentiso.Workspace.Manager.Fork.{fork}
use agentiso.Workspace.Manager.Policy.{port_forward_add, port_forward_remove, update_network_policy}

pub data Call : Type 0 where
  creates : CreateParams → Answers → Call
  forks : Uuid → Str → Option Str → Answers → Call
  replenishes : Answers → Call
  destroys stops : Uuid → Call
  starts : Uuid → StartAnswers → Call
  suspends resumes : Uuid → Bool → Call
  takes_snapshot : Uuid → Str → Bool → SnapshotAnswers → Call
  restores_snapshot : Uuid → Str → Bool → StartAnswers → Call
  deletes_snapshot : Uuid → Str → Bool → Call
  adds_forward : Uuid → ℕ → Option ℕ → Bool → Call
  removes_forward : Uuid → ℕ → Bool → Call
  sets_policy : Uuid → (allow_internet allow_inter_vm : Option Bool) → Option (List ℕ) → Bool → Call
  registers_team : TeamState → Call
  removes_team : Str → Call
  sets_team : Uuid → Option Str → Call

module _ (uuid_text : Uuid → Str) where
  unfoldable pub step : Call → WorkspaceManager → WorkspaceManager
  step (creates params a) m = (create uuid_text params a m).0
  step (forks source snapshot name a) m = (fork uuid_text source snapshot name a m).0
  step (replenishes a) m = (replenish_pool uuid_text a m).0
  step (destroys id) m = (destroy id m).0
  step (stops id) m = (stop id m).0
  step (starts id a) m = (start id a m).0
  step (suspends id paused) m = (suspend id paused m).0
  step (resumes id resumed) m = (resume id resumed m).0
  step (takes_snapshot id name memory a) m = (snapshot_create id name memory a m).0
  step (restores_snapshot id name rollback a) m = (snapshot_restore id name rollback a m).0
  step (deletes_snapshot id name deleted) m = (snapshot_delete id name deleted m).0
  step (adds_forward id guest host applied) m = (port_forward_add id guest host applied m).0
  step (removes_forward id guest applied) m = (port_forward_remove id guest applied m).0
  step (sets_policy id internet inter_vm ports applied) m =
      (update_network_policy id internet inter_vm ports applied m).0
  step (registers_team team) m = register_team team m
  step (removes_team name) m = remove_team name m
  step (sets_team id team) m = (set_workspace_team_id id team m).0
