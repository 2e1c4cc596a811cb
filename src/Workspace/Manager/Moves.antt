-- ===== src/Workspace/Manager/Moves.antt =====
-- The abstract lifecycle of one workspace, and what a call on the workspace manager
-- (agentiso/src/workspace/mod.rs) may do to the map of workspaces.
use agentiso.Prelude.{
  ◌≡◌, ◌≤◌, Bool, true, false, not, Option, none, some, Str, nat_eq, leb, length,
}
use agentiso.Prelude.Word.{u32}
use agentiso.Prelude.Dict.{Dict}
use agentiso.Prelude.Dict
use agentiso.Config.Sections.{Config}
use agentiso.Workspace.Snapshots.{Uuid, len}
use agentiso.Workspace.Manager.State.{
  Workspace, WorkspaceState, stopped, running, suspended, same_state, WorkspaceManager,
  CreateParams, name_used, update, modify,
}
use agentiso.Workspace.Manager.Boot.{Answers}
use agentiso.Workspace.Manager.Lifecycle.{StartAnswers}
use agentiso.Workspace.Manager.Calls.{
  Call, creates, forks, destroys, stops, starts, suspends, resumes, restores_snapshot,
}

-- The state that a client sees of an identifier: none, if there is no such workspace.
unfoldable pub state_of : Uuid → WorkspaceManager → Option WorkspaceState
state_of id m = elim (Dict.lookup id m.workspaces) [ none ↦ none | some w ↦ some w.state ]

-- The moves that the lifecycle allows a call, for one identifier. A restore that cannot start the VM
-- again leaves the workspace stopped.
pub data Moves : Call → Uuid → Option WorkspaceState → Option WorkspaceState → Type 0 where
  stays : {c : Call} {id : Uuid} {s : Option WorkspaceState} → Moves c id s s
  is_created :
      {params : CreateParams} {a : Answers} → Moves (creates params a) a.id none (some running)
  is_forked :
      {source : Uuid} {snapshot : Str} {name : Option Str} {a : Answers}
      → Moves (forks source snapshot name a) a.id none (some running)
  is_destroyed : {id : Uuid} {s : WorkspaceState} → Moves (destroys id) id (some s) none
  is_stopped : {id : Uuid} → Moves (stops id) id (some running) (some stopped)
  is_started : {id : Uuid} {a : StartAnswers} → Moves (starts id a) id (some stopped) (some running)
  is_suspended :
      {id : Uuid} {paused : Bool} → Moves (suspends id paused) id (some running) (some suspended)
  is_resumed :
      {id : Uuid} {resumed : Bool} → Moves (resumes id resumed) id (some suspended) (some running)
  is_restored :
      {id : Uuid} {name : Str} {rollback : Bool} {a : StartAnswers} {s t : WorkspaceState}
      → same_state t suspended ≡ false
      → Moves (restores_snapshot id name rollback a) id (some s) (some t)

-- A workspace has a process exactly if it is not stopped.
abbrev pub has_pid : Workspace → Bool
has_pid w = elim w.qemu_pid [ none ↦ false | some pid ↦ true ]

abbrev pub HasPid : Workspace → Type 0
HasPid w = has_pid w ≡ not (same_state w.state stopped)

abbrev pub HasRoom : Config → Workspace → Type 0
HasRoom config w = len w.snapshots ≤ config.resources.max_snapshots_per_workspace

-- One workspace before and after a call that changes it.
pub record Stepped (config : Config) (c : Call) (id : Uuid) (w x : Workspace) : Type 0 where
  pub named : x.name ≡ w.name
  pub moves : Moves c id (some w.state) (some x.state)
  pub pid : HasPid w → HasPid x
  pub room : HasRoom config w → HasRoom config x

-- A workspace that a call adds.
pub record Entered (config : Config) (c : Call) (ws : Dict Uuid Workspace) (w : Workspace)
    : Type 0 where
  pub fresh : Dict.lookup w.id ws ≡ none
  pub unnamed : name_used w.name ws ≡ false
  pub below : leb config.resources.max_workspaces (u32 (length ws)) ≡ false
  pub moves : Moves c w.id none (some w.state)
  pub pid : HasPid w
  pub room : HasRoom config w

-- The configuration and the workspaces before and after a call.
pub data Changed : Call → Config → Dict Uuid Workspace → Config → Dict Uuid Workspace → Type 0 where
  same : {c : Call} {config : Config} {ws : Dict Uuid Workspace} → Changed c config ws config ws
  entered :
      {c : Call} {config : Config} {ws : Dict Uuid Workspace} (w : Workspace)
      → Entered config c ws w
      → Changed c config ws config (Dict.insert w.id w ws)
  stepped :
      {c : Call} {config : Config} {ws : Dict Uuid Workspace} (id : Uuid) (w x : Workspace)
      → Dict.lookup id ws ≡ some w
      → Stepped config c id w x
      → Changed c config ws config (Dict.insert id x ws)
  left :
      {config : Config} {ws : Dict Uuid Workspace} (id : Uuid) (w : Workspace)
      → Dict.lookup id ws ≡ some w
      → Changed (destroys id) config ws config (Dict.remove id ws)

abbrev pub Changes : Call → (m n : WorkspaceManager) → Type 0
Changes c m n = Changed c m.config m.workspaces n.config n.workspaces

pub update-Changes :
    (c : Call) (id : Uuid) (f : Workspace → Workspace) (m : WorkspaceManager) (w : Workspace)
    → Dict.lookup id m.workspaces ≡ some w
    → Stepped m.config c id w (f w)
    → Changes c m (update id f m)
update-Changes c id f m w found s = rw (found, modify) (stepped id w (f w) found s)
