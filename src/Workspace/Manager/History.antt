-- ===== src/Workspace/Manager/History.antt =====
-- The states that the workspace manager (agentiso/src/workspace/mod.rs) reaches. Its locks are taken
-- one call at a time here: a history is a list of calls.
use agentiso.Prelude.{◌≡◌, ◌≤◌, refl, ◌∙◌, [], Str, nat_eq, str_eq, arith}
use agentiso.Prelude.Dict.{Dict}
use agentiso.Prelude.Dict
use agentiso.Config.Sections.{Config, PoolConfig}
use agentiso.Network.Ip.{IpAllocator}
use agentiso.Workspace.Pool
use agentiso.Workspace.Snapshots.{Uuid}
use agentiso.Workspace.Manager.State.{WorkspaceManager, new, u32_max, register_team, remove_team}
use agentiso.Workspace.Manager.Calls.{
  Call, creates, forks, replenishes, destroys, stops, starts, suspends, resumes, takes_snapshot,
  restores_snapshot, deletes_snapshot, adds_forward, removes_forward, sets_policy, registers_team,
  removes_team, sets_team, step,
}
use agentiso.Workspace.Manager.Cids.{Unique}
use agentiso.Workspace.Manager.CidHistory.{IsNew, new-Unique, step-Unique}
use agentiso.Workspace.Manager.Vms.{Halted}
use agentiso.Workspace.Manager.VmCalls.{step-Halted}
use agentiso.Workspace.Manager.Moves.{state_of, Moves, same, Changes}
use agentiso.Workspace.Manager.Forking.{fork-Changes, replenish_pool-Changes}
use agentiso.Workspace.Manager.Entering.{create-Changes}
use agentiso.Workspace.Manager.Changes.{destroy-Changes, stop-Changes, start-Changes}
use agentiso.Workspace.Manager.Settings.{
  suspend-Changes, resume-Changes, port_forward_add-Changes, port_forward_remove-Changes,
  update_network_policy-Changes, set_workspace_team_id-Changes,
}
use agentiso.Workspace.Manager.Restoring.{
  snapshot_create-Changes, snapshot_restore-Changes, snapshot_delete-Changes,
}
use agentiso.Workspace.Manager.Guarantees.{
  Sound, Named, Within, Changed-Sound, Changed-Named, Changed-Within, Changed-Moves, Changed-config,
}

step-Changes :
    (uuid_text : Uuid → Str) (c : Call) (m : WorkspaceManager)
    → IsNew c m
    → Changes c m (step uuid_text c m)
unfolding step register_team remove_team
step-Changes uuid_text (creates params a) m fresh = create-Changes uuid_text params a m fresh
step-Changes uuid_text (forks source snapshot name a) m fresh =
    fork-Changes uuid_text source snapshot name a m fresh
step-Changes uuid_text (replenishes a) m n = replenish_pool-Changes uuid_text (replenishes a) a m
step-Changes uuid_text (destroys id) m n = destroy-Changes id m
step-Changes uuid_text (stops id) m n = stop-Changes id m
step-Changes uuid_text (starts id a) m n = start-Changes id a m
step-Changes uuid_text (suspends id paused) m n = suspend-Changes id paused m
step-Changes uuid_text (resumes id resumed) m n = resume-Changes id resumed m
step-Changes uuid_text (takes_snapshot id name memory a) m n =
    snapshot_create-Changes id name memory a m
step-Changes uuid_text (restores_snapshot id name rollback a) m n =
    snapshot_restore-Changes id name rollback a m
step-Changes uuid_text (deletes_snapshot id name deleted) m n =
    snapshot_delete-Changes id name deleted m
step-Changes uuid_text (adds_forward id guest host applied) m n =
    port_forward_add-Changes id guest host applied m
step-Changes uuid_text (removes_forward id guest applied) m n =
    port_forward_remove-Changes id guest applied m
step-Changes uuid_text (sets_policy id internet inter_vm ports applied) m n =
    update_network_policy-Changes id internet inter_vm ports applied m
step-Changes uuid_text (registers_team team) m n = same
step-Changes uuid_text (removes_team name) m n = same
step-Changes uuid_text (sets_team id team) m n = set_workspace_team_id-Changes id team m

-- The states of a manager that starts with the configuration `config`.
pub data Reachable (uuid_text : Uuid → Str) (config : Config) : WorkspaceManager → Type 0 where
  started :
      (ip_allocator : IpAllocator) (pool_config : PoolConfig)
      → Reachable uuid_text config (new config ip_allocator (Pool.new pool_config))
  called :
      (c : Call) (m : WorkspaceManager)
      → IsNew c m
      → Reachable uuid_text config m
      → Reachable uuid_text config (step uuid_text c m)

-- The manager refines the lifecycle `Moves`: if the UUID that a call makes is new, then for every
-- identifier the state before and the state after are an edge of the lifecycle for this very call.
-- So only `create` and `fork` bring a workspace into being, and it runs; only `destroy` removes one;
-- only `suspend` suspends one, which ran; only `stop`, on a running one, and a restore leave one
-- stopped; only `start`, `resume` and a restore make one run again; and every other call, or a call
-- about another workspace, leaves the state as it is.
pub step-Moves :
    (uuid_text : Uuid → Str) (c : Call) (m : WorkspaceManager) (id : Uuid)
    → IsNew c m
    → Moves c id (state_of id m) (state_of id (step uuid_text c m))
unfolding state_of
step-Moves uuid_text c m id fresh =
    let n = step uuid_text c m in
    Changed-Moves c m.config n.config m.workspaces n.workspaces id
      (step-Changes uuid_text c m fresh)

-- What the calls keep, for a configuration whose numbers fit in 32 bits.
pub record Good (config : Config) (m : WorkspaceManager) : Type 0 where
  pub configured : m.config ≡ config
  pub unique : Unique [] m
  pub sound : Sound m.config m.workspaces
  pub named : Named m.workspaces
  pub within : Within m.config m.workspaces
  pub halted : Halted m

pub Reachable-Good :
    (uuid_text : Uuid → Str) (config : Config) (m : WorkspaceManager)
    → config.vm.vsock_cid_start ≤ u32_max
    → config.resources.max_workspaces ≤ u32_max
    → Reachable uuid_text config m
    → Good config m
unfolding new Dict.lookup
Reachable-Good uuid_text config _ cids small (started ip_allocator pool_config) = record {
  configured = refl;
  unique = new-Unique config ip_allocator pool_config cids;
  sound = tt;
  named = λ i j w x at_i at_j e. absurd (cc);
  within = omega arith;
  halted = λ id w found off. absurd (cc);
}
Reachable-Good uuid_text config _ cids small (called c m fresh history) =
    let good = Reachable-Good uuid_text config m cids small history in
    let n = step uuid_text c m in
    let changes : Changes c m n = step-Changes uuid_text c m fresh in
    record {
      configured =
          Changed-config c m.config n.config m.workspaces n.workspaces changes ∙ good.configured;
      unique = step-Unique uuid_text c m fresh good.unique;
      sound = Changed-Sound c m.config n.config m.workspaces n.workspaces changes good.sound;
      named = Changed-Named c m.config n.config m.workspaces n.workspaces changes good.named;
      within =
          Changed-Within c m.config n.config m.workspaces n.workspaces (rw good.configured small)
            changes good.within;
      halted = step-Halted uuid_text c m fresh good.halted;
    }
