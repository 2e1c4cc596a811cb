-- ===== src/Workspace/Manager/CidHistory.antt =====
-- Every history of calls on the workspace manager (agentiso/src/workspace/mod.rs) keeps each vsock
-- identifier with one holder.
use agentiso.Prelude.{
  ℕ, ◌≤◌, refl, Bool, not, ◌==◌, keep, Option, List, [], ◌∷◌, ◌++◌, Str, nat_eq, str_eq, Bool-cases,
  Option-cases, inl, inr, arith,
}
use agentiso.Prelude.Dict
use agentiso.Config.Sections.{Config}
use agentiso.Network.Ip.{IpAllocator}
use agentiso.Workspace.Pool.{VmPool}
use agentiso.Workspace.Pool
use agentiso.Config.Sections.{PoolConfig}
use agentiso.Workspace.Snapshots.{Uuid}
use agentiso.Workspace.Manager.State.{
  PortForward, WorkspaceManager, new, set_workspace_team_id, register_team, remove_team, u32_max,
}
use agentiso.Workspace.Manager.Boot.{unwrap_or}
use agentiso.Workspace.Manager.Policy.{port_forward_add, port_forward_remove, update_network_policy}
use agentiso.Workspace.Manager.Calls.{
  Call, creates, forks, replenishes, destroys, stops, starts, suspends, resumes, takes_snapshot,
  restores_snapshot, deletes_snapshot, adds_forward, removes_forward, sets_policy, registers_team,
  removes_team, sets_team, step,
}
use agentiso.Workspace.Manager.Cids.{Unique, workspaces_with, warm_with}
use agentiso.Workspace.Manager.CidSteps.{update-Unique}
use agentiso.Workspace.Manager.CidInvariant.{Fresh, create-Unique, fork-Unique}
use agentiso.Workspace.Manager.CidCalls.{
  replenish_pool-Unique, destroy-Unique, stop-Unique, start-Unique, suspend-Unique, resume-Unique,
  snapshot_create-Unique, snapshot_restore-Unique, snapshot_delete-Unique,
}

port_forward_add-Unique :
    (id : Uuid) (guest : ℕ) (host : Option ℕ) (applied : Bool) (m : WorkspaceManager)
    → Unique [] m
    → Unique [] (port_forward_add id guest host applied m).0
unfolding port_forward_add
port_forward_add-Unique id guest host applied m v =
    elim (Option-cases (Dict.lookup id m.workspaces)) [
      | inl absent ↦ rw (absent, port_forward_add) v
      | inr (old, found) ↦ elim (Bool-cases applied) [
        | inr failed ↦ rw (found, failed, port_forward_add) v
        | inl done ↦
            let forward : PortForward = record {
              host_port = unwrap_or guest host;
              guest_port = guest;
            } in
            rw (found, done, port_forward_add)
              (update-Unique id
                (λ w. record w {
                  network = record w.network {
                    port_forwards = w.network.port_forwards ++ forward ∷ [];
                  };
                })
                [] m (λ w. refl) v)
      ]
    ]

port_forward_remove-Unique :
    (id : Uuid) (guest : ℕ) (applied : Bool) (m : WorkspaceManager)
    → Unique [] m
    → Unique [] (port_forward_remove id guest applied m).0
unfolding port_forward_remove
port_forward_remove-Unique id guest applied m v =
    elim (Option-cases (Dict.lookup id m.workspaces)) [
      | inl absent ↦ rw (absent, port_forward_remove) v
      | inr (old, found) ↦ elim (Bool-cases applied) [
        | inr failed ↦ rw (found, failed, port_forward_remove) v
        | inl done ↦
            rw (found, done, port_forward_remove)
              (update-Unique id
                (λ w. record w {
                  network = record w.network {
                    port_forwards =
                        keep (λ pf. not (pf.guest_port == guest)) w.network.port_forwards;
                  };
                })
                [] m (λ w. refl) v)
      ]
    ]

update_network_policy-Unique :
    (id : Uuid) (internet inter_vm : Option Bool) (ports : Option (List ℕ)) (applied : Bool)
    (m : WorkspaceManager)
    → Unique [] m
    → Unique [] (update_network_policy id internet inter_vm ports applied m).0
unfolding update_network_policy
update_network_policy-Unique id internet inter_vm ports applied m v =
    elim (Option-cases (Dict.lookup id m.workspaces)) [
      | inl absent ↦ rw (absent, update_network_policy) v
      | inr (old, found) ↦ elim (Bool-cases applied) [
        | inr failed ↦ rw (found, failed, update_network_policy) v
        | inl done ↦
            rw (found, done, update_network_policy)
              (update-Unique id
                (λ w. record w {
                  network = record w.network {
                    allow_internet = unwrap_or old.network.allow_internet internet;
                    allow_inter_vm = unwrap_or old.network.allow_inter_vm inter_vm;
                    allowed_ports = unwrap_or old.network.allowed_ports ports;
                  };
                })
                [] m (λ w. refl) v)
      ]
    ]

set_workspace_team_id-Unique :
    (id : Uuid) (team : Option Str) (m : WorkspaceManager)
    → Unique [] m
    → Unique [] (set_workspace_team_id id team m).0
unfolding set_workspace_team_id
set_workspace_team_id-Unique id team m v = elim (Option-cases (Dict.lookup id m.workspaces)) [
  | inl absent ↦ rw (absent, set_workspace_team_id) v
  | inr (old, found) ↦
      rw (found, set_workspace_team_id)
        (update-Unique id (λ w. record w { team_id = team }) [] m (λ w. refl) v)
]

-- A new manager's counter has to start within 32 bits.
pub new-Unique :
    (config : Config) (ip_allocator : IpAllocator) (pool_config : PoolConfig)
    → config.vm.vsock_cid_start ≤ u32_max
    → Unique [] (new config ip_allocator (Pool.new pool_config))
unfolding new Pool.new workspaces_with warm_with
new-Unique config ip_allocator pool_config small = record {
  distinct = tt;
  once = λ c. omega arith;
  usable = λ c held. absurd (omega arith);
  bounded = small;
}

-- The UUIDs that a call makes are new.
abbrev pub IsNew : Call → WorkspaceManager → Type 0
IsNew (creates params a) m = Fresh a.id m
IsNew (forks source snapshot name a) m = Fresh a.id m
IsNew (replenishes a) m = Fresh a.id m
IsNew other m = Unit

module _ (uuid_text : Uuid → Str) where
  pub step-Unique :
      (c : Call) (m : WorkspaceManager) → IsNew c m → Unique [] m → Unique [] (step uuid_text c m)
  unfolding step register_team remove_team
  step-Unique (creates params a) m fresh v = create-Unique uuid_text params a m v fresh
  step-Unique (forks source snapshot name a) m fresh v =
      fork-Unique uuid_text source snapshot name a m v fresh
  step-Unique (replenishes a) m fresh v = replenish_pool-Unique uuid_text a m v fresh
  step-Unique (destroys id) m n v = destroy-Unique id m v
  step-Unique (stops id) m n v = stop-Unique id m v
  step-Unique (starts id a) m n v = start-Unique id a m v
  step-Unique (suspends id paused) m n v = suspend-Unique id paused m v
  step-Unique (resumes id resumed) m n v = resume-Unique id resumed m v
  step-Unique (takes_snapshot id name memory a) m n v = snapshot_create-Unique id name memory a m v
  step-Unique (restores_snapshot id name rollback a) m n v =
      snapshot_restore-Unique id name rollback a m v
  step-Unique (deletes_snapshot id name deleted) m n v = snapshot_delete-Unique id name deleted m v
  step-Unique (adds_forward id guest host applied) m n v =
      port_forward_add-Unique id guest host applied m v
  step-Unique (removes_forward id guest applied) m n v =
      port_forward_remove-Unique id guest applied m v
  step-Unique (sets_policy id internet inter_vm ports applied) m n v =
      update_network_policy-Unique id internet inter_vm ports applied m v
  step-Unique (registers_team team) m n v = v
  step-Unique (removes_team name) m n v = v
  step-Unique (sets_team id team) m n v = set_workspace_team_id-Unique id team m v
