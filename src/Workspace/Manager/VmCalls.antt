-- ===== src/Workspace/Manager/VmCalls.antt =====
-- No call of the workspace manager leaves a stopped workspace with a VM
-- (agentiso/src/workspace/mod.rs).
use agentiso.Prelude.{
  ℕ, Bool, not, ◌++◌, ◌==◌, keep, Option, List, [], ◌∷◌, Str, nat_eq, str_eq, Bool-cases,
  Option-cases, Result-cases, inl, inr,
}
use agentiso.Prelude.Dict
use agentiso.Prelude.Set
use agentiso.Workspace.Snapshots.{Uuid, get_by_name, has_children, add}
use agentiso.Workspace.Snapshots
use agentiso.Workspace.Manager.State.{
  running, suspended, same_state, WorkspaceManager, PortForward, set_workspace_team_id,
  register_team, remove_team,
}
use agentiso.Workspace.Manager.Boot.{unwrap_or}
use agentiso.Workspace.Manager.Lifecycle.{
  SnapshotAnswers, suspend, resume, take_snapshot, snapshot_create, snapshot_of, snapshot_delete,
}
use agentiso.Workspace.Manager.Policy.{port_forward_add, port_forward_remove, update_network_policy}
use agentiso.Workspace.Manager.Calls.{
  Call, creates, forks, replenishes, destroys, stops, starts, suspends, resumes, takes_snapshot,
  restores_snapshot, deletes_snapshot, adds_forward, removes_forward, sets_policy, registers_team,
  removes_team, sets_team, step,
}
use agentiso.Workspace.Manager.CidHistory.{IsNew}
use agentiso.Workspace.Manager.Vms.{Halted}
use agentiso.Workspace.Manager.VmBoots.{create-Halted, fork-Halted, replenish_pool-Halted}
use agentiso.Workspace.Manager.VmStops.{
  update-Halted, destroy-Halted, stop-Halted, start-Halted, snapshot_restore-Halted,
}

suspend-Halted :
    (id : Uuid) (paused : Bool) (m : WorkspaceManager) → Halted m → Halted (suspend id paused m).0
unfolding suspend
suspend-Halted id paused m h = elim (Option-cases (Dict.lookup id m.workspaces)) [
  | inl absent ↦ rw (absent, suspend) h
  | inr (w, found) ↦ elim (Bool-cases (same_state w.state running)) [
    | inr other ↦ rw (found, suspend, other) h
    | inl up ↦ elim (Bool-cases (Set.contains id m.vms)) [
      | inr lost ↦ rw (found, suspend, up, lost) h
      | inl here ↦ elim (Bool-cases paused) [
        | inr failed ↦ rw (found, suspend, up, here, failed) h
        | inl done ↦
            rw (found, suspend, up, here, done)
              (update-Halted id (λ w. record w { state = suspended }) m (λ w off. absurd (cc)) h)
      ]
    ]
  ]
]

resume-Halted :
    (id : Uuid) (resumed : Bool) (m : WorkspaceManager) → Halted m → Halted (resume id resumed m).0
unfolding resume
resume-Halted id resumed m h = elim (Option-cases (Dict.lookup id m.workspaces)) [
  | inl absent ↦ rw (absent, resume) h
  | inr (w, found) ↦ elim (Bool-cases (same_state w.state suspended)) [
    | inr other ↦ rw (found, resume, other) h
    | inl asleep ↦ elim (Bool-cases (Set.contains id m.vms)) [
      | inr lost ↦ rw (found, resume, asleep, lost) h
      | inl here ↦ elim (Bool-cases resumed) [
        | inr failed ↦ rw (found, resume, asleep, here, failed) h
        | inl done ↦
            rw (found, resume, asleep, here, done)
              (update-Halted id (λ w. record w { state = running }) m (λ w off. absurd (cc)) h)
      ]
    ]
  ]
]

snapshot_create-Halted :
    (id : Uuid) (name : Str) (memory : Bool) (a : SnapshotAnswers) (m : WorkspaceManager)
    → Halted m
    → Halted (snapshot_create id name memory a m).0
unfolding snapshot_create
snapshot_create-Halted id name memory a m h = elim (Option-cases (Dict.lookup id m.workspaces)) [
  | inl absent ↦ rw (absent, snapshot_create) h
  | inr (w, found) ↦ elim (Result-cases (take_snapshot id w memory a m)) [
    | inl (e, refused) ↦ rw (found, snapshot_create, refused) h
    | inr (zfs, taken) ↦
        let s = snapshot_of id w name memory a zfs in
        rw (found, snapshot_create, taken)
          (update-Halted id (λ w. record w { snapshots = add s w.snapshots }) m (λ w off. off) h)
  ]
]

snapshot_delete-Halted :
    (id : Uuid) (name : Str) (deleted : Bool) (m : WorkspaceManager)
    → Halted m
    → Halted (snapshot_delete id name deleted m).0
unfolding snapshot_delete
snapshot_delete-Halted id name deleted m h = elim (Option-cases (Dict.lookup id m.workspaces)) [
  | inl absent ↦ rw (absent, snapshot_delete) h
  | inr (w, found) ↦ elim (Option-cases (get_by_name name w.snapshots)) [
    | inl unknown ↦ rw (found, snapshot_delete, unknown) h
    | inr (s, known) ↦ elim (Bool-cases (has_children s.id w.snapshots)) [
      | inl parent ↦ rw (found, snapshot_delete, known, parent) h
      | inr leaf ↦ elim (Bool-cases deleted) [
        | inr failed ↦ rw (found, snapshot_delete, known, leaf, failed) h
        | inl done ↦
            rw (found, snapshot_delete, known, leaf, done)
              (update-Halted id
                (λ w. record w { snapshots = (Snapshots.remove s.id w.snapshots).0 }) m
                (λ w off. off) h)
      ]
    ]
  ]
]

port_forward_add-Halted :
    (id : Uuid) (guest : ℕ) (host : Option ℕ) (applied : Bool) (m : WorkspaceManager)
    → Halted m
    → Halted (port_forward_add id guest host applied m).0
unfolding port_forward_add
port_forward_add-Halted id guest host applied m h =
    elim (Option-cases (Dict.lookup id m.workspaces)) [
      | inl absent ↦ rw (absent, port_forward_add) h
      | inr (old, found) ↦ elim (Bool-cases applied) [
        | inr failed ↦ rw (found, failed, port_forward_add) h
        | inl done ↦
            let forward : PortForward = record {
              host_port = unwrap_or guest host;
              guest_port = guest;
            } in
            rw (found, done, port_forward_add)
              (update-Halted id
                (λ w. record w {
                  network = record w.network {
                    port_forwards = w.network.port_forwards ++ forward ∷ [];
                  };
                })
                m (λ w off. off) h)
      ]
    ]

port_forward_remove-Halted :
    (id : Uuid) (guest : ℕ) (applied : Bool) (m : WorkspaceManager)
    → Halted m
    → Halted (port_forward_remove id guest applied m).0
unfolding port_forward_remove
port_forward_remove-Halted id guest applied m h =
    elim (Option-cases (Dict.lookup id m.workspaces)) [
      | inl absent ↦ rw (absent, port_forward_remove) h
      | inr (old, found) ↦ elim (Bool-cases applied) [
        | inr failed ↦ rw (found, failed, port_forward_remove) h
        | inl done ↦
            rw (found, done, port_forward_remove)
              (update-Halted id
                (λ w. record w {
                  network = record w.network {
                    port_forwards =
                        keep (λ pf. not (pf.guest_port == guest)) w.network.port_forwards;
                  };
                })
                m (λ w off. off) h)
      ]
    ]

update_network_policy-Halted :
    (id : Uuid) (internet inter_vm : Option Bool) (ports : Option (List ℕ)) (applied : Bool)
    (m : WorkspaceManager)
    → Halted m
    → Halted (update_network_policy id internet inter_vm ports applied m).0
unfolding update_network_policy
update_network_policy-Halted id internet inter_vm ports applied m h =
    elim (Option-cases (Dict.lookup id m.workspaces)) [
      | inl absent ↦ rw (absent, update_network_policy) h
      | inr (old, found) ↦ elim (Bool-cases applied) [
        | inr failed ↦ rw (found, failed, update_network_policy) h
        | inl done ↦
            rw (found, done, update_network_policy)
              (update-Halted id
                (λ w. record w {
                  network = record w.network {
                    allow_internet = unwrap_or old.network.allow_internet internet;
                    allow_inter_vm = unwrap_or old.network.allow_inter_vm inter_vm;
                    allowed_ports = unwrap_or old.network.allowed_ports ports;
                  };
                })
                m (λ w off. off) h)
      ]
    ]

set_workspace_team_id-Halted :
    (id : Uuid) (team : Option Str) (m : WorkspaceManager)
    → Halted m
    → Halted (set_workspace_team_id id team m).0
unfolding set_workspace_team_id
set_workspace_team_id-Halted id team m h = elim (Option-cases (Dict.lookup id m.workspaces)) [
  | inl absent ↦ rw (absent, set_workspace_team_id) h
  | inr (old, found) ↦
      rw (found, set_workspace_team_id)
        (update-Halted id (λ w. record w { team_id = team }) m (λ w off. off) h)
]

module _ (uuid_text : Uuid → Str) where
  pub step-Halted :
      (c : Call) (m : WorkspaceManager) → IsNew c m → Halted m → Halted (step uuid_text c m)
  unfolding step register_team remove_team
  step-Halted (creates params a) m fresh h = create-Halted uuid_text params a m fresh h
  step-Halted (forks source snapshot name a) m fresh h =
      fork-Halted uuid_text source snapshot name a m fresh h
  step-Halted (replenishes a) m fresh h = replenish_pool-Halted uuid_text a m fresh h
  step-Halted (destroys id) m n h = destroy-Halted id m h
  step-Halted (stops id) m n h = stop-Halted id m h
  step-Halted (starts id a) m n h = start-Halted id a m h
  step-Halted (suspends id paused) m n h = suspend-Halted id paused m h
  step-Halted (resumes id resumed) m n h = resume-Halted id resumed m h
  step-Halted (takes_snapshot id name memory a) m n h = snapshot_create-Halted id name memory a m h
  step-Halted (restores_snapshot id name rollback a) m n h =
      snapshot_restore-Halted id name rollback a m h
  step-Halted (deletes_snapshot id name deleted) m n h = snapshot_delete-Halted id name deleted m h
  step-Halted (adds_forward id guest host applied) m n h =
      port_forward_add-Halted id guest host applied m h
  step-Halted (removes_forward id guest applied) m n h =
      port_forward_remove-Halted id guest applied m h
  step-Halted (sets_policy id internet inter_vm ports applied) m n h =
      update_network_policy-Halted id internet inter_vm ports applied m h
  step-Halted (registers_team team) m n h = h
  step-Halted (removes_team name) m n h = h
  step-Halted (sets_team id team) m n h = set_workspace_team_id-Halted id team m h
