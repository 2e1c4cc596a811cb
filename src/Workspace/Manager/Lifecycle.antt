-- ===== src/Workspace/Manager/Lifecycle.antt =====
-- Stopping, starting, suspending, resuming and destroying a workspace, and its snapshots
-- (agentiso/src/workspace/mod.rs). What the layers below answer is an argument.
use agentiso.Prelude.{
  ℕ, Bool, true, false, not, ◌&&◌, ◌||◌, Option, none, some, List, [], ◌∷◌, ◌++◌, Str, codes,
  str_eq, nat_eq, leb, ltb, keep, if◌then◌else◌, Result, ok, err, fail_if, ◌>>◌,
}
use agentiso.Prelude.Dict
use agentiso.Prelude.Set
use agentiso.Workspace.Snapshots.{
  Uuid, Snapshot, SnapshotTree, get_by_name, has_children, list, len, add,
}
use agentiso.Workspace.Snapshots
use agentiso.Workspace.Manager.State.{
  Workspace, WorkspaceState, stopped, running, suspended, same_state, WorkspaceManager,
  ManagerError, not_found, not_running, not_stopped, not_suspended, already_running, no_vm,
  pause_failed, resume_failed, memory_state_failed, no_snapshot, has_child_snapshots,
  too_many_snapshots, storage_failed, network_failed, launch_failed, no_vsock, recycle_vsock_cid,
  update,
}
use agentiso.Workspace.Manager.Host.{cleanup_workspace, launch, stop_vm}

-- The VM of a workspace that runs or is suspended is stopped.
abbrev pub vms_without : Uuid → Workspace → WorkspaceManager → List Uuid
vms_without id w m =
    if same_state w.state running || same_state w.state suspended then stop_vm id m.vms else m.vms

-- `stop` of the VM manager succeeds on every path, so the forced kill after it never runs.
unfoldable pub destroy : Uuid → WorkspaceManager → WorkspaceManager × Result ManagerError (Unit {0})
destroy id m = elim (Dict.lookup id m.workspaces) [
  | none ↦ (m, err (not_found id))
  | some w ↦
      let m1 = recycle_vsock_cid w.vsock_cid (record m {
        vms = vms_without id w m;
        ip_allocator = cleanup_workspace w.network.ip m.ip_allocator;
      }) in
      (record m1 { workspaces = Dict.remove id m1.workspaces }, ok tt)
]

unfoldable pub stop : Uuid → WorkspaceManager → WorkspaceManager × Result ManagerError (Unit {0})
stop id m = elim (Dict.lookup id m.workspaces) [
  | none ↦ (m, err (not_found id))
  | some w ↦ if not (same_state w.state running) then (m, err (not_running id)) else (
    update id (λ w. record w { state = stopped; qemu_pid = none })
        (record m { vms = stop_vm id m.vms }),
    ok tt,
  )
]

-- The TAP device, whether the rules could be applied, and the process.
pub record StartAnswers : Type 0 where
  pub tap : Option Str
  pub rules : Bool
  pub pid : Option ℕ

abbrev pub launched_again :
    Uuid
    → WorkspaceManager
    → List Uuid × Option ℕ
    → WorkspaceManager × Result ManagerError (Unit {0})
launched_again id m (vms, none) = (m, err launch_failed)
launched_again id m (vms, some pid) = (
  update id (λ w. record w { state = running; qemu_pid = some pid }) (record m { vms = vms }),
  ok tt,
)

-- `start` with the network ready: the launch.
unfoldable pub launch_again :
    Uuid → Option ℕ → WorkspaceManager → WorkspaceManager × Result ManagerError (Unit {0})
launch_again id pid m = launched_again id m (launch id pid m.vms)

-- What `start` does in each state, with the TAP device and whether the rules could be applied.
abbrev pub start_from :
    Uuid
    → Option ℕ
    → WorkspaceManager
    → WorkspaceState
    → Option Str
    → Bool
    → WorkspaceManager × Result ManagerError (Unit {0})
start_from id pid m running tap rules = (m, err (already_running id))
start_from id pid m suspended tap rules = (m, err (not_stopped id))
start_from id pid m stopped none rules = (m, err network_failed)
start_from id pid m stopped (some tap) false = (m, err network_failed)
start_from id pid m stopped (some tap) true =
    launch_again id pid (update id (λ w. record w { tap_device = tap }) m)

-- A guest that does not take its configuration is only logged.
unfoldable pub start :
    Uuid → StartAnswers → WorkspaceManager → WorkspaceManager × Result ManagerError (Unit {0})
unfolding launch_again
start id a m = elim (Dict.lookup id m.workspaces) [
  | none ↦ (m, err (not_found id))
  | some w ↦ start_from id a.pid m w.state a.tap a.rules
]

unfoldable pub suspend :
    Uuid → (paused : Bool) → WorkspaceManager → WorkspaceManager × Result ManagerError (Unit {0})
suspend id paused m = elim (Dict.lookup id m.workspaces) [
  | none ↦ (m, err (not_found id))
  | some w ↦
      if not (same_state w.state running)
      then (m, err (not_running id))
      else if not (Set.contains id m.vms)
      then (m, err no_vm)
      else if paused
      then (update id (λ w. record w { state = suspended }) m, ok tt)
      else (m, err pause_failed)
]

unfoldable pub resume :
    Uuid → (resumed : Bool) → WorkspaceManager → WorkspaceManager × Result ManagerError (Unit {0})
resume id resumed m = elim (Dict.lookup id m.workspaces) [
  | none ↦ (m, err (not_found id))
  | some w ↦
      if not (same_state w.state suspended)
      then (m, err (not_suspended id))
      else if not (Set.contains id m.vms)
      then (m, err no_vm)
      else if resumed
      then (update id (λ w. record w { state = running }) m, ok tt)
      else (m, err resume_failed)
]

-- Whether the memory could be saved, whether the guest agent was reached, the ZFS snapshot, and the
-- new UUID and time.
pub record SnapshotAnswers : Type 0 where
  pub saved : Bool
  pub vsock : Bool
  pub zfs : Option Str
  pub id : Uuid
  pub now : ℕ

abbrev pub last_id : List Snapshot → Option Uuid
last_id [] = none
last_id (s ∷ []) = some s.id
last_id (s ∷ x ∷ xs) = last_id (x ∷ xs)

-- The newest snapshot so far is the parent.
abbrev pub snapshot_of :
    Uuid → Workspace → (name : Str) → (include_memory : Bool) → SnapshotAnswers → Str → Snapshot
snapshot_of id w name include_memory a zfs = record {
  id = a.id;
  name = name;
  workspace_id = id;
  zfs_snapshot = zfs;
  qemu_state = if include_memory then some (codes "qemu-state:" ++ name) else none;
  parent = last_id (list w.snapshots);
  created_at = a.now;
}

-- The checks and the calls below, in the order of the code.
unfoldable pub take_snapshot :
    Uuid
    → Workspace
    → (include_memory : Bool) → SnapshotAnswers
    → WorkspaceManager
    → Result ManagerError Str
take_snapshot id w include_memory a m = do
  fail_if (not (same_state w.state running)) (not_running id)
  fail_if (leb m.config.resources.max_snapshots_per_workspace (len w.snapshots))
      (too_many_snapshots (len w.snapshots) m.config.resources.max_snapshots_per_workspace)
  fail_if (include_memory && not (Set.contains id m.vms && a.saved)) memory_state_failed
  fail_if (not a.vsock) no_vsock
  elim a.zfs [ none ↦ err storage_failed | some zfs ↦ ok zfs ]

unfoldable pub snapshot_create :
    Uuid
    → (name : Str) → (include_memory : Bool) → SnapshotAnswers
    → WorkspaceManager
    → WorkspaceManager × Result ManagerError Snapshot
unfolding take_snapshot
snapshot_create id name include_memory a m = elim (Dict.lookup id m.workspaces) [
  | none ↦ (m, err (not_found id))
  | some w ↦ elim (take_snapshot id w include_memory a m) [
    | err e ↦ (m, err e)
    | ok zfs ↦
        let s = snapshot_of id w name include_memory a zfs in
        (update id (λ w. record w { snapshots = add s w.snapshots }) m, ok s)
  ]
]

-- `for id in &newer_ids { snapshots.remove(id) }`
unfoldable pub remove_all : List Snapshot → SnapshotTree → SnapshotTree
remove_all [] t = t
remove_all (s ∷ rest) t = remove_all rest (Snapshots.remove s.id t).0

-- `zfs rollback -r` destroys the snapshots after the target, so they leave the tree.
abbrev pub without_newer : ℕ → SnapshotTree → SnapshotTree
without_newer at t = remove_all (keep (λ s. ltb at s.created_at) (list t)) t

abbrev pub rolled_back : ℕ → Workspace → Workspace
rolled_back at w = record w {
  state = stopped;
  qemu_pid = none;
  snapshots = without_newer at w.snapshots;
}

-- The workspace is stopped, rolled back and started again; a memory that cannot be loaded is only
-- logged.
unfoldable pub snapshot_restore :
    Uuid
    → Str
    → (rollback : Bool) → StartAnswers
    → WorkspaceManager
    → WorkspaceManager × Result ManagerError (Unit {0})
unfolding remove_all start
snapshot_restore id name rollback a m = elim (Dict.lookup id m.workspaces) [
  | none ↦ (m, err (not_found id))
  | some w ↦ elim (get_by_name name w.snapshots) [
    | none ↦ (m, err (no_snapshot name))
    | some s ↦
        if rollback
        then start id a
            (update id (rolled_back s.created_at) (record m { vms = vms_without id w m }))
        else (record m { vms = vms_without id w m }, err storage_failed)
  ]
]

unfoldable pub snapshot_delete :
    Uuid
    → Str
    → (deleted : Bool) → WorkspaceManager
    → WorkspaceManager × Result ManagerError (Unit {0})
snapshot_delete id name deleted m = elim (Dict.lookup id m.workspaces) [
  | none ↦ (m, err (not_found id))
  | some w ↦ elim (get_by_name name w.snapshots) [
    | none ↦ (m, err (no_snapshot name))
    | some s ↦
        if has_children s.id w.snapshots
        then (m, err (has_child_snapshots name))
        else if deleted
        then (
          update id (λ w. record w { snapshots = (Snapshots.remove s.id w.snapshots).0 }) m,
          ok tt,
        )
        else (m, err storage_failed)
  ]
]
