-- ===== src/Workspace/Manager/VmStops.antt =====
-- Stopping, starting, restoring and destroying (agentiso/src/workspace/mod.rs) leave no stopped
-- workspace with a VM.
use agentiso.Prelude.{
  ℕ, ◌≡◌, Bool, true, false, ◌==◌, if◌then◌else◌, Option, none, some, List, Str, nat_eq, str_eq,
  nat_beq_iff, Bool-cases, Option-cases, inl, inr, arith,
}
use agentiso.Prelude.Dict
use agentiso.Prelude.Set
use agentiso.Workspace.Snapshots.{Uuid, get_by_name}
use agentiso.Workspace.Manager.State.{
  Workspace, WorkspaceState, stopped, running, suspended, same_state, WorkspaceManager, update,
}
use agentiso.Workspace.Manager.Host.{launch, stop_vm, cleanup_workspace}
use agentiso.Workspace.Manager.Lifecycle.{
  StartAnswers, destroy, stop, start, start_from, launched_again, launch_again, vms_without,
  rolled_back, snapshot_restore,
}
use agentiso.Workspace.Manager.Keeping.{recycle-Keeps}
use agentiso.Workspace.Manager.Vms.{Halted, Others, modify-Halts, launch-Others, recycle-vms}

-- A change that keeps the state of a workspace, or leaves it in one that is not `stopped`.
pub update-Halted :
    (id : Uuid) (f : Workspace → Workspace) (m : WorkspaceManager)
    → ((w : Workspace) → (f w).state ≡ stopped → w.state ≡ stopped)
    → Halted m
    → Halted (update id f m)
update-Halted id f m kept h =
    modify-Halts id m.workspaces m.vms m.vms (λ i other here. here) h f
      (λ w found off. h id w found (kept w off))

stop_vm-fewer :
    (id : Uuid) (vms : List Uuid) (i : Uuid)
    → Set.contains i (stop_vm id vms) ≡ (if id == i then false else Set.contains i vms)
unfolding stop_vm
stop_vm-fewer id vms i = Set.contains-remove id i vms

vms_without-fewer :
    (id : Uuid) (w : Workspace) (m : WorkspaceManager) (i : Uuid)
    → Set.contains i (vms_without id w m) ≡ true
    → Set.contains i m.vms ≡ true
vms_without-fewer id w m i here = ground (arith, stop_vm-fewer id m.vms i)

-- The VM of a workspace that was not stopped is gone, and a stopped one had none.
vms_without-off :
    (id : Uuid) (w : Workspace) (m : WorkspaceManager)
    → Dict.lookup id m.workspaces ≡ some w
    → Halted m
    → Set.contains id (vms_without id w m) ≡ false
unfolding same_state
vms_without-off id w m found h =
    ground (arith, stop_vm-fewer id m.vms id, nat_beq_iff id id, h id w found)

pub destroy-Halted : (id : Uuid) (m : WorkspaceManager) → Halted m → Halted (destroy id m).0
unfolding destroy
destroy-Halted id m h = elim (Option-cases (Dict.lookup id m.workspaces)) [
  | inl absent ↦ rw (absent, destroy) h
  | inr (w, found) ↦
      let m1 : WorkspaceManager = record m {
        vms = vms_without id w m;
        ip_allocator = cleanup_workspace w.network.ip m.ip_allocator;
      } in
      rw (found, destroy, (recycle-Keeps w.vsock_cid m1).1, recycle-vms w.vsock_cid m1)
        (λ i x at_i off.
          ground (arith, Dict.lookup-remove id i m.workspaces, h i x, vms_without-fewer id w m i))
]

pub stop-Halted : (id : Uuid) (m : WorkspaceManager) → Halted m → Halted (stop id m).0
unfolding stop
stop-Halted id m h = elim (Option-cases (Dict.lookup id m.workspaces)) [
  | inl absent ↦ rw (absent, stop) h
  | inr (w, found) ↦ elim (Bool-cases (same_state w.state running)) [
    | inr other ↦ rw (found, stop, other) h
    | inl up ↦
        rw (found, stop, up)
          (modify-Halts id m.workspaces m.vms (stop_vm id m.vms)
            (λ i other here. ground (arith, stop_vm-fewer id m.vms i)) h
            (λ w. record w { state = stopped; qemu_pid = none })
            (λ x at_id off. ground (arith, stop_vm-fewer id m.vms id, nat_beq_iff id id)))
  ]
]

launched_again-Halted :
    (id : Uuid) (m : WorkspaceManager) (p : List Uuid × Option ℕ)
    → Others id m.vms p.0
    → Halted m
    → Halted (launched_again id m p).0
launched_again-Halted id m (vms, none) others h = h
launched_again-Halted id m (vms, some pid) others h =
    modify-Halts id m.workspaces m.vms vms others h
      (λ w. record w { state = running; qemu_pid = some pid }) (λ w found off. absurd (cc))

start_from-Halted :
    (id : Uuid) (a : StartAnswers) (state : WorkspaceState) (tap : Option Str) (rules : Bool)
    (m : WorkspaceManager)
    → Halted m
    → Halted (start_from id a.pid m state tap rules).0
unfolding launch_again
start_from-Halted id a running tap rules m h = h
start_from-Halted id a suspended tap rules m h = h
start_from-Halted id a stopped none rules m h = h
start_from-Halted id a stopped (some tap) false m h = h
start_from-Halted id a stopped (some tap) true m h =
    let m1 : WorkspaceManager = update id (λ w. record w { tap_device = tap }) m in
    launched_again-Halted id m1 (launch id a.pid m1.vms) (launch-Others id a.pid m1.vms)
      (update-Halted id (λ w. record w { tap_device = tap }) m (λ w off. off) h)

pub start-Halted :
    (id : Uuid) (a : StartAnswers) (m : WorkspaceManager) → Halted m → Halted (start id a m).0
unfolding start
start-Halted id a m h = elim (Option-cases (Dict.lookup id m.workspaces)) [
  | inl absent ↦ rw (absent, start) h
  | inr (w, found) ↦ rw (found, start) (start_from-Halted id a w.state a.tap a.rules m h)
]

pub snapshot_restore-Halted :
    (id : Uuid) (name : Str) (rollback : Bool) (a : StartAnswers) (m : WorkspaceManager)
    → Halted m
    → Halted (snapshot_restore id name rollback a m).0
unfolding snapshot_restore
snapshot_restore-Halted id name rollback a m h = elim (Option-cases (Dict.lookup id m.workspaces)) [
  | inl absent ↦ rw (absent, snapshot_restore) h
  | inr (w, found) ↦ elim (Option-cases (get_by_name name w.snapshots)) [
    | inl unknown ↦ rw (found, snapshot_restore, unknown) h
    | inr (s, known) ↦ elim (Bool-cases rollback) [
      | inr failed ↦
          rw (found, snapshot_restore, known, failed)
            (λ i x at_i off. ground (arith, h i x at_i off, vms_without-fewer id w m i))
      | inl back ↦
          rw (found, snapshot_restore, known, back)
            (start-Halted id a
              (update id (rolled_back s.created_at) (record m { vms = vms_without id w m }))
              (modify-Halts id m.workspaces m.vms (vms_without id w m)
                (λ i other here. vms_without-fewer id w m i here) h (rolled_back s.created_at)
                (λ x at_id off. vms_without-off id w m found h)))
    ]
  ]
]
