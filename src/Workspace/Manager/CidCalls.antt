-- ===== src/Workspace/Manager/CidCalls.antt =====
-- The vsock identifiers in every history of calls (agentiso/src/workspace/mod.rs).
use agentiso.Prelude.{
  ℕ, refl, Bool, true, false, ◌||◌, Option, none, some, List, [], Str, nat_eq, str_eq, ◌==◌, leb,
  Bool-cases, Option-cases, Result-cases, inl, inr, Result, ok, err, arith,
}
use agentiso.Prelude.Dict
use agentiso.Prelude.Set
use agentiso.Network.Ip.{IpAllocator}
use agentiso.Workspace.Snapshots.{Uuid, Snapshot, get_by_name, has_children, add}
use agentiso.Workspace.Snapshots
use agentiso.Workspace.Manager.State.{
  WorkspaceState, stopped, running, suspended, same_state, WorkspaceManager, ManagerError, update,
  u32_max, recycle_vsock_cid,
}
use agentiso.Workspace.Manager.Host.{WorkspaceNetworkSetup, setup_workspace, launch, stop_vm}
use agentiso.Workspace.Manager.Boot.{Answers, boot, wants_vm}
use agentiso.Workspace.Manager.Create.{
  replenish_booted, replenish_network, replenish_pool, warm_vm_of,
}
use agentiso.Workspace.Manager.Lifecycle.{
  StartAnswers, SnapshotAnswers, destroy, stop, start, start_from, launched_again, launch_again,
  suspend, resume, take_snapshot, snapshot_create, snapshot_of, vms_without, rolled_back,
  snapshot_restore, snapshot_delete,
}
use agentiso.Workspace.Manager.Cids.{Unique}
use agentiso.Workspace.Manager.CidSteps.{
  recycle-Unique, update-Unique, remove-Unique, add_ready-Unique,
}
use agentiso.Workspace.Manager.CidInvariant.{Fresh, Booted, boot-Booted}

module _ (uuid_text : Uuid → Str) where
  replenish_booted-Unique :
      (a : Answers) (disk : Str × Str) (net : WorkspaceNetworkSetup)
      (p : WorkspaceManager × Result ManagerError (ℕ × ℕ))
      → Booted a.id p
      → Unique [] (replenish_booted uuid_text a disk net p).0
  replenish_booted-Unique a disk net (m, ok (cid, pid)) v =
      add_ready-Unique (warm_vm_of uuid_text a m.config disk net cid pid) m v.0
  replenish_booted-Unique a disk net (m, err e) v = ground arith

  replenish_network-Unique :
      (a : Answers) (disk : Str × Str) (m : WorkspaceManager)
      (p : IpAllocator × Result ManagerError WorkspaceNetworkSetup)
      → Unique [] m
      → Fresh a.id m
      → Unique [] (replenish_network uuid_text a disk m p).0
  replenish_network-Unique a disk m (alloc, err e) v fresh = v
  replenish_network-Unique a disk m (alloc, ok net) v fresh =
      let m1 : WorkspaceManager = record m { ip_allocator = alloc } in
      replenish_booted-Unique a disk net (boot a net.guest_ip m1)
        (boot-Booted a net.guest_ip m1 v fresh)

  pub replenish_pool-Unique :
      (a : Answers) (m : WorkspaceManager)
      → Unique [] m
      → Fresh a.id m
      → Unique [] (replenish_pool uuid_text a m).0
  unfolding replenish_pool
  replenish_pool-Unique a m v fresh = elim (Option-cases a.storage) [
    | inl failed ↦ rw failed v
    | inr (disk, cloned) ↦ elim (Bool-cases (wants_vm m)) [
      | inl wanted ↦
          rw (cloned, wanted)
            (replenish_network-Unique a disk m (setup_workspace a.tap a.rules m.ip_allocator) v
              fresh)
      | inr full ↦ rw (cloned, full) v
    ]
  ]

pub destroy-Unique : (id : Uuid) (m : WorkspaceManager) → Unique [] m → Unique [] (destroy id m).0
unfolding destroy recycle_vsock_cid
destroy-Unique id m v = elim (Option-cases (Dict.lookup id m.workspaces)) [
  | inl absent ↦ rw (absent, destroy) v
  | inr (w, found) ↦
      let m1 : WorkspaceManager = record m { workspaces = Dict.remove id m.workspaces } in
      let v1 : Unique [] (recycle_vsock_cid w.vsock_cid m1) =
        recycle-Unique w.vsock_cid [] m1 (remove-Unique id w m found v) in
      elim (Bool-cases (leb w.vsock_cid 2 || w.vsock_cid == u32_max)) [
        | inl reserved ↦ rw (found, reserved, destroy, recycle_vsock_cid) (rw reserved at v1)
        | inr usable ↦ rw (found, usable, destroy, recycle_vsock_cid) (rw usable at v1)
      ]
]

pub stop-Unique : (id : Uuid) (m : WorkspaceManager) → Unique [] m → Unique [] (stop id m).0
unfolding stop
stop-Unique id m v = elim (Option-cases (Dict.lookup id m.workspaces)) [
  | inl absent ↦ rw (absent, stop) v
  | inr (w, found) ↦ elim (Bool-cases (same_state w.state running)) [
    | inr other ↦ rw (found, stop, other) v
    | inl up ↦
        rw (found, stop, up)
          (update-Unique id (λ w. record w { state = stopped; qemu_pid = none }) []
            (record m { vms = stop_vm id m.vms }) (λ w. refl) v)
  ]
]

launched_again-Unique :
    (id : Uuid) (m : WorkspaceManager) (p : List Uuid × Option ℕ)
    → Unique [] m
    → Unique [] (launched_again id m p).0
launched_again-Unique id m (vms, none) v = v
launched_again-Unique id m (vms, some pid) v =
    update-Unique id (λ w. record w { state = running; qemu_pid = some pid }) []
      (record m { vms = vms }) (λ w. refl) v

start_from-Unique :
    (id : Uuid) (a : StartAnswers) (state : WorkspaceState) (tap : Option Str) (rules : Bool)
    (m : WorkspaceManager)
    → Unique [] m
    → Unique [] (start_from id a.pid m state tap rules).0
unfolding launch_again
start_from-Unique id a running tap rules m v = v
start_from-Unique id a suspended tap rules m v = v
start_from-Unique id a stopped none rules m v = v
start_from-Unique id a stopped (some tap) false m v = v
start_from-Unique id a stopped (some tap) true m v =
    let m1 : WorkspaceManager = update id (λ w. record w { tap_device = tap }) m in
    launched_again-Unique id m1 (launch id a.pid m1.vms)
      (update-Unique id (λ w. record w { tap_device = tap }) [] m (λ w. refl) v)

pub start-Unique :
    (id : Uuid) (a : StartAnswers) (m : WorkspaceManager) → Unique [] m → Unique [] (start id a m).0
unfolding start
start-Unique id a m v = elim (Option-cases (Dict.lookup id m.workspaces)) [
  | inl absent ↦ rw (absent, start) v
  | inr (w, found) ↦ rw (found, start) (start_from-Unique id a w.state a.tap a.rules m v)
]

pub suspend-Unique :
    (id : Uuid) (paused : Bool) (m : WorkspaceManager)
    → Unique [] m
    → Unique [] (suspend id paused m).0
unfolding suspend
suspend-Unique id paused m v = elim (Option-cases (Dict.lookup id m.workspaces)) [
  | inl absent ↦ rw (absent, suspend) v
  | inr (w, found) ↦ elim (Bool-cases (same_state w.state running)) [
    | inr other ↦ rw (found, suspend, other) v
    | inl up ↦ elim (Bool-cases (Set.contains id m.vms)) [
      | inr lost ↦ rw (found, suspend, up, lost) v
      | inl here ↦ elim (Bool-cases paused) [
        | inr failed ↦ rw (found, suspend, up, here, failed) v
        | inl done ↦
            rw (found, suspend, up, here, done)
              (update-Unique id (λ w. record w { state = suspended }) [] m (λ w. refl) v)
      ]
    ]
  ]
]

pub resume-Unique :
    (id : Uuid) (resumed : Bool) (m : WorkspaceManager)
    → Unique [] m
    → Unique [] (resume id resumed m).0
unfolding resume
resume-Unique id resumed m v = elim (Option-cases (Dict.lookup id m.workspaces)) [
  | inl absent ↦ rw (absent, resume) v
  | inr (w, found) ↦ elim (Bool-cases (same_state w.state suspended)) [
    | inr other ↦ rw (found, resume, other) v
    | inl asleep ↦ elim (Bool-cases (Set.contains id m.vms)) [
      | inr lost ↦ rw (found, resume, asleep, lost) v
      | inl here ↦ elim (Bool-cases resumed) [
        | inr failed ↦ rw (found, resume, asleep, here, failed) v
        | inl done ↦
            rw (found, resume, asleep, here, done)
              (update-Unique id (λ w. record w { state = running }) [] m (λ w. refl) v)
      ]
    ]
  ]
]

pub snapshot_create-Unique :
    (id : Uuid) (name : Str) (memory : Bool) (a : SnapshotAnswers) (m : WorkspaceManager)
    → Unique [] m
    → Unique [] (snapshot_create id name memory a m).0
unfolding snapshot_create
snapshot_create-Unique id name memory a m v = elim (Option-cases (Dict.lookup id m.workspaces)) [
  | inl absent ↦ rw (absent, snapshot_create) v
  | inr (w, found) ↦ elim (Result-cases (take_snapshot id w memory a m)) [
    | inl (e, refused) ↦ rw (found, snapshot_create, refused) v
    | inr (zfs, taken) ↦
        let s = snapshot_of id w name memory a zfs in
        rw (found, snapshot_create, taken)
          (update-Unique id (λ w. record w { snapshots = add s w.snapshots }) [] m (λ w. refl) v)
  ]
]

pub snapshot_restore-Unique :
    (id : Uuid) (name : Str) (rollback : Bool) (a : StartAnswers) (m : WorkspaceManager)
    → Unique [] m
    → Unique [] (snapshot_restore id name rollback a m).0
unfolding snapshot_restore
snapshot_restore-Unique id name rollback a m v = elim (Option-cases (Dict.lookup id m.workspaces)) [
  | inl absent ↦ rw (absent, snapshot_restore) v
  | inr (w, found) ↦ elim (Option-cases (get_by_name name w.snapshots)) [
    | inl unknown ↦ rw (found, snapshot_restore, unknown) v
    | inr (s, known) ↦ elim (Bool-cases rollback) [
      | inr failed ↦ rw (found, snapshot_restore, known, failed) v
      | inl back ↦
          rw (found, snapshot_restore, known, back)
            (start-Unique id a
              (update id (rolled_back s.created_at) (record m { vms = vms_without id w m }))
              (update-Unique id (rolled_back s.created_at) []
                (record m { vms = vms_without id w m }) (λ w. refl) v))
    ]
  ]
]

pub snapshot_delete-Unique :
    (id : Uuid) (name : Str) (deleted : Bool) (m : WorkspaceManager)
    → Unique [] m
    → Unique [] (snapshot_delete id name deleted m).0
unfolding snapshot_delete
snapshot_delete-Unique id name deleted m v = elim (Option-cases (Dict.lookup id m.workspaces)) [
  | inl absent ↦ rw (absent, snapshot_delete) v
  | inr (w, found) ↦ elim (Option-cases (get_by_name name w.snapshots)) [
    | inl unknown ↦ rw (found, snapshot_delete, unknown) v
    | inr (s, known) ↦ elim (Bool-cases (has_children s.id w.snapshots)) [
      | inl parent ↦ rw (found, snapshot_delete, known, parent) v
      | inr leaf ↦ elim (Bool-cases deleted) [
        | inr failed ↦ rw (found, snapshot_delete, known, leaf, failed) v
        | inl done ↦
            rw (found, snapshot_delete, known, leaf, done)
              (update-Unique id
                (λ w. record w { snapshots = (Snapshots.remove s.id w.snapshots).0 }) [] m
                (λ w. refl) v)
      ]
    ]
  ]
]
