-- ===== src/Workspace/Manager/Restoring.antt =====
-- What the snapshot operations (agentiso/src/workspace/mod.rs) do to the map of workspaces.
use agentiso.Prelude.{
  ℕ, ◌≡◌, ◌≤◌, refl, Bool, true, false, List, [], ◌∷◌, Str, nat_eq, str_eq, leb, ltb, keep,
  Bool-cases, Option-cases, Result-cases, inl, inr, ok, arith,
}
use agentiso.Prelude.Dict.{Dict}
use agentiso.Prelude.Dict
use agentiso.Workspace.Snapshots.{Uuid, Snapshot, SnapshotTree, get_by_name, has_children, len, add}
use agentiso.Workspace.Snapshots
use agentiso.Workspace.Manager.State.{Workspace, same_state, WorkspaceManager, modify, update}
use agentiso.Workspace.Manager.Lifecycle.{
  StartAnswers, SnapshotAnswers, take_snapshot, snapshot_create, snapshot_of, vms_without,
  rolled_back, without_newer, remove_all, snapshot_restore, snapshot_delete,
}
use agentiso.Workspace.Manager.Calls.{Call, takes_snapshot, restores_snapshot, deletes_snapshot}
use agentiso.Workspace.Manager.Moves.{stays, is_restored, same, Changes, update-Changes}
use agentiso.Workspace.Manager.Changes.{started-Changes}

add_within :
    (s : Snapshot) (t : SnapshotTree) {limit : ℕ}
    → leb limit (len t) ≡ false
    → len (add s t) ≤ limit
unfolding len add
add_within s t below = ground (arith, Dict.length-insert s.id s t.snapshots)

remove_within :
    (id : Uuid) (t : SnapshotTree) (limit : ℕ)
    → len t ≤ limit
    → len (Snapshots.remove id t).0 ≤ limit
unfolding len Snapshots.remove
remove_within id t limit fits = omega (arith, Dict.length-remove id t.snapshots)

remove_all_within :
    (newer : List Snapshot) (t : SnapshotTree) (limit : ℕ)
    → len t ≤ limit
    → len (remove_all newer t) ≤ limit
unfolding remove_all
remove_all_within [] t limit fits = fits
remove_all_within (s ∷ newer) t limit fits =
    remove_all_within newer (Snapshots.remove s.id t).0 limit (remove_within s.id t limit fits)

without_newer_within :
    (at : ℕ) (t : SnapshotTree) (limit : ℕ) → len t ≤ limit → len (without_newer at t) ≤ limit
without_newer_within at t limit =
    remove_all_within (keep (λ s. ltb at s.created_at) (Snapshots.list t)) t limit

take_snapshot-ok :
    (id : Uuid) (w : Workspace) (memory : Bool) (a : SnapshotAnswers) (m : WorkspaceManager)
    (zfs : Str)
    → take_snapshot id w memory a m ≡ ok zfs
    → leb m.config.resources.max_snapshots_per_workspace (len w.snapshots) ≡ false
unfolding take_snapshot
take_snapshot-ok id w memory a m zfs taken = ground arith

pub snapshot_create-Changes :
    (id : Uuid) (name : Str) (memory : Bool) (a : SnapshotAnswers) (m : WorkspaceManager)
    → Changes (takes_snapshot id name memory a) m (snapshot_create id name memory a m).0
unfolding snapshot_create
snapshot_create-Changes id name memory a m = elim (Option-cases (Dict.lookup id m.workspaces)) [
  | inl absent ↦ rw (absent, snapshot_create) same
  | inr (w, found) ↦ elim (Result-cases (take_snapshot id w memory a m)) [
    | inl (e, refused) ↦ rw (found, snapshot_create, refused) same
    | inr (zfs, taken) ↦
        let s = snapshot_of id w name memory a zfs in
        let f : Workspace → Workspace = λ w. record w { snapshots = add s w.snapshots } in
        rw (found, snapshot_create, taken)
          (update-Changes (takes_snapshot id name memory a) id f m w found (record {
            named = refl;
            moves = stays;
            pid = λ h. h;
            room = λ fits. add_within s w.snapshots (take_snapshot-ok id w memory a m zfs taken);
          }))
  ]
]

pub snapshot_delete-Changes :
    (id : Uuid) (name : Str) (deleted : Bool) (m : WorkspaceManager)
    → Changes (deletes_snapshot id name deleted) m (snapshot_delete id name deleted m).0
unfolding snapshot_delete
snapshot_delete-Changes id name deleted m = elim (Option-cases (Dict.lookup id m.workspaces)) [
  | inl absent ↦ rw (absent, snapshot_delete) same
  | inr (w, found) ↦ elim (Option-cases (get_by_name name w.snapshots)) [
    | inl unknown ↦ rw (found, snapshot_delete, unknown) same
    | inr (s, known) ↦ elim (Bool-cases (has_children s.id w.snapshots)) [
      | inl parent ↦ rw (found, snapshot_delete, known, parent) same
      | inr leaf ↦ elim (Bool-cases deleted) [
        | inr failed ↦ rw (found, snapshot_delete, known, leaf, failed) same
        | inl done ↦
            let f : Workspace → Workspace =
              λ w. record w { snapshots = (Snapshots.remove s.id w.snapshots).0 } in
            rw (found, snapshot_delete, known, leaf, done)
              (update-Changes (deletes_snapshot id name true) id f m w found (record {
                named = refl;
                moves = stays;
                pid = λ h. h;
                room =
                    remove_within s.id w.snapshots m.config.resources.max_snapshots_per_workspace;
              }))
      ]
    ]
  ]
]

pub snapshot_restore-Changes :
    (id : Uuid) (name : Str) (rollback : Bool) (a : StartAnswers) (m : WorkspaceManager)
    → Changes (restores_snapshot id name rollback a) m (snapshot_restore id name rollback a m).0
unfolding snapshot_restore same_state
snapshot_restore-Changes id name rollback a m = elim (Option-cases (Dict.lookup id m.workspaces)) [
  | inl absent ↦ rw (absent, snapshot_restore) same
  | inr (w, found) ↦ elim (Option-cases (get_by_name name w.snapshots)) [
    | inl unknown ↦ rw (found, snapshot_restore, unknown) same
    | inr (s, known) ↦ elim (Bool-cases rollback) [
      | inr failed ↦ rw (found, snapshot_restore, known, failed) same
      | inl back ↦
          let x : Workspace = rolled_back s.created_at w in
          let m1 : WorkspaceManager =
            update id (rolled_back s.created_at) (record m { vms = vms_without id w m }) in
          let c : Call = restores_snapshot id name true a in
          let now : m1.workspaces ≡ Dict.insert id x m.workspaces = rw (modify, found) in
          rw (found, snapshot_restore, known, back)
            (started-Changes c id a m.workspaces w x found m1 now
              (record {
                named = refl;
                moves = is_restored refl;
                pid = λ h. refl;
                room =
                    without_newer_within s.created_at w.snapshots
                      m.config.resources.max_snapshots_per_workspace;
              })
              (λ was. is_restored refl))
    ]
  ]
]
