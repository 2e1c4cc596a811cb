-- ===== src/Workspace/Manager/CidInvariant.antt =====
-- Every call on the workspace manager (agentiso/src/workspace/mod.rs) keeps each vsock identifier
-- with one holder.
use agentiso.Prelude.{
  ℕ, ◌≡◌, Bool, ◌&&◌, Option, none, some, List, [], ◌∷◌, Str, nat_eq, str_eq, ◌==◌, leb, Bool-cases,
  Option-cases, Result-cases, codes, ◌++◌, inl, inr, Result, ok, err,
}
use agentiso.Prelude.Dict.{Dict}
use agentiso.Prelude.Dict
use agentiso.Config.Sections.{Config}
use agentiso.Network.Ip.{Ipv4Addr, IpAllocator}
use agentiso.Workspace.Pool.{WarmVm, VmPool, claim, enabled}
use agentiso.Workspace.Snapshots.{Uuid, get_by_name}
use agentiso.Workspace.Manager.State.{
  Workspace, WorkspaceManager, ManagerError, alloc_vsock_cid, take_cid, workspace_count,
  CreateParams,
}
use agentiso.Workspace.Manager.Host.{
  WorkspaceNetworkSetup, setup_workspace, cleanup_workspace, launch,
}
use agentiso.Workspace.Manager.Boot.{
  Answers, Request, unwrap_or, check_request, check_room, boot, boot_cid, boot_launched, register,
}
use agentiso.Workspace.Manager.Create.{
  resolve, short_id, create_booted, create_network, create_cold, assign_network, assign_warm_vm,
  create_claimed, create_checked, create, reaches_guest, workspace_of, workspace_of_warm,
}
use agentiso.Workspace.Manager.Fork.{fork_of, fork_booted, fork_network, fork_checked, fork}
use agentiso.Workspace.Manager.Cids.{Unique}
use agentiso.Workspace.Manager.CidSteps.{
  Taken, take_cid-Taken, drop-Unique, recycle-Unique, insert-Unique, add_ready-Unique, Claimed,
  claim-Claimed,
}

abbrev pub Fresh : Uuid → WorkspaceManager → Type 0
Fresh id m = Dict.lookup id m.workspaces ≡ none

-- What allocating and booting leave: the workspaces as they were, and the identifier held.
abbrev Allocated : Uuid → WorkspaceManager × Result ManagerError ℕ → Type 0
Allocated id (m, err e) = Unique [] m
Allocated id (m, ok cid) = Unique (cid ∷ []) m × Fresh id m

abbrev pub Booted : Uuid → WorkspaceManager × Result ManagerError (ℕ × ℕ) → Type 0
Booted id (m, err e) = Unique [] m
Booted id (m, ok (cid, pid)) = Unique (cid ∷ []) m × Fresh id m

alloc-Allocated :
    (id : Uuid) (m : WorkspaceManager)
    → Unique [] m
    → Fresh id m
    → (p : (List ℕ × ℕ) × Result ManagerError ℕ) → Taken [] m.workspaces m.pool.ready p
    → Allocated id (record m { free_vsock_cids = p.0.0; next_vsock_cid = p.0.1 }, p.1)
alloc-Allocated id m v fresh ((free, next), err e) t = t
alloc-Allocated id m v fresh ((free, next), ok cid) t = (t, fresh)

boot_launched-Booted :
    (id : Uuid) (cid : ℕ) (ip : Ipv4Addr) (m : WorkspaceManager) (p : List Uuid × Option ℕ)
    → Unique (cid ∷ []) m
    → Fresh id m
    → Booted id (boot_launched cid ip m p)
boot_launched-Booted id cid ip m (vms, some pid) v fresh = (v, fresh)
boot_launched-Booted id cid ip m (vms, none) v fresh = recycle-Unique cid [] m v

boot_cid-Booted :
    (a : Answers) (ip : Ipv4Addr) (p : WorkspaceManager × Result ManagerError ℕ)
    → Allocated a.id p
    → Booted a.id (boot_cid a ip p)
boot_cid-Booted a ip (m, err e) v = v
boot_cid-Booted a ip (m, ok cid) v =
    boot_launched-Booted a.id cid ip m (launch a.id a.pid m.vms) v.0 v.1

pub boot-Booted :
    (a : Answers) (ip : Ipv4Addr) (m : WorkspaceManager)
    → Unique [] m
    → Fresh a.id m
    → Booted a.id (boot a ip m)
unfolding boot alloc_vsock_cid
boot-Booted a ip m v fresh = boot_cid-Booted a ip (alloc_vsock_cid m) (
    alloc-Allocated a.id m v fresh (take_cid m.free_vsock_cids m.next_vsock_cid)
      (take_cid-Taken [] m.workspaces m.pool.ready m.free_vsock_cids m.next_vsock_cid v))

register-Unique :
    (killed : Bool) (w : Workspace) (m : WorkspaceManager)
    → Unique (w.vsock_cid ∷ []) m
    → Fresh w.id m
    → Unique [] (register killed w m).0
unfolding register
register-Unique killed w m v fresh =
    elim (Bool-cases (leb m.config.resources.max_workspaces (workspace_count m))) [
      | inl full ↦ rw full (recycle-Unique w.vsock_cid [] m v)
      | inr room ↦ rw room (insert-Unique w.id w m fresh v)
    ]

module _ (uuid_text : Uuid → Str) where
  create_booted-Unique :
      (r : Request) (a : Answers) (config : Config) (dataset : Str) (net : WorkspaceNetworkSetup)
      (p : WorkspaceManager × Result ManagerError (ℕ × ℕ))
      → Booted a.id p
      → Unique [] (create_booted uuid_text r a config dataset net p).0
  create_booted-Unique r a config dataset net (m, err e) v = v
  create_booted-Unique r a config dataset net (m, ok (cid, pid)) v =
      elim (Bool-cases (reaches_guest uuid_text a)) [
        | inl reached ↦ rw reached (
            register-Unique a.killed (workspace_of uuid_text r a config dataset net cid pid) m v.0
              v.1)
        | inr lost ↦ rw lost (drop-Unique cid [] m v.0)
      ]

  create_network-Unique :
      (r : Request) (a : Answers) (m : WorkspaceManager) (disk : Option (Str × Str))
      (p : IpAllocator × Result ManagerError WorkspaceNetworkSetup)
      → Unique [] m
      → Fresh a.id m
      → Unique [] (create_network uuid_text r a m disk p).0
  create_network-Unique r a m none (alloc, ok net) v fresh = v
  create_network-Unique r a m none (alloc, err e) v fresh = v
  create_network-Unique r a m (some disk) (alloc, err e) v fresh = v
  create_network-Unique r a m (some disk) (alloc, ok net) v fresh =
      create_booted-Unique r a m.config disk.0 net
        (boot a net.guest_ip (record m { ip_allocator = alloc }))
        (boot-Booted a net.guest_ip (record m { ip_allocator = alloc }) v fresh)

  create_cold-Unique :
      (r : Request) (a : Answers) (m : WorkspaceManager)
      → Unique [] m
      → Fresh a.id m
      → Unique [] (create_cold uuid_text r a m).0
  unfolding create_cold
  create_cold-Unique r a m v fresh =
      create_network-Unique r a m a.storage (setup_workspace a.tap a.rules m.ip_allocator) v fresh

  assign_network-Unique :
      (warm : WarmVm) (r : Request) (a : Answers) (m : WorkspaceManager)
      (p : IpAllocator × Result ManagerError WorkspaceNetworkSetup)
      → Unique (warm.vsock_cid ∷ []) m
      → Fresh a.id m
      → Unique [] (assign_network uuid_text warm r a m p).0
  assign_network-Unique warm r a m (alloc, err e) v fresh = add_ready-Unique warm m v
  assign_network-Unique warm r a m (alloc, ok net) v fresh =
      insert-Unique a.id (workspace_of_warm uuid_text r a m.config warm net) m fresh v

  create_claimed-Unique :
      (r : Request) (a : Answers) (m : WorkspaceManager) (p : VmPool × Option WarmVm)
      → Unique [] m
      → Fresh a.id m
      → Claimed m p
      → Unique [] (create_claimed uuid_text r a m p).0
  unfolding assign_warm_vm
  create_claimed-Unique r a m (pool, none) v fresh c = create_cold-Unique r a m v fresh
  create_claimed-Unique r a m (pool, some warm) v fresh c =
      assign_network-Unique warm r a (record m { pool = pool })
        (setup_workspace a.tap a.rules (cleanup_workspace warm.guest_ip m.ip_allocator)) c fresh

  create_checked-Unique :
      (r : Request) (a : Answers) (m : WorkspaceManager)
      → Unique [] m
      → Fresh a.id m
      → Unique [] (create_checked uuid_text r a m).0
  unfolding create_checked
  create_checked-Unique r a m v fresh =
      elim (Bool-cases (enabled m.pool && r.base_image == m.config.storage.base_image)) [
        | inl warm ↦
            rw warm (create_claimed-Unique r a m (claim m.pool) v fresh (claim-Claimed m v))
        | inr cold ↦ rw cold (create_cold-Unique r a m v fresh)
      ]

  pub create-Unique :
      (params : CreateParams) (a : Answers) (m : WorkspaceManager)
      → Unique [] m
      → Fresh a.id m
      → Unique [] (create uuid_text params a m).0
  unfolding create
  create-Unique params a m v fresh =
      let r = resolve uuid_text params a.id m.config in
      elim (Result-cases (check_request r m)) [
        | inl (e, refused) ↦ rw (refused, create) v
        | inr (u, passed) ↦ rw (passed, create) (create_checked-Unique r a m v fresh)
      ]

  fork_booted-Unique :
      (source_id : Uuid) (source : Workspace) (snapshot_name name : Str) (a : Answers)
      (before : WorkspaceManager) (dataset : Str) (net : WorkspaceNetworkSetup)
      (p : WorkspaceManager × Result ManagerError (ℕ × ℕ))
      → Booted a.id p
      → Unique []
          (fork_booted uuid_text source_id source snapshot_name name a before dataset net p).0
  fork_booted-Unique source_id source snapshot_name name a before dataset net (m, err e) v = v
  fork_booted-Unique source_id source snapshot_name name a before dataset net (m, ok (cid, pid)) v =
      register-Unique a.killed
        (fork_of uuid_text source_id source snapshot_name name a before dataset net cid pid) m v.0
        v.1

  fork_network-Unique :
      (source_id : Uuid) (source : Workspace) (snapshot_name name : Str) (a : Answers)
      (m : WorkspaceManager) (dataset : Str)
      (p : IpAllocator × Result ManagerError WorkspaceNetworkSetup)
      → Unique [] m
      → Fresh a.id m
      → Unique [] (fork_network uuid_text source_id source snapshot_name name a m dataset p).0
  fork_network-Unique source_id source snapshot_name name a m dataset (alloc, err e) v fresh = v
  fork_network-Unique source_id source snapshot_name name a m dataset (alloc, ok net) v fresh =
      let m1 : WorkspaceManager = record m { ip_allocator = alloc } in
      fork_booted-Unique source_id source snapshot_name name a m dataset net
        (boot a net.guest_ip m1) (boot-Booted a net.guest_ip m1 v fresh)

  pub fork-Unique :
      (source_id : Uuid) (snapshot_name : Str) (new_name : Option Str) (a : Answers)
      (m : WorkspaceManager)
      → Unique [] m
      → Fresh a.id m
      → Unique [] (fork uuid_text source_id snapshot_name new_name a m).0
  unfolding fork fork_checked
  fork-Unique source_id snapshot_name new_name a m v fresh =
      elim (Option-cases (Dict.lookup source_id m.workspaces)) [
        | inl absent ↦ rw (absent, fork) v
        | inr (source, found) ↦ elim (Option-cases (get_by_name snapshot_name source.snapshots)) [
          | inl unknown ↦ rw (found, unknown, fork) v
          | inr (s, known) ↦
              let name = unwrap_or (codes "fork-" ++ short_id uuid_text a.id) new_name in
              elim (Result-cases (check_room name m)) [
                | inl (e, refused) ↦ rw (found, known, refused, fork) v
                | inr (u, passed) ↦ elim (Option-cases a.storage) [
                  | inl failed ↦ rw (found, known, passed, fork, fork_checked, failed) v
                  | inr (disk, cloned) ↦
                      rw (found, known, passed, fork, fork_checked, cloned)
                        (fork_network-Unique source_id source snapshot_name name a m disk.0
                          (setup_workspace a.tap a.rules m.ip_allocator) v fresh)
                ]
              ]
        ]
      ]
