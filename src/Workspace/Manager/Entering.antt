-- ===== src/Workspace/Manager/Entering.antt =====
-- What `create` (agentiso/src/workspace/mod.rs) does to the map of workspaces.
use agentiso.Prelude.{
  ℕ, ◌≡◌, false, ◌&&◌, Option, none, some, Str, nat_eq, str_eq, ◌==◌, leb, Bool-cases, Result-cases,
  inl, inr, Result, ok, err,
}
use agentiso.Prelude.Dict.{Dict}
use agentiso.Prelude.Dict
use agentiso.Network.Ip.{IpAllocator}
use agentiso.Workspace.Pool.{WarmVm, VmPool, claim, enabled}
use agentiso.Workspace.Snapshots.{Uuid}
use agentiso.Workspace.Manager.State.{
  WorkspaceManager, ManagerError, workspace_count, CreateParams, name_used,
}
use agentiso.Workspace.Manager.Host.{WorkspaceNetworkSetup, setup_workspace, cleanup_workspace}
use agentiso.Workspace.Manager.Boot.{Answers, Request, check_request, boot}
use agentiso.Workspace.Manager.Create.{
  resolve, create_booted, create_network, create_cold, assign_network, assign_warm_vm,
  create_claimed, create_checked, create, reaches_guest, workspace_of, workspace_of_warm,
}
use agentiso.Workspace.Manager.Calls.{creates}
use agentiso.Workspace.Manager.Moves.{is_created, same, entered, Changes}
use agentiso.Workspace.Manager.Keeping.{
  Keeps, boot-Keeps, Changes-after, booted-Changes, running_pid, new-room, check_room-ok,
  check_request-ok,
}

module _ (uuid_text : Uuid → Str) (params : CreateParams) where
  create_booted-Changes :
      (r : Request) (a : Answers) (dataset : Str) (net : WorkspaceNetworkSetup)
      (m : WorkspaceManager) (p : WorkspaceManager × Result ManagerError (ℕ × ℕ))
      → Keeps m p.0
      → Dict.lookup a.id m.workspaces ≡ none
      → name_used r.name m.workspaces ≡ false
      → Changes (creates params a) m (create_booted uuid_text r a m.config dataset net p).0
  create_booted-Changes r a dataset net m (n, err e) keeps fresh unnamed =
      Changes-after (creates params a) m n n keeps same
  create_booted-Changes r a dataset net m (n, ok (cid, pid)) keeps fresh unnamed =
      elim (Bool-cases (reaches_guest uuid_text a)) [
        | inl reached ↦ rw reached (
            booted-Changes (creates params a) a.killed
              (workspace_of uuid_text r a m.config dataset net cid pid) m n keeps fresh unnamed
              is_created running_pid (new-room m.config))
        | inr lost ↦ rw lost (Changes-after (creates params a) m n n keeps same)
      ]

  create_network-Changes :
      (r : Request) (a : Answers) (m : WorkspaceManager) (disk : Option (Str × Str))
      (p : IpAllocator × Result ManagerError WorkspaceNetworkSetup)
      → Dict.lookup a.id m.workspaces ≡ none
      → name_used r.name m.workspaces ≡ false
      → Changes (creates params a) m (create_network uuid_text r a m disk p).0
  create_network-Changes r a m none (alloc, ok net) fresh unnamed = same
  create_network-Changes r a m none (alloc, err e) fresh unnamed = same
  create_network-Changes r a m (some disk) (alloc, err e) fresh unnamed = same
  create_network-Changes r a m (some disk) (alloc, ok net) fresh unnamed =
      let m1 : WorkspaceManager = record m { ip_allocator = alloc } in
      create_booted-Changes r a disk.0 net m (boot a net.guest_ip m1) (boot-Keeps a net.guest_ip m1)
        fresh unnamed

  create_cold-Changes :
      (r : Request) (a : Answers) (m : WorkspaceManager)
      → Dict.lookup a.id m.workspaces ≡ none
      → name_used r.name m.workspaces ≡ false
      → Changes (creates params a) m (create_cold uuid_text r a m).0
  unfolding create_cold
  create_cold-Changes r a m fresh unnamed =
      create_network-Changes r a m a.storage (setup_workspace a.tap a.rules m.ip_allocator) fresh
        unnamed

  assign_network-Changes :
      (warm : WarmVm) (r : Request) (a : Answers) (m : WorkspaceManager)
      (p : IpAllocator × Result ManagerError WorkspaceNetworkSetup)
      → Dict.lookup a.id m.workspaces ≡ none
      → name_used r.name m.workspaces ≡ false
      → leb m.config.resources.max_workspaces (workspace_count m) ≡ false
      → Changes (creates params a) m (assign_network uuid_text warm r a m p).0
  assign_network-Changes warm r a m (alloc, err e) fresh unnamed below = same
  assign_network-Changes warm r a m (alloc, ok net) fresh unnamed below =
      entered (workspace_of_warm uuid_text r a m.config warm net) (record {
        fresh = fresh;
        unnamed = unnamed;
        below = below;
        moves = is_created;
        pid = running_pid;
        room = new-room m.config;
      })

  create_claimed-Changes :
      (r : Request) (a : Answers) (m : WorkspaceManager) (p : VmPool × Option WarmVm)
      → Dict.lookup a.id m.workspaces ≡ none
      → name_used r.name m.workspaces ≡ false
      → leb m.config.resources.max_workspaces (workspace_count m) ≡ false
      → Changes (creates params a) m (create_claimed uuid_text r a m p).0
  unfolding assign_warm_vm
  create_claimed-Changes r a m (pool, none) fresh unnamed below =
      create_cold-Changes r a m fresh unnamed
  create_claimed-Changes r a m (pool, some warm) fresh unnamed below =
      assign_network-Changes warm r a (record m { pool = pool })
        (setup_workspace a.tap a.rules (cleanup_workspace warm.guest_ip m.ip_allocator)) fresh
        unnamed below

  create_checked-Changes :
      (r : Request) (a : Answers) (m : WorkspaceManager)
      → Dict.lookup a.id m.workspaces ≡ none
      → name_used r.name m.workspaces ≡ false
      → leb m.config.resources.max_workspaces (workspace_count m) ≡ false
      → Changes (creates params a) m (create_checked uuid_text r a m).0
  unfolding create_checked
  create_checked-Changes r a m fresh unnamed below =
      elim (Bool-cases (enabled m.pool && r.base_image == m.config.storage.base_image)) [
        | inl warm ↦ rw warm (create_claimed-Changes r a m (claim m.pool) fresh unnamed below)
        | inr cold ↦ rw cold (create_cold-Changes r a m fresh unnamed)
      ]

  pub create-Changes :
      (a : Answers) (m : WorkspaceManager)
      → Dict.lookup a.id m.workspaces ≡ none
      → Changes (creates params a) m (create uuid_text params a m).0
  unfolding create
  create-Changes a m fresh =
      let r = resolve uuid_text params a.id m.config in
      elim (Result-cases (check_request r m)) [
        | inl (e, refused) ↦ rw (refused, create) same
        | inr (u, passed) ↦
            let room = check_room-ok r.name m u (check_request-ok r m u passed).1 in
            rw (passed, create) (create_checked-Changes r a m fresh room.1 room.0)
      ]
