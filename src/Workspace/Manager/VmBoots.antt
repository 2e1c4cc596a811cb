-- ===== src/Workspace/Manager/VmBoots.antt =====
-- Creating and forking workspaces and filling the pool (agentiso/src/workspace/mod.rs) leave no
-- stopped workspace with a VM.
use agentiso.Prelude.{
  ℕ, ◌≡◌, ◌≢◌, Bool, ◌&&◌, ◌++◌, Option, none, some, List, Str, codes, nat_eq, str_eq, ◌==◌, leb,
  Bool-cases, Option-cases, Result-cases, inl, inr, Result, ok, err, arith,
}
use agentiso.Prelude.Dict.{Dict}
use agentiso.Prelude.Dict
use agentiso.Config.Sections.{Config}
use agentiso.Network.Ip.{Ipv4Addr, IpAllocator}
use agentiso.Workspace.Pool.{WarmVm, VmPool, enabled, claim}
use agentiso.Workspace.Snapshots.{Uuid, get_by_name}
use agentiso.Workspace.Manager.State.{
  Workspace, WorkspaceManager, ManagerError, stopped, CreateParams, alloc_vsock_cid,
  workspace_count,
}
use agentiso.Workspace.Manager.Host.{
  WorkspaceNetworkSetup, setup_workspace, cleanup_workspace, launch, rekey_vm,
}
use agentiso.Workspace.Manager.Boot.{
  Answers, Request, unwrap_or, boot, boot_cid, boot_launched, register, check_request, check_room,
  wants_vm,
}
use agentiso.Workspace.Manager.Create.{
  short_id, resolve, workspace_of, reaches_guest, create_booted, create_network, create_cold,
  workspace_of_warm, assign_network, assign_warm_vm, create_claimed, create_checked, create,
  replenish_booted, replenish_network, replenish_pool,
}
use agentiso.Workspace.Manager.Fork.{fork_of, fork_booted, fork_network, fork_checked, fork}
use agentiso.Workspace.Manager.CidInvariant.{Fresh}
use agentiso.Workspace.Manager.Keeping.{recycle-Keeps}
use agentiso.Workspace.Manager.Vms.{
  Halted, Others, insert-Halts, orphan-Halts, launch-Others, rekey-Others, force_kill-fewer,
  recycle-vms,
}

boot_launched-Halted :
    (id : Uuid) (cid : ℕ) (ip : Ipv4Addr) (m : WorkspaceManager) (p : List Uuid × Option ℕ)
    → Others id m.vms p.0
    → Fresh id m
    → Halted m
    → Halted (boot_launched cid ip m p).0
boot_launched-Halted id cid ip m (vms, some pid) others fresh h =
    orphan-Halts id m.workspaces m.vms vms others h fresh
boot_launched-Halted id cid ip m (vms, none) others fresh h =
    rw ((recycle-Keeps cid m).1, recycle-vms cid m) h

boot_cid-Halted :
    (a : Answers) (ip : Ipv4Addr) (p : WorkspaceManager × Result ManagerError ℕ)
    → Fresh a.id p.0
    → Halted p.0
    → Halted (boot_cid a ip p).0
boot_cid-Halted a ip (m, err e) fresh h = h
boot_cid-Halted a ip (m, ok cid) fresh h =
    boot_launched-Halted a.id cid ip m (launch a.id a.pid m.vms) (launch-Others a.id a.pid m.vms)
      fresh h

boot-Halted :
    (a : Answers) (ip : Ipv4Addr) (m : WorkspaceManager)
    → Fresh a.id m
    → Halted m
    → Halted (boot a ip m).0
unfolding boot alloc_vsock_cid
boot-Halted a ip m fresh h = boot_cid-Halted a ip (alloc_vsock_cid m) fresh h

register-Halted :
    (killed : Bool) (w : Workspace) (m : WorkspaceManager)
    → w.state ≢ stopped
    → Halted m
    → Halted (register killed w m).0
unfolding register
register-Halted killed w m up h =
    elim (Bool-cases (leb m.config.resources.max_workspaces (workspace_count m))) [
      | inl full ↦
          rw (full, (recycle-Keeps w.vsock_cid m).1)
            (λ i x found is. ground (arith, h i x found is, force_kill-fewer killed w.id m.vms i))
      | inr room ↦
          rw room (insert-Halts w.id m.workspaces m.vms m.vms (λ i other here. here) h w up)
    ]

module _ (uuid_text : Uuid → Str) where
  create_booted-Halted :
      (r : Request) (a : Answers) (config : Config) (dataset : Str) (net : WorkspaceNetworkSetup)
      (p : WorkspaceManager × Result ManagerError (ℕ × ℕ))
      → Halted p.0
      → Halted (create_booted uuid_text r a config dataset net p).0
  create_booted-Halted r a config dataset net (m, err e) h = h
  create_booted-Halted r a config dataset net (m, ok (cid, pid)) h =
      elim (Bool-cases (reaches_guest uuid_text a)) [
        | inl reached ↦ rw reached (
            register-Halted a.killed (workspace_of uuid_text r a config dataset net cid pid) m
              (ground arith) h)
        | inr lost ↦ rw lost h
      ]

  create_network-Halted :
      (r : Request) (a : Answers) (m : WorkspaceManager) (disk : Option (Str × Str))
      (p : IpAllocator × Result ManagerError WorkspaceNetworkSetup)
      → Fresh a.id m
      → Halted m
      → Halted (create_network uuid_text r a m disk p).0
  create_network-Halted r a m none (alloc, ok net) fresh h = h
  create_network-Halted r a m none (alloc, err e) fresh h = h
  create_network-Halted r a m (some disk) (alloc, err e) fresh h = h
  create_network-Halted r a m (some disk) (alloc, ok net) fresh h =
      create_booted-Halted r a m.config disk.0 net
        (boot a net.guest_ip (record m { ip_allocator = alloc }))
        (boot-Halted a net.guest_ip (record m { ip_allocator = alloc }) fresh h)

  create_cold-Halted :
      (r : Request) (a : Answers) (m : WorkspaceManager)
      → Fresh a.id m
      → Halted m
      → Halted (create_cold uuid_text r a m).0
  unfolding create_cold
  create_cold-Halted r a m fresh h =
      create_network-Halted r a m a.storage (setup_workspace a.tap a.rules m.ip_allocator) fresh h

  assign_network-Halted :
      (warm : WarmVm) (r : Request) (a : Answers) (m : WorkspaceManager)
      (p : IpAllocator × Result ManagerError WorkspaceNetworkSetup)
      → Halted m
      → Halted (assign_network uuid_text warm r a m p).0
  assign_network-Halted warm r a m (alloc, err e) h = h
  assign_network-Halted warm r a m (alloc, ok net) h =
      insert-Halts a.id m.workspaces m.vms (rekey_vm warm.id a.id m.vms)
        (rekey-Others warm.id a.id m.vms) h (workspace_of_warm uuid_text r a m.config warm net)
        (ground arith)

  create_claimed-Halted :
      (r : Request) (a : Answers) (m : WorkspaceManager) (p : VmPool × Option WarmVm)
      → Fresh a.id m
      → Halted m
      → Halted (create_claimed uuid_text r a m p).0
  unfolding assign_warm_vm
  create_claimed-Halted r a m (pool, none) fresh h = create_cold-Halted r a m fresh h
  create_claimed-Halted r a m (pool, some warm) fresh h =
      assign_network-Halted warm r a (record m { pool = pool })
        (setup_workspace a.tap a.rules (cleanup_workspace warm.guest_ip m.ip_allocator)) h

  create_checked-Halted :
      (r : Request) (a : Answers) (m : WorkspaceManager)
      → Fresh a.id m
      → Halted m
      → Halted (create_checked uuid_text r a m).0
  unfolding create_checked
  create_checked-Halted r a m fresh h =
      elim (Bool-cases (enabled m.pool && r.base_image == m.config.storage.base_image)) [
        | inl warm ↦ rw warm (create_claimed-Halted r a m (claim m.pool) fresh h)
        | inr cold ↦ rw cold (create_cold-Halted r a m fresh h)
      ]

  pub create-Halted :
      (params : CreateParams) (a : Answers) (m : WorkspaceManager)
      → Fresh a.id m
      → Halted m
      → Halted (create uuid_text params a m).0
  unfolding create
  create-Halted params a m fresh h =
      let r = resolve uuid_text params a.id m.config in
      elim (Result-cases (check_request r m)) [
        | inl (e, refused) ↦ rw (refused, create) h
        | inr (u, passed) ↦ rw (passed, create) (create_checked-Halted r a m fresh h)
      ]

  replenish_booted-Halted :
      (a : Answers) (disk : Str × Str) (net : WorkspaceNetworkSetup)
      (p : WorkspaceManager × Result ManagerError (ℕ × ℕ))
      → Halted p.0
      → Halted (replenish_booted uuid_text a disk net p).0
  replenish_booted-Halted a disk net (m, ok (cid, pid)) h = h
  replenish_booted-Halted a disk net (m, err e) h =
      let left : WorkspaceManager = (replenish_booted uuid_text a disk net (m, err e)).0 in
      let ws : left.workspaces ≡ m.workspaces = ground arith in
      let vms : left.vms ≡ m.vms = ground arith in rw (ws, vms) h

  replenish_network-Halted :
      (a : Answers) (disk : Str × Str) (m : WorkspaceManager)
      (p : IpAllocator × Result ManagerError WorkspaceNetworkSetup)
      → Fresh a.id m
      → Halted m
      → Halted (replenish_network uuid_text a disk m p).0
  replenish_network-Halted a disk m (alloc, err e) fresh h = h
  replenish_network-Halted a disk m (alloc, ok net) fresh h =
      let m1 : WorkspaceManager = record m { ip_allocator = alloc } in
      replenish_booted-Halted a disk net (boot a net.guest_ip m1)
        (boot-Halted a net.guest_ip m1 fresh h)

  pub replenish_pool-Halted :
      (a : Answers) (m : WorkspaceManager)
      → Fresh a.id m
      → Halted m
      → Halted (replenish_pool uuid_text a m).0
  unfolding replenish_pool
  replenish_pool-Halted a m fresh h = elim (Option-cases a.storage) [
    | inl failed ↦ rw failed h
    | inr (disk, cloned) ↦ elim (Bool-cases (wants_vm m)) [
      | inl wanted ↦
          rw (cloned, wanted)
            (replenish_network-Halted a disk m (setup_workspace a.tap a.rules m.ip_allocator) fresh
              h)
      | inr full ↦ rw (cloned, full) h
    ]
  ]

  fork_booted-Halted :
      (source_id : Uuid) (source : Workspace) (snapshot_name name : Str) (a : Answers)
      (before : WorkspaceManager) (dataset : Str) (net : WorkspaceNetworkSetup)
      (p : WorkspaceManager × Result ManagerError (ℕ × ℕ))
      → Halted p.0
      → Halted (fork_booted uuid_text source_id source snapshot_name name a before dataset net p).0
  fork_booted-Halted source_id source snapshot_name name a before dataset net (m, err e) h = h
  fork_booted-Halted source_id source snapshot_name name a before dataset net (m, ok (cid, pid)) h =
      register-Halted a.killed
        (fork_of uuid_text source_id source snapshot_name name a before dataset net cid pid) m
        (ground arith) h

  fork_network-Halted :
      (source_id : Uuid) (source : Workspace) (snapshot_name name : Str) (a : Answers)
      (m : WorkspaceManager) (dataset : Str)
      (p : IpAllocator × Result ManagerError WorkspaceNetworkSetup)
      → Fresh a.id m
      → Halted m
      → Halted (fork_network uuid_text source_id source snapshot_name name a m dataset p).0
  fork_network-Halted source_id source snapshot_name name a m dataset (alloc, err e) fresh h = h
  fork_network-Halted source_id source snapshot_name name a m dataset (alloc, ok net) fresh h =
      let m1 : WorkspaceManager = record m { ip_allocator = alloc } in
      fork_booted-Halted source_id source snapshot_name name a m dataset net
        (boot a net.guest_ip m1) (boot-Halted a net.guest_ip m1 fresh h)

  pub fork-Halted :
      (source_id : Uuid) (snapshot_name : Str) (new_name : Option Str) (a : Answers)
      (m : WorkspaceManager)
      → Fresh a.id m
      → Halted m
      → Halted (fork uuid_text source_id snapshot_name new_name a m).0
  unfolding fork fork_checked
  fork-Halted source_id snapshot_name new_name a m fresh h =
      elim (Option-cases (Dict.lookup source_id m.workspaces)) [
        | inl absent ↦ rw (absent, fork) h
        | inr (source, found) ↦ elim (Option-cases (get_by_name snapshot_name source.snapshots)) [
          | inl unknown ↦ rw (found, unknown, fork) h
          | inr (s, known) ↦
              let name = unwrap_or (codes "fork-" ++ short_id uuid_text a.id) new_name in
              elim (Result-cases (check_room name m)) [
                | inl (e, refused) ↦ rw (found, known, refused, fork) h
                | inr (u, passed) ↦ elim (Option-cases a.storage) [
                  | inl failed ↦ rw (found, known, passed, fork, fork_checked, failed) h
                  | inr (disk, cloned) ↦
                      rw (found, known, passed, fork, fork_checked, cloned)
                        (fork_network-Halted source_id source snapshot_name name a m disk.0
                          (setup_workspace a.tap a.rules m.ip_allocator) fresh h)
                ]
              ]
        ]
      ]
