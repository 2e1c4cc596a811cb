-- ===== src/Workspace/Manager/Forking.antt =====
-- What `fork` and `replenish_pool` (agentiso/src/workspace/mod.rs) do to the map of workspaces.
use agentiso.Prelude.{
  ℕ, ◌≡◌, refl, ◌∙◌, false, Option, none, some, ◌++◌, Str, codes, nat_eq, str_eq, Bool-cases,
  Option-cases, Result-cases, inl, inr, Result, ok, err, arith,
}
use agentiso.Prelude.Dict.{Dict}
use agentiso.Prelude.Dict
use agentiso.Network.Ip.{IpAllocator}
use agentiso.Workspace.Snapshots.{Uuid, get_by_name}
use agentiso.Workspace.Manager.State.{Workspace, running, WorkspaceManager, ManagerError, name_used}
use agentiso.Workspace.Manager.Host.{WorkspaceNetworkSetup, setup_workspace}
use agentiso.Workspace.Manager.Boot.{Answers, unwrap_or, check_room, boot, wants_vm}
use agentiso.Workspace.Manager.Create.{
  short_id, replenish_booted, replenish_network, replenish_pool,
}
use agentiso.Workspace.Manager.Fork.{fork_of, fork_booted, fork_network, fork_checked, fork}
use agentiso.Workspace.Manager.Calls.{Call, forks}
use agentiso.Workspace.Manager.Moves.{Moves, is_forked, same, Changes}
use agentiso.Workspace.Manager.Keeping.{
  Keeps, boot-Keeps, Changes-after, booted-Changes, running_pid, new-room, check_room-ok,
}

module _ (uuid_text : Uuid → Str) (c : Call) (source_id : Uuid) (snapshot_name : Str) where
  pub fork_booted-Changes :
      (source : Workspace) (name : Str) (a : Answers) (dataset : Str) (net : WorkspaceNetworkSetup)
      (m : WorkspaceManager) (p : WorkspaceManager × Result ManagerError (ℕ × ℕ))
      → Keeps m p.0
      → Dict.lookup a.id m.workspaces ≡ none
      → name_used name m.workspaces ≡ false
      → Moves c a.id none (some running)
      → Changes c m (fork_booted uuid_text source_id source snapshot_name name a m dataset net p).0
  fork_booted-Changes source name a dataset net m (n, err e) keeps fresh unnamed moves =
      Changes-after c m n n keeps same
  fork_booted-Changes source name a dataset net m (n, ok (cid, pid)) keeps fresh unnamed moves =
      booted-Changes c a.killed
        (fork_of uuid_text source_id source snapshot_name name a m dataset net cid pid) m n keeps
        fresh unnamed moves running_pid (new-room m.config)

  pub fork_network-Changes :
      (source : Workspace) (name : Str) (a : Answers) (m : WorkspaceManager) (dataset : Str)
      (p : IpAllocator × Result ManagerError WorkspaceNetworkSetup)
      → Dict.lookup a.id m.workspaces ≡ none
      → name_used name m.workspaces ≡ false
      → Moves c a.id none (some running)
      → Changes c m (fork_network uuid_text source_id source snapshot_name name a m dataset p).0
  fork_network-Changes source name a m dataset (alloc, err e) fresh unnamed moves = same
  fork_network-Changes source name a m dataset (alloc, ok net) fresh unnamed moves =
      let m1 : WorkspaceManager = record m { ip_allocator = alloc } in
      fork_booted-Changes source name a dataset net m (boot a net.guest_ip m1)
        (boot-Keeps a net.guest_ip m1) fresh unnamed moves

  pub fork_checked-Changes :
      (source : Workspace) (name : Str) (a : Answers) (m : WorkspaceManager)
      → Dict.lookup a.id m.workspaces ≡ none
      → name_used name m.workspaces ≡ false
      → Moves c a.id none (some running)
      → Changes c m (fork_checked uuid_text source_id source snapshot_name name a m).0
  unfolding fork_checked
  fork_checked-Changes source name a m fresh unnamed moves = elim (Option-cases a.storage) [
    | inl failed ↦ rw failed same
    | inr (disk, cloned) ↦ rw cloned (
        fork_network-Changes source name a m disk.0 (setup_workspace a.tap a.rules m.ip_allocator)
          fresh unnamed moves)
  ]

module _ (uuid_text : Uuid → Str) where
  pub fork-Changes :
      (source_id : Uuid) (snapshot_name : Str) (new_name : Option Str) (a : Answers)
      (m : WorkspaceManager)
      → Dict.lookup a.id m.workspaces ≡ none
      → Changes
          (forks source_id snapshot_name new_name a)
          m
          (fork uuid_text source_id snapshot_name new_name a m).0
  unfolding fork
  fork-Changes source_id snapshot_name new_name a m fresh =
      elim (Option-cases (Dict.lookup source_id m.workspaces)) [
        | inl absent ↦ rw (absent, fork) same
        | inr (source, found) ↦ elim (Option-cases (get_by_name snapshot_name source.snapshots)) [
          | inl unknown ↦ rw (found, unknown, fork) same
          | inr (s, known) ↦
              let name = unwrap_or (codes "fork-" ++ short_id uuid_text a.id) new_name in
              elim (Result-cases (check_room name m)) [
                | inl (e, refused) ↦ rw (found, known, refused, fork) same
                | inr (u, passed) ↦
                    rw (found, known, passed, fork)
                      (fork_checked-Changes uuid_text (forks source_id snapshot_name new_name a)
                        source_id snapshot_name source name a m fresh
                        (check_room-ok name m u passed).1 is_forked)
              ]
        ]
      ]

  pub replenish_booted-Keeps :
      (a : Answers) (disk : Str × Str) (net : WorkspaceNetworkSetup)
      (p : WorkspaceManager × Result ManagerError (ℕ × ℕ))
      → Keeps p.0 (replenish_booted uuid_text a disk net p).0
  replenish_booted-Keeps a disk net (m, ok (cid, pid)) = (refl, refl)
  replenish_booted-Keeps a disk net (m, err e) = ground arith

  pub replenish_network-Changes :
      (c : Call) (a : Answers) (disk : Str × Str) (m : WorkspaceManager)
      (p : IpAllocator × Result ManagerError WorkspaceNetworkSetup)
      → Changes c m (replenish_network uuid_text a disk m p).0
  replenish_network-Changes c a disk m (alloc, err e) = same
  replenish_network-Changes c a disk m (alloc, ok net) =
      let p = boot a net.guest_ip (record m { ip_allocator = alloc }) in
      let n = (replenish_booted uuid_text a disk net p).0 in
      let (config_kept, kept) = boot-Keeps a net.guest_ip (record m { ip_allocator = alloc }) in
      let (config_same, all_same) = replenish_booted-Keeps a disk net p in
      Changes-after c m n n (config_same ∙ config_kept, all_same ∙ kept) same

  pub replenish_pool-Changes :
      (c : Call) (a : Answers) (m : WorkspaceManager) → Changes c m (replenish_pool uuid_text a m).0
  unfolding replenish_pool
  replenish_pool-Changes c a m = elim (Option-cases a.storage) [
    | inl failed ↦ rw failed same
    | inr (disk, cloned) ↦ elim (Bool-cases (wants_vm m)) [
      | inl wanted ↦
          rw (cloned, wanted)
            (replenish_network-Changes c a disk m (setup_workspace a.tap a.rules m.ip_allocator))
      | inr full ↦ rw (cloned, full) same
    ]
  ]
