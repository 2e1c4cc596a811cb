-- ===== src/Workspace/Manager/Fork.antt =====
-- `fork` of agentiso/src/workspace/mod.rs. What the layers below answer is an argument.
use agentiso.Prelude.{ℕ, Option, none, some, ◌++◌, Str, nat_eq, codes, Result, ok, err}
use agentiso.Prelude.Dict
use agentiso.Network.Ip.{IpAllocator}
use agentiso.Workspace.Snapshots.{Uuid, get_by_name}
use agentiso.Workspace.Snapshots
use agentiso.Workspace.Manager.State.{
  Workspace, WorkspaceManager, running, ManagerError, not_found, no_snapshot, storage_failed,
}
use agentiso.Workspace.Manager.Host.{NetworkPolicy, WorkspaceNetworkSetup, setup_workspace}
use agentiso.Workspace.Manager.Boot.{Answers, unwrap_or, boot, register, check_room}
use agentiso.Workspace.Manager.Create.{short_id, qmp_socket_of, network_of}

-- The fork keeps the policy of its source.
abbrev pub policy_of : Workspace → NetworkPolicy
policy_of w = record {
  allow_internet = w.network.allow_internet;
  allow_inter_vm = w.network.allow_inter_vm;
  allowed_ports = w.network.allowed_ports;
}

module _ (uuid_text : Uuid → Str) where
  abbrev pub fork_of :
      Uuid
      → Workspace
      → (snapshot_name name : Str) → Answers
      → WorkspaceManager
      → Str
      → WorkspaceNetworkSetup
      → (cid pid : ℕ) → Workspace
  fork_of source_id source snapshot_name name a m dataset net cid pid = record {
    id = a.id;
    name = name;
    state = running;
    base_image = source.base_image;
    zfs_dataset = dataset;
    qemu_pid = some pid;
    qmp_socket = qmp_socket_of uuid_text m.config a.id;
    vsock_cid = cid;
    tap_device = net.tap_device;
    network = network_of uuid_text (policy_of source) net.guest_ip;
    snapshots = Snapshots.new;
    created_at = a.now;
    resources = source.resources;
    forked_from = some (record {
      source_workspace_id = source_id;
      source_workspace_name = source.name;
      snapshot_name = snapshot_name;
      forked_at = a.now;
    });
    team_id = none;
  }

  abbrev pub fork_booted :
      Uuid
      → Workspace
      → (snapshot_name name : Str) → Answers
      → WorkspaceManager
      → Str
      → WorkspaceNetworkSetup
      → WorkspaceManager × Result ManagerError (ℕ × ℕ)
      → WorkspaceManager × Result ManagerError Workspace
  fork_booted source_id source snapshot_name name a before dataset net (m, err e) = (m, err e)
  fork_booted source_id source snapshot_name name a before dataset net (m, ok (cid, pid)) =
      register a.killed (fork_of source_id source snapshot_name name a before dataset net cid pid) m

  abbrev pub fork_network :
      Uuid
      → Workspace
      → (snapshot_name name : Str) → Answers
      → WorkspaceManager
      → Str
      → IpAllocator × Result ManagerError WorkspaceNetworkSetup
      → WorkspaceManager × Result ManagerError Workspace
  fork_network source_id source snapshot_name name a m dataset (alloc, err e) =
      (record m { ip_allocator = alloc }, err e)
  fork_network source_id source snapshot_name name a m dataset (alloc, ok net) =
      fork_booted source_id source snapshot_name name a m dataset net
        (boot a net.guest_ip (record m { ip_allocator = alloc }))

  -- The clone, the network, the VM and the registration. A guest that does not take its
  -- configuration is only logged.
  unfoldable pub fork_checked :
      Uuid
      → Workspace
      → (snapshot_name name : Str) → Answers
      → WorkspaceManager
      → WorkspaceManager × Result ManagerError Workspace
  unfolding boot register
  fork_checked source_id source snapshot_name name a m = elim a.storage [
    | none ↦ (m, err storage_failed)
    | some disk ↦
        fork_network source_id source snapshot_name name a m disk.0
          (setup_workspace a.tap a.rules m.ip_allocator)
  ]

  unfoldable pub fork :
      (source_id : Uuid)
      → (snapshot_name : Str) → (new_name : Option Str) → Answers
      → WorkspaceManager
      → WorkspaceManager × Result ManagerError Workspace
  unfolding fork_checked check_room
  fork source_id snapshot_name new_name a m = elim (Dict.lookup source_id m.workspaces) [
    | none ↦ (m, err (not_found source_id))
    | some source ↦ elim (get_by_name snapshot_name source.snapshots) [
      | none ↦ (m, err (no_snapshot snapshot_name))
      | some s ↦
          let name = unwrap_or (codes "fork-" ++ short_id uuid_text a.id) new_name in
          elim (check_room name m) [
            | err e ↦ (m, err e)
            | ok u ↦ fork_checked source_id source snapshot_name name a m
          ]
    ]
  ]
