-- ===== src/Workspace/Manager/Create.antt =====
-- `create`, the warm path `assign_warm_vm` and `replenish_pool` of agentiso/src/workspace/mod.rs.
-- What the layers below answer, the new UUID and the time are arguments.
use agentiso.Prelude.{
  ℕ, Bool, ◌&&◌, ◌||◌, Option, none, some, [], ◌++◌, Str, codes, str_eq, nat_eq, ◌==◌, take,
  if◌then◌else◌, Result, ok, err,
}
use agentiso.Prelude.Dict
use agentiso.Config.Sections.{Config}
use agentiso.Network.Ip.{Ipv4Addr, IpAllocator}
use agentiso.Workspace.Pool.{WarmVm, VmPool, enabled, claim, add_ready}
use agentiso.Workspace.Snapshots.{Uuid, SnapshotTree}
use agentiso.Workspace.Snapshots
use agentiso.Workspace.Manager.State.{
  Workspace, WorkspaceManager, running, WorkspaceNetwork, CreateParams, ManagerError,
  storage_failed, no_vsock, cids_exhausted,
}
use agentiso.Workspace.Manager.Host.{
  NetworkPolicy, WorkspaceNetworkSetup, setup_workspace, cleanup_workspace, rekey_vm,
}
use agentiso.Workspace.Manager.Boot.{
  Answers, Request, unwrap_or, boot, register, check_request, wants_vm,
}

-- The first eight characters of a UUID's text; the printing of UUIDs is a parameter.
module _ (uuid_text : Uuid → Str) where
  abbrev pub short_id : Uuid → Str
  short_id id = take 8 (uuid_text id)

  -- `run_dir.join(short_id).join("qmp.sock")`
  abbrev pub qmp_socket_of : Config → Uuid → Str
  qmp_socket_of config id = config.vm.run_dir ++ codes "/" ++ short_id id ++ codes "/qmp.sock"

  abbrev pub resolve : CreateParams → Uuid → Config → Request
  resolve params id config = record {
    name = unwrap_or (codes "ws-" ++ short_id id) params.name;
    base_image = unwrap_or config.storage.base_image params.base_image;
    vcpus = unwrap_or config.resources.default_vcpus params.vcpus;
    memory_mb = unwrap_or config.resources.default_memory_mb params.memory_mb;
    disk_gb = unwrap_or config.resources.default_disk_gb params.disk_gb;
    policy = record {
      allow_internet = unwrap_or config.network.default_allow_internet params.allow_internet;
      allow_inter_vm = config.network.default_allow_inter_vm;
      allowed_ports = [];
    };
  }

  abbrev pub network_of : NetworkPolicy → Ipv4Addr → WorkspaceNetwork
  network_of policy ip = record {
    ip = ip;
    allow_internet = policy.allow_internet;
    allow_inter_vm = policy.allow_inter_vm;
    allowed_ports = policy.allowed_ports;
    port_forwards = [];
  }

  -- The workspace of a cold start.
  abbrev pub workspace_of :
      Request → Answers → Config → Str → WorkspaceNetworkSetup → (cid pid : ℕ) → Workspace
  workspace_of r a config dataset net cid pid = record {
    id = a.id;
    name = r.name;
    state = running;
    base_image = r.base_image;
    zfs_dataset = dataset;
    qemu_pid = some pid;
    qmp_socket = qmp_socket_of config a.id;
    vsock_cid = cid;
    tap_device = net.tap_device;
    network = network_of r.policy net.guest_ip;
    snapshots = Snapshots.new;
    created_at = a.now;
    resources = record { vcpus = r.vcpus; memory_mb = r.memory_mb; disk_gb = r.disk_gb };
    forked_from = none;
    team_id = none;
  }

  -- Whether the guest agent is reached, and reached again if it did not take the configuration: each
  -- time a `?` ends the call.
  abbrev pub reaches_guest : Answers → Bool
  reaches_guest a = a.vsock && (a.configured || a.vsock_again)

  -- The rest of a cold start, with the VM booted.
  abbrev pub create_booted :
      Request
      → Answers
      → Config
      → Str
      → WorkspaceNetworkSetup
      → WorkspaceManager × Result ManagerError (ℕ × ℕ)
      → WorkspaceManager × Result ManagerError Workspace
  create_booted r a config dataset net (m, err e) = (m, err e)
  create_booted r a config dataset net (m, ok (cid, pid)) =
      if reaches_guest a
      then register a.killed (workspace_of r a config dataset net cid pid) m
      else (m, err no_vsock)

  -- Storage and network are set up side by side; each is given back if the other fails.
  abbrev pub create_network :
      Request
      → Answers
      → WorkspaceManager
      → Option (Str × Str)
      → IpAllocator × Result ManagerError WorkspaceNetworkSetup
      → WorkspaceManager × Result ManagerError Workspace
  create_network r a m none (alloc, ok net) =
      (record m { ip_allocator = cleanup_workspace net.guest_ip alloc }, err storage_failed)
  create_network r a m none (alloc, err e) = (record m { ip_allocator = alloc }, err storage_failed)
  create_network r a m (some disk) (alloc, err e) = (record m { ip_allocator = alloc }, err e)
  create_network r a m (some disk) (alloc, ok net) =
      create_booted r a m.config disk.0 net
        (boot a net.guest_ip (record m { ip_allocator = alloc }))

  unfoldable pub create_cold :
      Request → Answers → WorkspaceManager → WorkspaceManager × Result ManagerError Workspace
  unfolding boot register
  create_cold r a m = create_network r a m a.storage (setup_workspace a.tap a.rules m.ip_allocator)

  -- The workspace that a warm VM becomes: with the default resources.
  abbrev pub workspace_of_warm :
      Request → Answers → Config → WarmVm → WorkspaceNetworkSetup → Workspace
  workspace_of_warm r a config warm net = record {
    id = a.id;
    name = r.name;
    state = running;
    base_image = config.storage.base_image;
    zfs_dataset = warm.zfs_dataset;
    qemu_pid = some warm.qemu_pid;
    qmp_socket = qmp_socket_of config a.id;
    vsock_cid = warm.vsock_cid;
    tap_device = net.tap_device;
    network = network_of r.policy net.guest_ip;
    snapshots = Snapshots.new;
    created_at = a.now;
    resources = record {
      vcpus = config.resources.default_vcpus;
      memory_mb = config.resources.default_memory_mb;
      disk_gb = config.resources.default_disk_gb;
    };
    forked_from = none;
    team_id = none;
  }

  abbrev pub assign_network :
      WarmVm
      → Request
      → Answers
      → WorkspaceManager
      → IpAllocator × Result ManagerError WorkspaceNetworkSetup
      → WorkspaceManager × Result ManagerError Workspace
  assign_network warm r a m (alloc, err e) =
      (record m { ip_allocator = alloc; pool = add_ready warm m.pool }, err e)
  assign_network warm r a m (alloc, ok net) = (
    record m {
      ip_allocator = alloc;
      vms = rekey_vm warm.id a.id m.vms;
      workspaces = Dict.insert a.id (workspace_of_warm r a m.config warm net) m.workspaces;
    },
    ok (workspace_of_warm r a m.config warm net),
  )

  -- The VM's old network goes first; if the new one cannot be made the VM returns to the pool. A guest
  -- that does not take its configuration and a VM without a handle are only logged.
  unfoldable pub assign_warm_vm :
      WarmVm
      → Request
      → Answers
      → WorkspaceManager
      → WorkspaceManager × Result ManagerError Workspace
  assign_warm_vm warm r a m =
      assign_network warm r a m
        (setup_workspace a.tap a.rules (cleanup_workspace warm.guest_ip m.ip_allocator))

  abbrev pub create_claimed :
      Request
      → Answers
      → WorkspaceManager
      → VmPool × Option WarmVm
      → WorkspaceManager × Result ManagerError Workspace
  create_claimed r a m (pool, none) = create_cold r a m
  create_claimed r a m (pool, some warm) = assign_warm_vm warm r a (record m { pool = pool })

  -- The pool first, if it is on and holds VMs of the image.
  unfoldable pub create_checked :
      Request → Answers → WorkspaceManager → WorkspaceManager × Result ManagerError Workspace
  unfolding create_cold assign_warm_vm
  create_checked r a m =
      if enabled m.pool && r.base_image == m.config.storage.base_image
      then create_claimed r a m (claim m.pool)
      else create_cold r a m

  unfoldable pub create :
      CreateParams → Answers → WorkspaceManager → WorkspaceManager × Result ManagerError Workspace
  unfolding create_checked check_request
  create params a m =
      let r = resolve params a.id m.config in
      elim (check_request r m) [ err e ↦ (m, err e) | ok u ↦ create_checked r a m ]

  abbrev pub warm_vm_of :
      Answers → Config → (Str × Str) → WorkspaceNetworkSetup → (cid pid : ℕ) → WarmVm
  warm_vm_of a config disk net cid pid = record {
    id = a.id;
    vsock_cid = cid;
    zfs_dataset = disk.0;
    zvol_path = disk.1;
    qemu_pid = pid;
    booted_at = a.now;
    short_id = short_id a.id;
    tap_device = net.tap_device;
    guest_ip = net.guest_ip;
    memory_mb = config.resources.default_memory_mb;
  }

  -- A failed identifier gives the address back here.
  abbrev pub replenish_booted :
      Answers
      → (Str × Str)
      → WorkspaceNetworkSetup
      → WorkspaceManager × Result ManagerError (ℕ × ℕ)
      → WorkspaceManager × Result ManagerError (Unit {0})
  replenish_booted a disk net (m, ok (cid, pid)) =
      (record m { pool = add_ready (warm_vm_of a m.config disk net cid pid) m.pool }, ok tt)
  replenish_booted a disk net (m, err cids_exhausted) = (
    record m { ip_allocator = cleanup_workspace net.guest_ip m.ip_allocator },
    err cids_exhausted,
  )
  replenish_booted a disk net (m, err e) = (m, err e)

  abbrev pub replenish_network :
      Answers
      → (Str × Str)
      → WorkspaceManager
      → IpAllocator × Result ManagerError WorkspaceNetworkSetup
      → WorkspaceManager × Result ManagerError (Unit {0})
  replenish_network a disk m (alloc, err e) = (record m { ip_allocator = alloc }, err e)
  replenish_network a disk m (alloc, ok net) =
      replenish_booted a disk net (boot a net.guest_ip (record m { ip_allocator = alloc }))

  -- One VM for the pool.
  unfoldable pub replenish_pool :
      Answers → WorkspaceManager → WorkspaceManager × Result ManagerError (Unit {0})
  unfolding boot wants_vm
  replenish_pool a m = elim a.storage [
    | none ↦ (m, if wants_vm m then err storage_failed else ok tt)
    | some disk ↦
        if wants_vm m
        then replenish_network a disk m (setup_workspace a.tap a.rules m.ip_allocator)
        else (m, ok tt)
  ]
