-- ===== src/Workspace/Manager/Boot.antt =====
-- The checks of a request, the boot of a VM and the registration of a workspace, which `create`,
-- `fork` and `replenish_pool` of agentiso/src/workspace/mod.rs share.
use agentiso.Prelude.{
  ℕ, ◌+◌, Bool, not, ◌&&◌, Option, none, some, List, Str, str_eq, nat_eq, ◌==◌, leb, ltb,
  if◌then◌else◌, Result, ok, err, fail_if, ◌>>◌,
}
use agentiso.Prelude.Word.{u64}
use agentiso.Prelude.Dict
use agentiso.Prelude.Set
use agentiso.Network.Ip.{Ipv4Addr}
use agentiso.Workspace.Pool.{enabled, deficit, total_memory_mb, max_memory_mb}
use agentiso.Workspace.Snapshots.{Uuid}
use agentiso.Workspace.Manager.State.{
  Workspace, WorkspaceManager, ManagerError, invalid_name, name_in_use, too_many_vcpus,
  too_much_memory, too_much_disk, quota_exceeded, launch_failed, is_valid_workspace_name,
  alloc_vsock_cid, recycle_vsock_cid, name_used, workspace_count,
}
use agentiso.Workspace.Manager.Host.{NetworkPolicy, cleanup_workspace, launch, force_kill}

-- The answers to one call: the clone of the dataset with its device, the TAP device, whether the
-- firewall took the rules, the process of the VM, whether the guest agent could be reached, took the
-- configuration, and could be reached a second time, and whether a VM that has to go could be killed.
pub record Answers : Type 0 where
  pub id : Uuid
  pub storage : Option (Str × Str)
  pub tap : Option Str
  pub rules : Bool
  pub pid : Option ℕ
  pub vsock : Bool
  pub configured : Bool
  pub vsock_again : Bool
  pub killed : Bool
  pub now : ℕ

-- The parameters with the defaults filled in.
pub record Request : Type 0 where
  pub name : Str
  pub base_image : Str
  pub vcpus : ℕ
  pub memory_mb : ℕ
  pub disk_gb : ℕ
  pub policy : NetworkPolicy

abbrev pub unwrap_or {ℓ} : {A : Type ℓ} → A → Option A → A
unwrap_or d none = d
unwrap_or d (some a) = a

-- After the launch: what was made for the VM is given back if it failed.
abbrev pub boot_launched :
    (cid : ℕ)
    → Ipv4Addr
    → WorkspaceManager
    → List Uuid × Option ℕ
    → WorkspaceManager × Result ManagerError (ℕ × ℕ)
boot_launched cid ip m (vms, some pid) = (record m { vms = vms }, ok (cid, pid))
boot_launched cid ip m (vms, none) = (
  record (recycle_vsock_cid cid m) { ip_allocator = cleanup_workspace ip m.ip_allocator },
  err launch_failed,
)

abbrev pub boot_cid :
    Answers
    → Ipv4Addr
    → WorkspaceManager × Result ManagerError ℕ
    → WorkspaceManager × Result ManagerError (ℕ × ℕ)
boot_cid a ip (m, err e) = (m, err e)
boot_cid a ip (m, ok cid) = boot_launched cid ip m (launch a.id a.pid m.vms)

-- A VM gets a vsock identifier and is launched.
unfoldable pub boot :
    Answers → Ipv4Addr → WorkspaceManager → WorkspaceManager × Result ManagerError (ℕ × ℕ)
boot a ip m = boot_cid a ip (alloc_vsock_cid m)

-- The check under the write lock, and the rollback if it fails.
unfoldable pub register :
    (killed : Bool)
    → Workspace
    → WorkspaceManager
    → WorkspaceManager × Result ManagerError Workspace
register killed w m =
    if leb m.config.resources.max_workspaces (workspace_count m)
    then (
      record (recycle_vsock_cid w.vsock_cid m) {
        vms = if Set.contains w.id m.vms then force_kill killed w.id m.vms else m.vms;
        ip_allocator = cleanup_workspace w.network.ip m.ip_allocator;
      },
      err (quota_exceeded (workspace_count m) m.config.resources.max_workspaces),
    )
    else (record m { workspaces = Dict.insert w.id w m.workspaces }, ok w)

-- The early check of the number of workspaces and of the name.
unfoldable pub check_room : Str → WorkspaceManager → Result ManagerError (Unit {0})
check_room name m = do
  fail_if (leb m.config.resources.max_workspaces (workspace_count m))
      (quota_exceeded (workspace_count m) m.config.resources.max_workspaces)
  fail_if (name_used name m.workspaces) (name_in_use name)

unfoldable pub check_request : Request → WorkspaceManager → Result ManagerError (Unit {0})
unfolding check_room
check_request r m = do
  fail_if (not (is_valid_workspace_name r.name)) (invalid_name r.name)
  fail_if (ltb m.config.resources.max_vcpus r.vcpus)
      (too_many_vcpus r.vcpus m.config.resources.max_vcpus)
  fail_if (ltb m.config.resources.max_memory_mb r.memory_mb)
      (too_much_memory r.memory_mb m.config.resources.max_memory_mb)
  fail_if (ltb m.config.resources.max_disk_gb r.disk_gb)
      (too_much_disk r.disk_gb m.config.resources.max_disk_gb)
  check_room r.name m

-- Whether the pool wants a VM and has the memory for it.
unfoldable pub wants_vm : WorkspaceManager → Bool
wants_vm m =
    enabled m.pool
    && not (deficit m.pool == 0)
    && leb (u64 (total_memory_mb m.pool + m.config.resources.default_memory_mb))
        (max_memory_mb m.pool)
