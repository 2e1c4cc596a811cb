-- ===== src/Workspace/Manager/State.antt =====
-- The state of the workspace manager (agentiso/src/workspace/mod.rs) and the helpers that its
-- operations share.
use agentiso.Prelude.{
  ℕ, zero, suc, ◌+◌, ◌-◌, ◌^◌, Bool, true, false, ◌&&◌, ◌||◌, Option, none, some, List, [], ◌∷◌,
  Str, codes, str_eq, nat_eq, ◌==◌, leb, length, all, if◌then◌else◌, Result, ok, err,
}
use agentiso.Prelude.Word.{u32}
use agentiso.Prelude.Dict.{Dict}
use agentiso.Prelude.Dict
use agentiso.Config.Sections.{Config}
use agentiso.Network.Ip.{Ipv4Addr, IpAllocator}
use agentiso.Workspace.Pool.{VmPool}
use agentiso.Workspace.Snapshots.{Uuid, SnapshotTree}

pub data WorkspaceState : Type 0 where
  stopped running suspended : WorkspaceState

unfoldable pub same_state : WorkspaceState → WorkspaceState → Bool
same_state stopped stopped = true
same_state stopped running = false
same_state stopped suspended = false
same_state running stopped = false
same_state running running = true
same_state running suspended = false
same_state suspended stopped = false
same_state suspended running = false
same_state suspended suspended = true

unfoldable pub display : WorkspaceState → Str
display stopped = codes "stopped"
display running = codes "running"
display suspended = codes "suspended"

pub data TeamLifecycleState : Type 0 where
  creating ready working completing destroyed : TeamLifecycleState

pub record TeamState : Type 0 where
  pub name : Str
  pub state : TeamLifecycleState
  pub member_workspace_ids : List Uuid
  pub created_at : ℕ
  pub parent_team : Option Str
  pub max_vms : ℕ  -- u32
  pub nesting_depth : ℕ  -- u32

-- All numbers are u32.
pub record ResourceLimits : Type 0 where
  pub vcpus : ℕ
  pub memory_mb : ℕ
  pub disk_gb : ℕ

-- Ports are u16.
pub record PortForward : Type 0 where
  pub host_port : ℕ
  pub guest_port : ℕ

pub record WorkspaceNetwork : Type 0 where
  pub ip : Ipv4Addr
  pub allow_internet : Bool
  pub allow_inter_vm : Bool
  pub allowed_ports : List ℕ
  pub port_forwards : List PortForward

pub record ForkLineage : Type 0 where
  pub source_workspace_id : Uuid
  pub source_workspace_name : Str
  pub snapshot_name : Str
  pub forked_at : ℕ

pub record Workspace : Type 0 where
  pub id : Uuid
  pub name : Str
  pub state : WorkspaceState
  pub base_image : Str
  pub zfs_dataset : Str
  pub qemu_pid : Option ℕ
  pub qmp_socket : Str
  pub vsock_cid : ℕ  -- u32
  pub tap_device : Str
  pub network : WorkspaceNetwork
  pub snapshots : SnapshotTree
  pub created_at : ℕ
  pub resources : ResourceLimits
  pub forked_from : Option ForkLineage
  pub team_id : Option Str

pub record CreateParams : Type 0 where
  pub name : Option Str
  pub base_image : Option Str
  pub vcpus : Option ℕ
  pub memory_mb : Option ℕ
  pub disk_gb : Option ℕ
  pub allow_internet : Option Bool

pub data ManagerError : Type 0 where
  invalid_name name_in_use : Str → ManagerError
  too_many_vcpus too_much_memory too_much_disk quota_exceeded : (requested limit : ℕ) → ManagerError
  not_found : Uuid → ManagerError
  not_running not_stopped not_suspended already_running : Uuid → ManagerError
  storage_failed network_failed launch_failed no_vsock cids_exhausted : ManagerError
  no_vm pause_failed resume_failed memory_state_failed : ManagerError
  no_snapshot has_child_snapshots : Str → ManagerError
  too_many_snapshots : (count limit : ℕ) → ManagerError
  never_ends : ManagerError

-- The maps behind the locks. `vms` has the keys of the VM manager's map, and `free_vsock_cids` the
-- freed identifiers, the last one first.
pub record WorkspaceManager : Type 0 where
  pub config : Config
  pub workspaces : Dict Uuid Workspace
  pub vms : List Uuid
  pub ip_allocator : IpAllocator
  pub next_vsock_cid : ℕ
  pub free_vsock_cids : List ℕ
  pub pool : VmPool
  pub teams : Dict Str TeamState

unfoldable pub new : Config → IpAllocator → VmPool → WorkspaceManager
new config ip_allocator pool = record {
  config = config;
  workspaces = [];
  vms = [];
  ip_allocator = ip_allocator;
  next_vsock_cid = config.vm.vsock_cid_start;
  free_vsock_cids = [];
  pool = pool;
  teams = [];
}

abbrev pub is_ascii_alphanumeric : ℕ → Bool
is_ascii_alphanumeric c =
    (leb b'0' c && leb c b'9') || (leb b'A' c && leb c b'Z') || (leb b'a' c && leb c b'z')

unfoldable pub is_valid_workspace_name : Str → Bool
is_valid_workspace_name name =
    leb 1 (length name)
    && leb (length name) 128
    && all (λ c. is_ascii_alphanumeric c || c == b'-' || c == b'_' || c == b'.') name

abbrev pub u32_max : ℕ
u32_max = 2 ^ 32 - 1

-- The `while` loop of `alloc_vsock_cid`, which leaves the identifiers 0, 1 and 2 behind.
unfoldable pub skip_reserved : ℕ → ℕ → ℕ
skip_reserved zero cid = cid
skip_reserved (suc fuel) cid =
    let rest = skip_reserved fuel (cid + 1) in if leb cid 2 then rest else cid

-- A recycled identifier first, then the counter; with the list and the counter after it. Three
-- rounds pass 0, 1 and 2.
unfoldable pub take_cid : (free : List ℕ) → (next : ℕ) → (List ℕ × ℕ) × Result ManagerError ℕ
unfolding skip_reserved
take_cid (recycled ∷ free) next = ((free, next), ok recycled)
take_cid [] next =
    if next == u32_max
    then (([], next), err cids_exhausted)
    else (([], skip_reserved 3 next + 1), ok (skip_reserved 3 next))

unfoldable pub alloc_vsock_cid : WorkspaceManager → WorkspaceManager × Result ManagerError ℕ
alloc_vsock_cid m =
    let ((free, next), cid) = take_cid m.free_vsock_cids m.next_vsock_cid in
    (record m { free_vsock_cids = free; next_vsock_cid = next }, cid)

-- The reserved identifiers are not recycled.
unfoldable pub recycle_vsock_cid : ℕ → WorkspaceManager → WorkspaceManager
recycle_vsock_cid cid m =
    if leb cid 2 || cid == u32_max
    then m
    else record m { free_vsock_cids = cid ∷ m.free_vsock_cids }

-- `get_mut(&id)` and a change.
abbrev pub modify : Uuid → (Workspace → Workspace) → Dict Uuid Workspace → Dict Uuid Workspace
modify id f ws = elim (Dict.lookup id ws) [ none ↦ ws | some w ↦ Dict.insert id (f w) ws ]

abbrev pub update : Uuid → (Workspace → Workspace) → WorkspaceManager → WorkspaceManager
update id f m = record m { workspaces = modify id f m.workspaces }

-- `workspaces.values().any(|ws| ws.name == name)`
unfoldable pub name_used : Str → Dict Uuid Workspace → Bool
name_used name [] = false
name_used name ((j, w) ∷ rest) = w.name == name || name_used name rest

unfoldable pub find_by_name : Str → Dict Uuid Workspace → Option Uuid
find_by_name name [] = none
find_by_name name ((j, w) ∷ rest) =
    let later = find_by_name name rest in if w.name == name then some w.id else later

-- `workspaces.len() as u32`
abbrev pub workspace_count : WorkspaceManager → ℕ
workspace_count m = u32 (length m.workspaces)

unfoldable pub get : Uuid → WorkspaceManager → Result ManagerError Workspace
get id m = elim (Dict.lookup id m.workspaces) [ none ↦ err (not_found id) | some w ↦ ok w ]

unfoldable pub ensure_running : Uuid → WorkspaceManager → Result ManagerError (Unit {0})
ensure_running id m = elim (Dict.lookup id m.workspaces) [
  | none ↦ err (not_found id)
  | some w ↦ if same_state w.state running then ok tt else err (not_running id)
]

unfoldable pub register_team : TeamState → WorkspaceManager → WorkspaceManager
register_team team m = record m { teams = Dict.insert team.name team m.teams }

unfoldable pub get_team : Str → WorkspaceManager → Option TeamState
get_team name m = Dict.lookup name m.teams

unfoldable pub remove_team : Str → WorkspaceManager → WorkspaceManager
remove_team name m = record m { teams = Dict.remove name m.teams }

unfoldable pub set_workspace_team_id :
    Uuid → Option Str → WorkspaceManager → WorkspaceManager × Result ManagerError (Unit {0})
set_workspace_team_id id team_id m = elim (Dict.lookup id m.workspaces) [
  | none ↦ (m, err (not_found id))
  | some w ↦ (update id (λ w. record w { team_id = team_id }) m, ok tt)
]
