-- ===== src/Workspace/Manager/Keeping.antt =====
-- What booting and registering a workspace (agentiso/src/workspace/mod.rs) do to the map of
-- workspaces.
use agentiso.Prelude.{
  ℕ, ◌≡◌, ◌≤◌, refl, Bool, true, false, not, ◌||◌, Option, none, some, List, Str, nat_eq, str_eq,
  ◌==◌, leb, Bool-cases, inl, inr, Result, ok, err, arith,
}
use agentiso.Prelude.Dict.{Dict}
use agentiso.Prelude.Dict
use agentiso.Config.Sections.{Config}
use agentiso.Network.Ip.{Ipv4Addr}
use agentiso.Workspace.Snapshots.{Uuid, get_by_name}
use agentiso.Workspace.Snapshots
use agentiso.Workspace.Manager.State.{
  Workspace, stopped, running, same_state, WorkspaceManager, ManagerError, alloc_vsock_cid,
  recycle_vsock_cid, workspace_count, name_used, u32_max, is_valid_workspace_name,
}
use agentiso.Workspace.Manager.Host.{launch}
use agentiso.Workspace.Manager.Boot.{
  Answers, Request, check_request, check_room, boot, boot_cid, boot_launched, register,
}
use agentiso.Workspace.Manager.Calls.{Call}
use agentiso.Workspace.Manager.Moves.{Moves, HasPid, HasRoom, same, entered, Changes}

-- Booting keeps the configuration and the workspaces.
abbrev pub Keeps : WorkspaceManager → WorkspaceManager → Type 0
Keeps m n = (n.config ≡ m.config) × (n.workspaces ≡ m.workspaces)

pub recycle-Keeps : (cid : ℕ) (m : WorkspaceManager) → Keeps m (recycle_vsock_cid cid m)
unfolding recycle_vsock_cid
recycle-Keeps cid m = elim (Bool-cases (leb cid 2 || cid == u32_max)) [
  | inl reserved ↦ rw reserved (refl, refl)
  | inr usable ↦ rw usable (refl, refl)
]

pub boot_launched-Keeps :
    (cid : ℕ) (ip : Ipv4Addr) (m : WorkspaceManager) (p : List Uuid × Option ℕ)
    → Keeps m (boot_launched cid ip m p).0
boot_launched-Keeps cid ip m (vms, some pid) = (refl, refl)
boot_launched-Keeps cid ip m (vms, none) = recycle-Keeps cid m

pub boot_cid-Keeps :
    (a : Answers) (ip : Ipv4Addr) (p : WorkspaceManager × Result ManagerError ℕ)
    → Keeps p.0 (boot_cid a ip p).0
boot_cid-Keeps a ip (m, err e) = (refl, refl)
boot_cid-Keeps a ip (m, ok cid) = boot_launched-Keeps cid ip m (launch a.id a.pid m.vms)

pub boot-Keeps : (a : Answers) (ip : Ipv4Addr) (m : WorkspaceManager) → Keeps m (boot a ip m).0
unfolding boot alloc_vsock_cid
boot-Keeps a ip m = boot_cid-Keeps a ip (alloc_vsock_cid m)

pub register-Changes :
    (c : Call) (killed : Bool) (w : Workspace) (m : WorkspaceManager)
    → Dict.lookup w.id m.workspaces ≡ none
    → name_used w.name m.workspaces ≡ false
    → Moves c w.id none (some w.state)
    → HasPid w
    → HasRoom m.config w
    → Changes c m (register killed w m).0
unfolding register
register-Changes c killed w m fresh unnamed moves pid room =
    elim (Bool-cases (leb m.config.resources.max_workspaces (workspace_count m))) [
      | inl full ↦
          let (config_kept, kept) = recycle-Keeps w.vsock_cid m in rw (full, config_kept, kept) same
      | inr below ↦ rw below (
          entered w (record {
            fresh = fresh;
            unnamed = unnamed;
            below = below;
            moves = moves;
            pid = pid;
            room = room;
          }))
    ]

pub Changes-after :
    (c : Call) (before m n : WorkspaceManager) → Keeps before m → Changes c m n → Changes c before n
Changes-after c before m n (config_kept, kept) changes = rw (config_kept, kept) at changes

-- `register` after a boot.
pub booted-Changes :
    (c : Call) (killed : Bool) (w : Workspace) (before m : WorkspaceManager)
    → Keeps before m
    → Dict.lookup w.id before.workspaces ≡ none
    → name_used w.name before.workspaces ≡ false
    → Moves c w.id none (some w.state)
    → HasPid w
    → HasRoom before.config w
    → Changes c before (register killed w m).0
booted-Changes c killed w before m keeps fresh unnamed moves pid room =
    let (config_kept, kept) = keeps in
    Changes-after c before m (register killed w m).0 keeps (
      register-Changes c killed w m (rw kept fresh) (rw kept unnamed) moves pid
        (rw config_kept room))

pub running_pid : true ≡ not (same_state running stopped)
unfolding same_state
running_pid = refl

pub new-room :
    (config : Config) → Snapshots.len Snapshots.new ≤ config.resources.max_snapshots_per_workspace
unfolding Snapshots.len Snapshots.new
new-room config = omega arith

-- What a request that passes the checks knows.
pub check_room-ok :
    (name : Str) (m : WorkspaceManager) (u : Unit)
    → check_room name m ≡ ok u
    → (leb m.config.resources.max_workspaces (workspace_count m) ≡ false)
      × (name_used name m.workspaces ≡ false)
unfolding check_room
check_room-ok name m u e = ground arith

pub check_request-ok :
    (r : Request) (m : WorkspaceManager) (u : Unit)
    → check_request r m ≡ ok u
    → (is_valid_workspace_name r.name ≡ true) × (check_room r.name m ≡ ok u)
unfolding check_request
check_request-ok r m u e = ground arith
