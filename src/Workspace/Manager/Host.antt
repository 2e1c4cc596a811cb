-- ===== src/Workspace/Manager/Host.antt =====
-- What the managers of VMs (agentiso/src/vm/mod.rs) and of the network (agentiso/src/network/mod.rs)
-- do to the state. What QEMU, the kernel and nftables answer is an argument of each call.
use agentiso.Prelude.{
  ℕ, Bool, Option, none, some, List, Str, nat_eq, if◌then◌else◌, Result, ok, err,
}
use agentiso.Prelude.Set
use agentiso.Network.Ip.{Ipv4Addr, IpAllocator, allocate, release}
use agentiso.Workspace.Snapshots.{Uuid}
use agentiso.Workspace.Manager.State.{ManagerError, network_failed, never_ends}

-- The policy that the rules are made from.
pub record NetworkPolicy : Type 0 where
  pub allow_internet : Bool
  pub allow_inter_vm : Bool
  pub allowed_ports : List ℕ

pub record WorkspaceNetworkSetup : Type 0 where
  pub tap_device : Str
  pub guest_ip : Ipv4Addr

-- An address, a TAP device and firewall rules; a failure gives the address back. `tap` is the
-- device, if it could be made, and `rules` whether the rules could be applied.
unfoldable pub setup_workspace :
    (tap : Option Str)
    → (rules : Bool) → IpAllocator
    → IpAllocator × Result ManagerError WorkspaceNetworkSetup
setup_workspace tap rules alloc = elim (allocate alloc) [
  | none ↦ (alloc, err never_ends)
  | some (after, err e) ↦ (after, err network_failed)
  | some (after, ok ip) ↦ elim tap [
    | none ↦ (release ip after, err network_failed)
    | some device ↦
        if rules
        then (after, ok (record { tap_device = device; guest_ip = ip }))
        else (release ip after, err network_failed)
  ]
]

-- Rules and device go as far as they can, and the address always does.
unfoldable pub cleanup_workspace : Ipv4Addr → IpAllocator → IpAllocator
cleanup_workspace ip alloc = release ip alloc

-- A VM for an identifier that has none yet; the answer is the process, if it came up.
unfoldable pub launch : Uuid → Option ℕ → List Uuid → List Uuid × Option ℕ
launch id answer vms =
    if Set.contains id vms
    then (vms, none)
    else elim answer [ none ↦ (vms, none) | some pid ↦ (Set.insert id vms, some pid) ]

-- Every path of `stop` ends with the VM's handle dropped.
unfoldable pub stop_vm : Uuid → List Uuid → List Uuid
stop_vm id vms = Set.remove id vms

-- The handle stays where the process could not be killed.
unfoldable pub force_kill : (killed : Bool) → Uuid → List Uuid → List Uuid
force_kill killed id vms = if killed then Set.remove id vms else vms

unfoldable pub rekey_vm : (old new : Uuid) → List Uuid → List Uuid
rekey_vm old new vms = if Set.contains old vms then Set.insert new (Set.remove old vms) else vms
