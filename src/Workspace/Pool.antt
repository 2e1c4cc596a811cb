-- ===== src/Workspace/Pool.antt =====
-- The warm VM pool of agentiso/src/workspace/pool.rs. Each method holds the lock on the queue, so a
-- method is one step. Identifiers are numbers here.
use agentiso.Prelude.{
  ℕ, ◌+◌, ◌-◌, ◌^◌, Bool, Option, none, some, List, [], ◌∷◌, ◌++◌, ltb, min, length, if◌then◌else◌,
  Str,
}
use agentiso.Prelude.Word.{u64}
use agentiso.Config.Sections.{PoolConfig}
use agentiso.Network.Ip.{Ipv4Addr}

pub record WarmVm : Type 0 where
  pub id : ℕ
  pub vsock_cid : ℕ
  pub zfs_dataset : Str
  pub zvol_path : Str
  pub qemu_pid : ℕ
  pub booted_at : ℕ
  pub short_id : Str
  pub tap_device : Str
  pub guest_ip : Ipv4Addr
  pub memory_mb : ℕ  -- u32

pub record VmPool : Type 0 where
  pub ready : List WarmVm
  pub config : PoolConfig

unfoldable pub new : PoolConfig → VmPool
new config = record { ready = []; config = config }

unfoldable pub enabled : VmPool → Bool
enabled pool = pool.config.enabled

unfoldable pub claim : VmPool → VmPool × Option WarmVm
claim pool = elim pool.ready [
  | [] ↦ (pool, none)
  | vm ∷ rest ↦ (record pool { ready = rest }, some vm)
]

unfoldable pub add_ready : WarmVm → VmPool → VmPool
add_ready vm pool = record pool { ready = pool.ready ++ vm ∷ [] }

unfoldable pub ready_count : VmPool → ℕ
ready_count pool = length pool.ready

unfoldable pub needs_replenish : VmPool → Bool
needs_replenish pool = ltb (length pool.ready) pool.config.target_free

-- `max_size - count` wraps where more VMs are ready than the pool may hold.
unfoldable pub deficit : VmPool → ℕ
deficit pool =
    let count = length pool.ready in
    if ltb count pool.config.target_free
    then min (pool.config.target_free - count) (u64 (pool.config.max_size + 2 ^ 64 - count))
    else 0

unfoldable pub drain : VmPool → VmPool × List WarmVm
drain pool = (record pool { ready = [] }, pool.ready)

-- The sum of a usize for each VM, which wraps.
unfoldable pub sum_memory : List WarmVm → ℕ
sum_memory [] = 0
sum_memory (vm ∷ vms) = u64 (vm.memory_mb + sum_memory vms)

unfoldable pub total_memory_mb : VmPool → ℕ
unfolding sum_memory
total_memory_mb pool = sum_memory pool.ready

unfoldable pub max_memory_mb : VmPool → ℕ
max_memory_mb pool = pool.config.max_memory_mb

unfoldable pub target_free : VmPool → ℕ
target_free pool = pool.config.target_free
