-- ===== src/Workspace/Examples.antt =====
-- The pool and the snapshot tree at concrete inputs.
use agentiso.Prelude.{ℕ, ◌-◌, nat_eq, ◌≡◌, refl, Option, none, some, List, [], ◌∷◌, codes}
use agentiso.Prelude.Set
use agentiso.Prelude.Dict
use agentiso.Config.Sections.{default_pool}
use agentiso.Workspace.Pool.{WarmVm, VmPool}
use agentiso.Workspace.Pool
use agentiso.Workspace.Snapshots.{
  Uuid, Snapshot, SnapshotTree, new, add, remove, get, children_of, has_children, ancestor_chain,
}
use agentiso.Workspace.Ancestors.{IsChain, ancestor_chain_total}
use agentiso.Workspace.Listing.{add_all, claim_times, claim-add_ready}
use agentiso.Workspace.Children.{IsValid, new-IsValid, add-IsValid}

abbrev vm : ℕ → WarmVm
vm cid = record {
  id = cid;
  vsock_cid = cid;
  zfs_dataset = codes "pool/warm";
  zvol_path = codes "/dev/zvol/test";
  qemu_pid = 1234;
  booted_at = 0;
  short_id = codes "0a1b2c3d";
  tap_device = codes "tap-0a1b2c3d";
  guest_ip = record { a = 10; b = 99; c = 0; d = cid };
  memory_mb = 512;
}

claim-add_ready_example :
    ((claim_times 2 (add_all (vm 100 ∷ vm 101 ∷ []) (Pool.new default_pool))).1
      ≡ vm 100 ∷ vm 101 ∷ [])
    × ((claim_times 2 (add_all (vm 100 ∷ vm 101 ∷ []) (Pool.new default_pool))).0.ready ≡ [])
unfolding Pool.new
claim-add_ready_example = claim-add_ready 2 (vm 100 ∷ vm 101 ∷ []) (Pool.new default_pool)

abbrev snapshot : Uuid → Option Uuid → Snapshot
snapshot id parent = record {
  id = id;
  name = codes "checkpoint";
  workspace_id = 7;
  zfs_snapshot = codes "tank/ws-7@checkpoint";
  qemu_state = none;
  parent = parent;
  created_at = 100 - id;
}

-- 1 and 2 are each other's parents; 3 is a child of 2.
cyclic : SnapshotTree
cyclic = add (snapshot 3 (some 2)) (add (snapshot 2 (some 1)) (add (snapshot 1 (some 2)) new))

program : Unit {0}
unfolding cyclic new add remove get children_of has_children ancestor_chain Dict.insert Dict.lookup
program = tt

chain_of_3 : ancestor_chain 3 cyclic ≡ some (3 ∷ 2 ∷ 1 ∷ [])
unfolding program Set.contains
chain_of_3 = refl

cyclic-IsValid : IsValid cyclic
unfolding cyclic
cyclic-IsValid =
    add-IsValid (snapshot 3 (some 2)) (add (snapshot 2 (some 1)) (add (snapshot 1 (some 2)) new)) (
      add-IsValid (snapshot 2 (some 1)) (add (snapshot 1 (some 2)) new)
        (add-IsValid (snapshot 1 (some 2)) new new-IsValid))

ancestor_chain_total_example :
    (r : List Uuid) × (ancestor_chain 3 cyclic ≡ some r) × IsChain cyclic (3 ∷ []) r
ancestor_chain_total_example = ancestor_chain_total cyclic 3
