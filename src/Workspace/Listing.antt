-- ===== src/Workspace/Listing.antt =====
-- What the lists and queues of agentiso/src/workspace/pool.rs and snapshot.rs keep.
use agentiso.Prelude.{
  ℕ, zero, suc, ◌≤◌, ◌≡◌, refl, ap, sym, ◌∙◌, Option, none, some, List, [], ◌∷◌, ◌++◌, nat_eq, leb,
  Bool-cases, inl, inr, take, drop, arith,
}
use mathlib.Core.List.{append-nil, append_assoc}
use mathlib.Core.List.{Perm}
use mathlib.Core.List.Perm
use agentiso.Workspace.Pool.{WarmVm, VmPool, add_ready, claim}
use agentiso.Workspace.Snapshots.{
  Snapshot, SnapshotTree, values, insert_by_time, sort_by_time, list,
}

abbrev pub add_all : List WarmVm → VmPool → VmPool
add_all [] pool = pool
add_all (vm ∷ vms) pool = add_all vms (add_ready vm pool)

abbrev pub collect : Option WarmVm → List WarmVm → List WarmVm
collect none vms = vms
collect (some vm) vms = vm ∷ vms

-- What n claims in a row give, and the pool that they leave.
abbrev pub claim_times : ℕ → VmPool → VmPool × List WarmVm
claim_times zero pool = (pool, [])
claim_times (suc n) pool =
    let (after, got) = claim pool in
    let (last, more) = claim_times n after in (last, collect got more)

add_all_ready : (vms : List WarmVm) (pool : VmPool) → (add_all vms pool).ready ≡ pool.ready ++ vms
unfolding add_ready
add_all_ready [] pool = sym (append-nil pool.ready)
add_all_ready (vm ∷ vms) pool =
    add_all_ready vms (add_ready vm pool) ∙ append_assoc pool.ready (vm ∷ []) vms

claim_times_none :
    (n : ℕ) (pool : VmPool)
    → pool.ready ≡ []
    → ((claim_times n pool).1 ≡ []) × ((claim_times n pool).0.ready ≡ [])
unfolding claim
claim_times_none zero pool e = (refl, e)
claim_times_none (suc n) pool e = rw e (claim_times_none n (record pool { ready = [] }) refl)

claim_times_ready :
    (n : ℕ) (xs : List WarmVm) (pool : VmPool)
    → pool.ready ≡ xs
    → ((claim_times n pool).1 ≡ take n xs) × ((claim_times n pool).0.ready ≡ drop n xs)
unfolding claim
claim_times_ready zero xs pool e = (refl, e)
claim_times_ready (suc n) [] pool e = claim_times_none (suc n) pool e
claim_times_ready (suc n) (x ∷ xs) pool e =
    let (got, left) = claim_times_ready n xs (record pool { ready = xs }) refl in
    rw e (ap (λ t. x ∷ t) got, left)

-- The pool is a first-in first-out queue: after VMs are added, any number of claims gives the VMs
-- that were ready before and then the added ones, in order, and leaves the others in order; claims
-- past the last one give nothing.
pub claim-add_ready :
    (n : ℕ) (vms : List WarmVm) (pool : VmPool)
    → ((claim_times n (add_all vms pool)).1 ≡ take n (pool.ready ++ vms))
      × ((claim_times n (add_all vms pool)).0.ready ≡ drop n (pool.ready ++ vms))
claim-add_ready n vms pool =
    claim_times_ready n (pool.ready ++ vms) (add_all vms pool) (add_all_ready vms pool)

-- In order of their times, the earliest first.
abbrev pub IsSorted : List Snapshot → Type 0
IsSorted [] = Unit
IsSorted (s ∷ []) = Unit
IsSorted (s ∷ x ∷ xs) = (s.created_at ≤ x.created_at) × IsSorted (x ∷ xs)

insert_by_time-IsSorted :
    (s : Snapshot) (xs : List Snapshot) → IsSorted xs → IsSorted (insert_by_time s xs)
unfolding insert_by_time
insert_by_time-IsSorted s [] h = tt
insert_by_time-IsSorted s (x ∷ []) h = ground arith
insert_by_time-IsSorted s (x ∷ y ∷ ys) h =
    let later = insert_by_time-IsSorted s (y ∷ ys) h.1 in ground arith

insert_by_time-Perm : (s : Snapshot) (xs : List Snapshot) → Perm (insert_by_time s xs) (s ∷ xs)
unfolding insert_by_time
insert_by_time-Perm s [] = Perm.rfl
insert_by_time-Perm s (x ∷ xs) = elim (Bool-cases (leb s.created_at x.created_at)) [
  | inl first ↦ rw first Perm.rfl
  | inr later ↦ rw later (Perm.trans (Perm.cons x (insert_by_time-Perm s xs)) (Perm.swap s x xs))
]

sort_by_time-IsSorted : (xs : List Snapshot) → IsSorted (sort_by_time xs)
unfolding sort_by_time
sort_by_time-IsSorted [] = tt
sort_by_time-IsSorted (s ∷ xs) =
    insert_by_time-IsSorted s (sort_by_time xs) (sort_by_time-IsSorted xs)

sort_by_time-Perm : (xs : List Snapshot) → Perm (sort_by_time xs) xs
unfolding sort_by_time
sort_by_time-Perm [] = Perm.rfl
sort_by_time-Perm (s ∷ xs) =
    Perm.trans (insert_by_time-Perm s (sort_by_time xs)) (Perm.cons s (sort_by_time-Perm xs))

-- The list of a tree's snapshots is in order of their times, and is a permutation of the snapshots
-- that the tree stores.
pub list-IsSorted : (t : SnapshotTree) → IsSorted (list t) × Perm (list t) (values t.snapshots)
unfolding list
list-IsSorted t =
    (sort_by_time-IsSorted (values t.snapshots), sort_by_time-Perm (values t.snapshots))
