-- ===== src/Workspace/Manager/CidSteps.antt =====
-- How the steps of the workspace manager (agentiso/src/workspace/mod.rs) keep every vsock identifier
-- with one holder.
use agentiso.Prelude.{
  ℕ, ◌≡◌, refl, ◌||◌, Option, none, some, List, [], ◌∷◌, nat_eq, nat_beq_iff, ◌==◌, leb,
  if◌then◌else◌, Bool-cases, Option-cases, inl, inr, Result, ok, err, arith,
}
use agentiso.Prelude.Dict.{Dict}
use agentiso.Prelude.Dict
use agentiso.Workspace.Pool.{WarmVm, VmPool}
use agentiso.Workspace.Snapshots.{Uuid}
use agentiso.Workspace.Manager.State.{
  Workspace, WorkspaceManager, ManagerError, u32_max, skip_reserved, take_cid,
}
use agentiso.Workspace.Pool.{add_ready, claim}
use agentiso.Workspace.Manager.State.{modify, update, recycle_vsock_cid}
use agentiso.Workspace.Manager.Cids.{
  workspaces_with, warm_with, workspaces_with-insert_new, workspaces_with-insert_old,
  workspaces_with-remove, warm_with-append, IsUnique, Unique,
}

-- What `take_cid` leaves.
abbrev pub Taken :
    List ℕ → Dict Uuid Workspace → List WarmVm → (List ℕ × ℕ) × Result ManagerError ℕ → Type 0
Taken held ws ready ((free, next), err e) = IsUnique held ws ready free next
Taken held ws ready ((free, next), ok cid) = IsUnique (cid ∷ held) ws ready free next

skip_reserved_lem : (next : ℕ) → skip_reserved 3 next ≡ (if leb next 2 then 3 else next)
unfolding skip_reserved
skip_reserved_lem next = ground arith

pub take_cid-Taken :
    (held : List ℕ) (ws : Dict Uuid Workspace) (ready : List WarmVm) (free : List ℕ) (next : ℕ)
    → IsUnique held ws ready free next
    → Taken held ws ready (take_cid free next)
unfolding take_cid
take_cid-Taken held ws ready (c ∷ free) next v = record {
  distinct = v.distinct;
  once = λ x. omega (arith, v.once x);
  usable = λ x h. v.usable x (omega arith);
  bounded = v.bounded;
}
take_cid-Taken held ws ready [] next v = elim (Bool-cases (next == u32_max)) [
  | inl full ↦ rw full v
  | inr room ↦ rw room (record {
    distinct = v.distinct;
    once = λ x.
        ground (
          arith,
          skip_reserved_lem next,
          v.once x,
          v.usable x,
          nat_beq_iff (skip_reserved 3 next) x,
        );
    usable = λ x h.
        ground (arith, skip_reserved_lem next, v.usable x, nat_beq_iff (skip_reserved 3 next) x);
    bounded = ground (arith, skip_reserved_lem next, v.bounded, nat_beq_iff next u32_max);
  })
]

-- The call ends without a use for the identifier.
pub drop-Unique :
    (cid : ℕ) (held : List ℕ) (m : WorkspaceManager) → Unique (cid ∷ held) m → Unique held m
drop-Unique cid held m v = record {
  distinct = v.distinct;
  once = λ c. omega (arith, v.once c);
  usable = λ c h. v.usable c (omega arith);
  bounded = v.bounded;
}

pub recycle-Unique :
    (cid : ℕ) (held : List ℕ) (m : WorkspaceManager)
    → Unique (cid ∷ held) m
    → Unique held (recycle_vsock_cid cid m)
unfolding recycle_vsock_cid
recycle-Unique cid held m v = elim (Bool-cases (leb cid 2 || cid == u32_max)) [
  | inl reserved ↦ rw reserved (drop-Unique cid held m v)
  | inr usable ↦ rw usable (record {
    distinct = v.distinct;
    once = λ c. omega (arith, v.once c);
    usable = λ c h. v.usable c (omega arith);
    bounded = v.bounded;
  })
]

pub insert-Unique :
    (id : Uuid) (w : Workspace) (m : WorkspaceManager)
    → Dict.lookup id m.workspaces ≡ none
    → Unique (w.vsock_cid ∷ []) m
    → Unique [] (record m { workspaces = Dict.insert id w m.workspaces })
insert-Unique id w m fresh v = record {
  distinct = Dict.insert-IsDistinct id w m.workspaces v.distinct;
  once = λ c. omega (arith, workspaces_with-insert_new c id w m.workspaces fresh, v.once c);
  usable = λ c h. v.usable c (omega (arith, workspaces_with-insert_new c id w m.workspaces fresh));
  bounded = v.bounded;
}

pub update-Unique :
    (id : Uuid) (f : Workspace → Workspace) (held : List ℕ) (m : WorkspaceManager)
    → ((w : Workspace) → (f w).vsock_cid ≡ w.vsock_cid)
    → Unique held m
    → Unique held (update id f m)
update-Unique id f held m same v = elim (Option-cases (Dict.lookup id m.workspaces)) [
  | inl absent ↦ rw (absent, modify) v
  | inr (w, found) ↦
      let kept : (c : ℕ)
          → workspaces_with c (Dict.insert id (f w) m.workspaces) ≡ workspaces_with c m.workspaces =
        λ c. ground (arith, same w, workspaces_with-insert_old c id (f w) w m.workspaces found) in
      rw (found, modify)
        (record {
          distinct = Dict.insert-IsDistinct id (f w) m.workspaces v.distinct;
          once = λ c. omega (arith, kept c, v.once c);
          usable = λ c h. v.usable c (omega (arith, kept c));
          bounded = v.bounded;
        })
]

pub remove-Unique :
    (id : Uuid) (w : Workspace) (m : WorkspaceManager)
    → Dict.lookup id m.workspaces ≡ some w
    → Unique [] m
    → Unique (w.vsock_cid ∷ []) (record m { workspaces = Dict.remove id m.workspaces })
remove-Unique id w m found v = record {
  distinct = Dict.remove-IsDistinct id m.workspaces v.distinct;
  once = λ c. omega (arith, workspaces_with-remove c id w m.workspaces v.distinct found, v.once c);
  usable = λ c h.
      v.usable c (omega (arith, workspaces_with-remove c id w m.workspaces v.distinct found));
  bounded = v.bounded;
}

pub add_ready-Unique :
    (vm : WarmVm) (m : WorkspaceManager)
    → Unique (vm.vsock_cid ∷ []) m
    → Unique [] (record m { pool = add_ready vm m.pool })
unfolding add_ready
add_ready-Unique vm m v = record {
  distinct = v.distinct;
  once = λ c. omega (arith, warm_with-append c m.pool.ready vm, v.once c);
  usable = λ c h. v.usable c (omega (arith, warm_with-append c m.pool.ready vm));
  bounded = v.bounded;
}

-- What claiming a warm VM leaves.
abbrev pub Claimed : WorkspaceManager → VmPool × Option WarmVm → Type 0
Claimed m (pool, none) = Unique [] (record m { pool = pool })
Claimed m (pool, some vm) = Unique (vm.vsock_cid ∷ []) (record m { pool = pool })

claim_ready :
    (ready : List WarmVm) (m : WorkspaceManager) (pool : VmPool)
    → pool.ready ≡ ready
    → IsUnique [] m.workspaces ready m.free_vsock_cids m.next_vsock_cid
    → Claimed m (claim pool)
unfolding claim warm_with
claim_ready [] m pool e v = rw e (record {
  distinct = v.distinct;
  once = λ c. omega (arith, v.once c);
  usable = λ c h. v.usable c (omega arith);
  bounded = v.bounded;
})
claim_ready (vm ∷ ready) m pool e v = rw e (record {
  distinct = v.distinct;
  once = λ c. omega (arith, v.once c);
  usable = λ c h. v.usable c (omega arith);
  bounded = v.bounded;
})

pub claim-Claimed : (m : WorkspaceManager) → Unique [] m → Claimed m (claim m.pool)
claim-Claimed m v = claim_ready m.pool.ready m m.pool refl v
