-- ===== src/Workspace/Manager/Cids.antt =====
-- Who holds which vsock identifier in the workspace manager (agentiso/src/workspace/mod.rs).
use agentiso.Prelude.{
  ℕ, ◌+◌, ◌≤◌, ◌<◌, ◌≡◌, refl, subst, none, some, List, [], ◌∷◌, ◌++◌, nat_eq, nat_beq_iff, ◌==◌,
  if◌then◌else◌, Bool-cases, inl, inr, arith,
}
use agentiso.Prelude.Dict.{Dict}
use agentiso.Prelude.Dict
use agentiso.Workspace.Pool.{WarmVm}
use agentiso.Workspace.Snapshots.{Uuid}
use agentiso.Workspace.Manager.State.{Workspace, WorkspaceManager, u32_max}

-- How often an identifier stands in a list, and how many workspaces and warm VMs have it.
abbrev pub count : ℕ → List ℕ → ℕ
count c [] = 0
count c (x ∷ xs) = (if x == c then 1 else 0) + count c xs

unfoldable pub workspaces_with : ℕ → Dict Uuid Workspace → ℕ
workspaces_with c [] = 0
workspaces_with c ((j, w) ∷ m) = (if w.vsock_cid == c then 1 else 0) + workspaces_with c m

unfoldable pub warm_with : ℕ → List WarmVm → ℕ
warm_with c [] = 0
warm_with c (vm ∷ vms) = (if vm.vsock_cid == c then 1 else 0) + warm_with c vms

pub workspaces_with-insert_new :
    (c : ℕ) (id : Uuid) (w : Workspace) (m : Dict Uuid Workspace)
    → Dict.lookup id m ≡ none
    → workspaces_with c (Dict.insert id w m)
      ≡ workspaces_with c m + (if w.vsock_cid == c then 1 else 0)
unfolding workspaces_with Dict.lookup Dict.insert
workspaces_with-insert_new c id w [] e = omega arith
workspaces_with-insert_new c id w ((j, x) ∷ m) e =
    ground (arith, workspaces_with-insert_new c id w m)

pub workspaces_with-insert_old :
    (c : ℕ) (id : Uuid) (w old : Workspace) (m : Dict Uuid Workspace)
    → Dict.lookup id m ≡ some old
    → workspaces_with c (Dict.insert id w m) + (if old.vsock_cid == c then 1 else 0)
      ≡ workspaces_with c m + (if w.vsock_cid == c then 1 else 0)
unfolding workspaces_with Dict.lookup Dict.insert
workspaces_with-insert_old c id w old [] e = absurd (cc)
workspaces_with-insert_old c id w old ((j, x) ∷ m) e = elim (Bool-cases (j == id)) [
  | inl this ↦ let same : x ≡ old = ground arith in rw (this, same) (omega arith)
  | inr other ↦ rw other (omega (arith, workspaces_with-insert_old c id w old m (rw other at e)))
]

workspaces_with-remove_absent :
    (c : ℕ) (id : Uuid) (m : Dict Uuid Workspace)
    → Dict.lookup id m ≡ none
    → workspaces_with c (Dict.remove id m) ≡ workspaces_with c m
unfolding workspaces_with Dict.lookup Dict.remove
workspaces_with-remove_absent c id [] e = refl
workspaces_with-remove_absent c id ((j, x) ∷ m) e = elim (Bool-cases (j == id)) [
  | inl this ↦ absurd (ground arith)
  | inr other ↦ rw other (omega (arith, workspaces_with-remove_absent c id m (rw other at e)))
]

pub workspaces_with-remove :
    (c : ℕ) (id : Uuid) (old : Workspace) (m : Dict Uuid Workspace)
    → Dict.IsDistinct m
    → Dict.lookup id m ≡ some old
    → workspaces_with c (Dict.remove id m) + (if old.vsock_cid == c then 1 else 0)
      ≡ workspaces_with c m
unfolding workspaces_with Dict.lookup Dict.remove
workspaces_with-remove c id old [] d e = absurd (cc)
workspaces_with-remove c id old ((j, x) ∷ m) d e = elim (Bool-cases (j == id)) [
  | inl this ↦
      let same : x ≡ old = ground arith in
      let gone : Dict.lookup id m ≡ none =
        subst (λ k. Dict.lookup k m ≡ none) ((nat_beq_iff j id).0 this) d.0 in
      rw (this, same) (omega (arith, workspaces_with-remove_absent c id m gone))
  | inr other ↦ rw other (omega (arith, workspaces_with-remove c id old m d.1 (rw other at e)))
]

pub warm_with-append :
    (c : ℕ) (vms : List WarmVm) (vm : WarmVm)
    → warm_with c (vms ++ vm ∷ []) ≡ warm_with c vms + (if vm.vsock_cid == c then 1 else 0)
unfolding warm_with
warm_with-append c [] vm = omega arith
warm_with-append c (x ∷ xs) vm = omega (arith, warm_with-append c xs vm)

-- Every identifier is held once at most: by a workspace, by a warm VM, by the list of free ones, or
-- by the call that is running (`held`). All are usable, and below the counter.
pub record IsUnique (held : List ℕ) (ws : Dict Uuid Workspace) (ready : List WarmVm) (free : List ℕ)
    (next : ℕ) : Type 0 where
  pub distinct : Dict.IsDistinct ws
  pub once :
      (c : ℕ) → count c held + (workspaces_with c ws + (warm_with c ready + count c free)) ≤ 1
  pub usable :
      (c : ℕ)
      → 1 ≤ count c held + (workspaces_with c ws + (warm_with c ready + count c free))
      → (3 ≤ c) × (c < next)
  pub bounded : next ≤ u32_max

abbrev pub Unique : List ℕ → WorkspaceManager → Type 0
Unique held m = IsUnique held m.workspaces m.pool.ready m.free_vsock_cids m.next_vsock_cid
