-- ===== src/Workspace/Manager/Vms.antt =====
-- Which VMs the VM manager has for the workspaces (agentiso/src/workspace/mod.rs and
-- agentiso/src/vm/mod.rs): none for a stopped one.
use agentiso.Prelude.{
  ℕ, ◌≡◌, ◌≢◌, Bool, true, false, Option, none, some, List, nat_eq, str_eq, nat_beq_iff, ◌==◌,
  Option-cases, inl, inr, arith,
}
use agentiso.Prelude.Dict.{Dict}
use agentiso.Prelude.Dict
use agentiso.Prelude.Set
use agentiso.Workspace.Snapshots.{Uuid}
use agentiso.Workspace.Manager.State.{
  Workspace, WorkspaceManager, stopped, modify, recycle_vsock_cid,
}
use agentiso.Workspace.Manager.Host.{launch, force_kill, rekey_vm}

-- No stopped workspace has a VM.
abbrev pub Halts : Dict Uuid Workspace → List Uuid → Type 0
Halts ws vms =
    (id : Uuid) (w : Workspace)
    → Dict.lookup id ws ≡ some w
    → w.state ≡ stopped
    → Set.contains id vms ≡ false

abbrev pub Halted : WorkspaceManager → Type 0
Halted m = Halts m.workspaces m.vms

-- Only the VM of `id` may be new.
abbrev pub Others : Uuid → List Uuid → List Uuid → Type 0
Others id vms vms' =
    (i : Uuid) → (id == i) ≡ false → Set.contains i vms' ≡ true → Set.contains i vms ≡ true

module _ (id : Uuid) (ws : Dict Uuid Workspace) (vms vms' : List Uuid) (others : Others id vms vms')
    (h : Halts ws vms) where
  -- A workspace is changed, and is stopped after that only if its VM is gone.
  pub modify-Halts :
      (f : Workspace → Workspace)
      → ((w : Workspace)
          → Dict.lookup id ws ≡ some w
          → (f w).state ≡ stopped
          → Set.contains id vms' ≡ false)
      → Halts (modify id f ws) vms'
  modify-Halts f off i w found is = elim (Option-cases (Dict.lookup id ws)) [
    | inl absent ↦ ground (arith, h i w, others i, nat_beq_iff id i)
    | inr (old, at_id) ↦ ground (
      arith,
      Dict.lookup-insert id i (f old) ws,
      off old at_id,
      h i w,
      others i,
      nat_beq_iff id i,
    )
  ]

  -- A workspace that is not stopped enters.
  pub insert-Halts : (x : Workspace) → x.state ≢ stopped → Halts (Dict.insert id x ws) vms'
  insert-Halts x up i w found is =
      ground (arith, Dict.lookup-insert id i x ws, h i w, others i, nat_beq_iff id i)

  -- A VM without a workspace.
  pub orphan-Halts : Dict.lookup id ws ≡ none → Halts ws vms'
  orphan-Halts fresh i w found is = ground (arith, h i w, others i, nat_beq_iff id i)

pub launch-Others :
    (id : Uuid) (answer : Option ℕ) (vms : List Uuid) → Others id vms (launch id answer vms).0
unfolding launch
launch-Others id answer vms i other here = ground (arith, Set.contains-insert id i vms)

pub rekey-Others : (old new : Uuid) (vms : List Uuid) → Others new vms (rekey_vm old new vms)
unfolding rekey_vm
rekey-Others old new vms i other here =
    ground (arith, Set.contains-insert new i (Set.remove old vms), Set.contains-remove old i vms)

pub force_kill-fewer :
    (killed : Bool) (id : Uuid) (vms : List Uuid) (i : Uuid)
    → Set.contains i vms ≡ false
    → Set.contains i (force_kill killed id vms) ≡ false
unfolding force_kill
force_kill-fewer killed id vms i gone = ground (arith, Set.contains-remove id i vms)

pub recycle-vms : (cid : ℕ) (m : WorkspaceManager) → (recycle_vsock_cid cid m).vms ≡ m.vms
unfolding recycle_vsock_cid
recycle-vms cid m = ground arith
