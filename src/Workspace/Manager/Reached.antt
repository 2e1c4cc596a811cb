-- ===== src/Workspace/Manager/Reached.antt =====
-- What holds in every state that the workspace manager (agentiso/src/workspace/mod.rs) reaches.
use agentiso.Prelude.{
  true, false, ok, none, ℕ, ◌≡◌, ◌≢◌, ◌≤◌, ◌<◌, refl, some, [], ◌∷◌, Str, nat_eq, str_eq,
  nat_beq_iff, ◌==◌, length, ◌⊎◌, Bool-cases, inl, inr, arith,
}
use agentiso.Prelude.Dict.{Dict}
use agentiso.Prelude.Dict
use agentiso.Config.Sections.{Config}
use agentiso.Workspace.Snapshots.{Uuid, len}
use agentiso.Workspace.Manager.State.{
  same_state, stopped, running, Workspace, WorkspaceManager, u32_max,
}
use agentiso.Prelude.Set
use agentiso.Workspace.Manager.Host.{launch}
use agentiso.Workspace.Manager.Lifecycle.{StartAnswers, start, launch_again}
use agentiso.Workspace.Manager.Cids.{workspaces_with}
use agentiso.Workspace.Manager.Moves.{HasPid, HasRoom}
use agentiso.Workspace.Manager.Guarantees.{Sound}
use agentiso.Workspace.Manager.History.{Reachable, Reachable-Good}

found_with :
    (id : Uuid) (w : Workspace) (ws : Dict Uuid Workspace)
    → Dict.lookup id ws ≡ some w
    → 1 ≤ workspaces_with w.vsock_cid ws
unfolding workspaces_with Dict.lookup
found_with id w [] found = absurd (cc)
found_with id w ((i, x) ∷ ws) found = elim (Bool-cases (i == id)) [
  | inl this ↦
      let same : x ≡ w = ground arith in
      rw (same, (nat_beq_iff w.vsock_cid w.vsock_cid).1 refl) (omega arith)
  | inr other ↦ omega (arith, found_with id w ws (rw other at found))
]

found_twice :
    (i j : Uuid) (w x : Workspace) (ws : Dict Uuid Workspace)
    → Dict.lookup i ws ≡ some w
    → Dict.lookup j ws ≡ some x
    → i ≢ j
    → w.vsock_cid ≡ x.vsock_cid
    → 2 ≤ workspaces_with w.vsock_cid ws
unfolding workspaces_with Dict.lookup
found_twice i j w x [] at_i at_j ne same = absurd (cc)
found_twice i j w x ((k, y) ∷ ws) at_i at_j ne same = ground (
  arith,
  found_twice i j w x ws,
  found_with i w ws,
  found_with j x ws,
  nat_beq_iff k i,
  nat_beq_iff k j,
  nat_beq_iff y.vsock_cid w.vsock_cid,
)

no_pid : (w : Workspace) → w.state ≡ stopped → HasPid w → w.qemu_pid ≡ none
unfolding same_state
no_pid w off pid = ground arith

rooms_of :
    (config : Config) (ws : Dict Uuid Workspace)
    → Sound config ws
    → Dict.AllValues (λ w. len w.snapshots ≤ config.resources.max_snapshots_per_workspace) ws
rooms_of config [] h = tt
rooms_of config ((id, w) ∷ ws) h = (h.0.1, rooms_of config ws h.1)

-- A stopped workspace without a VM starts.
start_stopped :
    (id : Uuid) (w : Workspace) (a : StartAnswers) (tap : Str) (pid : ℕ) (m : WorkspaceManager)
    → Dict.lookup id m.workspaces ≡ some w
    → w.state ≡ stopped
    → Set.contains id m.vms ≡ false
    → a.tap ≡ some tap
    → a.rules ≡ true
    → a.pid ≡ some pid
    → ((start id a m).1 ≡ ok tt)
      × (Dict.lookup id (start id a m).0.workspaces
          ≡ some (record w { state = running; qemu_pid = some pid; tap_device = tap }))
      × (Set.contains id (start id a m).0.vms ≡ true)
unfolding start launch_again launch
start_stopped id w a tap pid m found off none_yet tapped ruled up =
    rw (start, found, off, tapped, ruled, launch_again, launch, none_yet, up)
      (
        refl,
        ground (
          arith,
          Dict.lookup-insert_self id (record w { tap_device = tap }) m.workspaces,
          found,
          Dict.lookup-insert_self id
              (record w { state = running; qemu_pid = some pid; tap_device = tap })
              (Dict.insert id (record w { tap_device = tap }) m.workspaces),
        ),
        ground (arith, Set.contains-insert id id m.vms, nat_beq_iff id id),
      )

module _ (uuid_text : Uuid → Str) (config : Config) (m : WorkspaceManager)
    (cids : config.vm.vsock_cid_start ≤ u32_max) (small : config.resources.max_workspaces ≤ u32_max)
    (history : Reachable uuid_text config m) where
  -- After every history of calls, one after another, by which each new UUID was fresh, on a
  -- configuration whose first vsock identifier and limit of workspaces fit in 32 bits: every
  -- workspace's vsock identifier is at least 3 and below 2^32 - 1, and any two workspaces are the same
  -- one or have different identifiers, whatever was destroyed, rolled back and recycled before.
  pub Reachable-vsock_cid :
      (i j : Uuid) (w x : Workspace)
      → Dict.lookup i m.workspaces ≡ some w
      → Dict.lookup j m.workspaces ≡ some x
      → (3 ≤ w.vsock_cid) × (w.vsock_cid < u32_max) × ((i ≡ j) ⊎ (w.vsock_cid ≢ x.vsock_cid))
  Reachable-vsock_cid i j w x at_i at_j =
      let v = (Reachable-Good uuid_text config m cids small history).unique in
      let held = found_with i w m.workspaces at_i in
      let usable = v.usable w.vsock_cid (omega arith) in
      let bounded = v.bounded in
      (
        usable.0,
        omega arith,
        elim (Bool-cases (i == j)) [
          | inl this ↦ inl ((nat_beq_iff i j).0 this)
          | inr other ↦ inr λ same.
              let twice = found_twice i j w x m.workspaces at_i at_j (ground arith) same in
              let once = v.once w.vsock_cid in omega arith
        ],
      )

  -- After every history of calls, one after another, by which each new UUID was fresh, on a
  -- configuration whose first vsock identifier and limit of workspaces fit in 32 bits: two
  -- workspaces with the same name are the same one.
  pub Reachable-name :
      (i j : Uuid) (w x : Workspace)
      → Dict.lookup i m.workspaces ≡ some w
      → Dict.lookup j m.workspaces ≡ some x
      → w.name ≡ x.name
      → i ≡ j
  Reachable-name = (Reachable-Good uuid_text config m cids small history).named

  -- After every history of calls, one after another, by which each new UUID was fresh, on a
  -- configuration whose first vsock identifier and limit of workspaces fit in 32 bits: a
  -- stopped workspace has no process on record and no VM, so that it can be started again. If the network is set up and the
  -- process comes up, `start` succeeds: the workspace runs, with that process and TAP device and
  -- otherwise as it was, and it has a VM.
  pub Reachable-start :
      (id : Uuid) (w : Workspace) (a : StartAnswers) (tap : Str) (pid : ℕ)
      → Dict.lookup id m.workspaces ≡ some w
      → w.state ≡ stopped
      → a.tap ≡ some tap
      → a.rules ≡ true
      → a.pid ≡ some pid
      → (w.qemu_pid ≡ none)
        × (Set.contains id m.vms ≡ false)
        × ((start id a m).1 ≡ ok tt)
        × (Dict.lookup id (start id a m).0.workspaces
            ≡ some (record w { state = running; qemu_pid = some pid; tap_device = tap }))
        × (Set.contains id (start id a m).0.vms ≡ true)
  Reachable-start id w a tap pid found off tapped ruled up =
      let good = Reachable-Good uuid_text config m cids small history in
      let none_yet = good.halted id w found off in
      let (pid_of, room) =
        Dict.lookup-AllValues (λ w. HasPid w × HasRoom m.config w) id w m.workspaces good.sound
          found in
      let (done, now, there) = start_stopped id w a tap pid m found off none_yet tapped ruled up in
      (no_pid w off pid_of, none_yet, done, now, there)

  -- After every history of calls, one after another, by which each new UUID was fresh, on a
  -- configuration whose first vsock identifier and limit of workspaces fit in 32 bits: there
  -- are at most `max_workspaces` workspaces, each with at most `max_snapshots_per_workspace`
  -- snapshots.
  pub Reachable-max_workspaces :
      (length m.workspaces ≤ config.resources.max_workspaces)
      × Dict.AllValues
          (λ w. len w.snapshots ≤ config.resources.max_snapshots_per_workspace)
          m.workspaces
  Reachable-max_workspaces =
      let good = Reachable-Good uuid_text config m cids small history in
      let within = good.within in
      (
        rw good.configured at within,
        rooms_of config m.workspaces (rw good.configured at good.sound),
      )
