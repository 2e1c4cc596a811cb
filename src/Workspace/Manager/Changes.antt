-- ===== src/Workspace/Manager/Changes.antt =====
-- What the operations on one workspace (agentiso/src/workspace/mod.rs) do to the map of workspaces.
use agentiso.Prelude.{
  ℕ, ◌≡◌, refl, sym, Bool, true, false, ◌||◌, Option, none, some, List, Str, nat_eq, str_eq, ◌==◌,
  leb, Bool-cases, Option-cases, inl, inr,
}
use agentiso.Prelude.Dict.{Dict}
use agentiso.Prelude.Dict
use agentiso.Config.Sections.{Config}
use agentiso.Workspace.Snapshots.{Uuid}
use agentiso.Workspace.Manager.State.{
  Workspace, WorkspaceState, stopped, running, suspended, same_state, WorkspaceManager, modify,
  update, recycle_vsock_cid, u32_max,
}
use agentiso.Workspace.Manager.Host.{launch, stop_vm}
use agentiso.Workspace.Manager.Lifecycle.{
  StartAnswers, destroy, stop, start, start_from, launched_again, launch_again,
}
use agentiso.Workspace.Manager.Calls.{Call, destroys, stops, starts}
use agentiso.Workspace.Manager.Moves.{
  Moves, stays, is_stopped, is_started, HasPid, Stepped, Changed, same, stepped, left, Changes,
  update-Changes,
}

pub same_state_sound : (s t : WorkspaceState) → same_state s t ≡ true → s ≡ t
unfolding same_state
same_state_sound stopped stopped e = refl
same_state_sound stopped running e = absurd (cc)
same_state_sound stopped suspended e = absurd (cc)
same_state_sound running stopped e = absurd (cc)
same_state_sound running running e = refl
same_state_sound running suspended e = absurd (cc)
same_state_sound suspended stopped e = absurd (cc)
same_state_sound suspended running e = absurd (cc)
same_state_sound suspended suspended e = refl

-- A change that keeps the name, the process and the snapshots.
module _ (config : Config) (c : Call) (id : Uuid) (w x : Workspace) (named : x.name ≡ w.name)
    (tree : x.snapshots ≡ w.snapshots) where
  pub moved-Stepped :
      Moves c id (some w.state) (some x.state) → (HasPid w → HasPid x) → Stepped config c id w x
  moved-Stepped moves pid = record {
    named = named;
    moves = moves;
    pid = pid;
    room = λ fits. rw tree fits;
  }

  pub kept-Stepped : x.state ≡ w.state → x.qemu_pid ≡ w.qemu_pid → Stepped config c id w x
  kept-Stepped state pid = moved-Stepped (rw state stays) (λ h. rw (pid, state) h)

pub destroy-Changes : (id : Uuid) (m : WorkspaceManager) → Changes (destroys id) m (destroy id m).0
unfolding destroy recycle_vsock_cid
destroy-Changes id m = elim (Option-cases (Dict.lookup id m.workspaces)) [
  | inl absent ↦ rw (absent, destroy) same
  | inr (w, found) ↦ elim (Bool-cases (leb w.vsock_cid 2 || w.vsock_cid == u32_max)) [
    | inl reserved ↦ rw (found, reserved, destroy, recycle_vsock_cid) (left id w found)
    | inr usable ↦ rw (found, usable, destroy, recycle_vsock_cid) (left id w found)
  ]
]

pub stop-Changes : (id : Uuid) (m : WorkspaceManager) → Changes (stops id) m (stop id m).0
unfolding stop same_state
stop-Changes id m = elim (Option-cases (Dict.lookup id m.workspaces)) [
  | inl absent ↦ rw (absent, stop) same
  | inr (w, found) ↦ elim (Bool-cases (same_state w.state running)) [
    | inr other ↦ rw (found, stop, other) same
    | inl up ↦
        let f : Workspace → Workspace = λ w. record w { state = stopped; qemu_pid = none } in
        let was : w.state ≡ running = same_state_sound w.state running up in
        rw (found, stop, up)
          (update-Changes (stops id) id f (record m { vms = stop_vm id m.vms }) w found
            (moved-Stepped m.config (stops id) id w (f w) refl refl (rw was is_stopped)
              (λ h. refl)))
  ]
]

modify_there :
    (id : Uuid) (f : Workspace → Workspace) (x : Workspace) (before ws : Dict Uuid Workspace)
    → ws ≡ Dict.insert id x before
    → modify id f ws ≡ Dict.insert id (f x) before
modify_there id f x before ws now =
    rw (now, modify, Dict.lookup-insert_self id x before, now, Dict.insert-insert id (f x) x before)

-- `start` on a workspace that the call may have changed before.
module _ (c : Call) (id : Uuid) (ws : Dict Uuid Workspace) (w x : Workspace)
    (found : Dict.lookup id ws ≡ some w) where
  launched_again-Changes :
      (m : WorkspaceManager) (p : List Uuid × Option ℕ)
      → m.workspaces ≡ Dict.insert id x ws
      → Stepped m.config c id w x
      → Moves c id (some w.state) (some running)
      → Changed c m.config ws (launched_again id m p).0.config (launched_again id m p).0.workspaces
  unfolding same_state
  launched_again-Changes m (vms, none) now before up = rw now (stepped id w x found before)
  launched_again-Changes m (vms, some pid) now before up =
      let f : Workspace → Workspace = λ w. record w { state = running; qemu_pid = some pid } in
      rw (modify_there id f x ws m.workspaces now) (
        stepped id w (f x) found
          (record { named = before.named; moves = up; pid = λ h. refl; room = before.room }))

module _ (c : Call) (id : Uuid) (a : StartAnswers) (ws : Dict Uuid Workspace) (w x : Workspace)
    (found : Dict.lookup id ws ≡ some w) where
  start_from-Changes :
      (m : WorkspaceManager) (state : WorkspaceState) (tap : Option Str) (rules : Bool)
      → m.workspaces ≡ Dict.insert id x ws
      → Stepped m.config c id w x
      → (state ≡ stopped → Moves c id (some w.state) (some running))
      → Changed c m.config ws
          (start_from id a.pid m state tap rules).0.config
          (start_from id a.pid m state tap rules).0.workspaces
  unfolding launch_again
  start_from-Changes m running tap rules now before up = rw now (stepped id w x found before)
  start_from-Changes m suspended tap rules now before up = rw now (stepped id w x found before)
  start_from-Changes m stopped none rules now before up = rw now (stepped id w x found before)
  start_from-Changes m stopped (some tap) false now before up = rw now (stepped id w x found before)
  start_from-Changes m stopped (some tap) true now before up =
      let f : Workspace → Workspace = λ w. record w { tap_device = tap } in
      let m1 : WorkspaceManager = update id f m in
      let tapped : m1.workspaces ≡ Dict.insert id (f x) ws =
        modify_there id f x ws m.workspaces now in
      launched_again-Changes c id ws w (f x) found m1 (launch id a.pid m1.vms) tapped
        (record {
          named = before.named;
          moves = before.moves;
          pid = before.pid;
          room = before.room;
        })
        (up refl)

  pub started-Changes :
      (m : WorkspaceManager)
      → m.workspaces ≡ Dict.insert id x ws
      → Stepped m.config c id w x
      → (x.state ≡ stopped → Moves c id (some w.state) (some running))
      → Changed c m.config ws (start id a m).0.config (start id a m).0.workspaces
  unfolding start
  started-Changes m now before up =
      let here : Dict.lookup id m.workspaces ≡ some x = rw (now, Dict.lookup-insert_self id x ws) in
      rw (here, start) (start_from-Changes m x.state a.tap a.rules now before up)

pub absent_start :
    (c : Call) (id : Uuid) (a : StartAnswers) (m : WorkspaceManager)
    → Dict.lookup id m.workspaces ≡ none
    → Changes c m (start id a m).0
unfolding start
absent_start c id a m absent = rw (absent, start) same

pub start-Changes :
    (id : Uuid) (a : StartAnswers) (m : WorkspaceManager) → Changes (starts id a) m (start id a m).0
start-Changes id a m = elim (Option-cases (Dict.lookup id m.workspaces)) [
  | inl absent ↦ absent_start (starts id a) id a m absent
  | inr (w, found) ↦
      started-Changes (starts id a) id a m.workspaces w w found m
        (sym (Dict.insert-lookup id w m.workspaces found))
        (kept-Stepped m.config (starts id a) id w w refl refl refl refl) (λ was. rw was is_started)
]
