-- ===== src/Workspace/Manager/Settings.antt =====
-- What suspending, resuming, the network policy and the team (agentiso/src/workspace/mod.rs) do to
-- the map of workspaces.
use agentiso.Prelude.{
  ℕ, ◌≡◌, refl, Bool, true, not, Option, List, [], ◌∷◌, ◌++◌, Str, nat_eq, str_eq, ◌==◌, keep,
  Bool-cases, Option-cases, inl, inr,
}
use agentiso.Prelude.Dict.{Dict}
use agentiso.Prelude.Dict
use agentiso.Prelude.Set
use agentiso.Workspace.Snapshots.{Uuid}
use agentiso.Workspace.Manager.State.{
  Workspace, running, suspended, same_state, PortForward, WorkspaceManager, set_workspace_team_id,
}
use agentiso.Workspace.Manager.Boot.{unwrap_or}
use agentiso.Workspace.Manager.Lifecycle.{suspend, resume}
use agentiso.Workspace.Manager.Policy.{port_forward_add, port_forward_remove, update_network_policy}
use agentiso.Workspace.Manager.Calls.{
  suspends, resumes, adds_forward, removes_forward, sets_policy, sets_team,
}
use agentiso.Workspace.Manager.Moves.{is_suspended, is_resumed, same, Changes, update-Changes}
use agentiso.Workspace.Manager.Changes.{same_state_sound, moved-Stepped, kept-Stepped}

pub suspend-Changes :
    (id : Uuid) (paused : Bool) (m : WorkspaceManager)
    → Changes (suspends id paused) m (suspend id paused m).0
unfolding suspend same_state
suspend-Changes id paused m = elim (Option-cases (Dict.lookup id m.workspaces)) [
  | inl absent ↦ rw (absent, suspend) same
  | inr (w, found) ↦ elim (Bool-cases (same_state w.state running)) [
    | inr other ↦ rw (found, suspend, other) same
    | inl up ↦ elim (Bool-cases (Set.contains id m.vms)) [
      | inr lost ↦ rw (found, suspend, up, lost) same
      | inl here ↦ elim (Bool-cases paused) [
        | inr failed ↦ rw (found, suspend, up, here, failed) same
        | inl done ↦
            let f : Workspace → Workspace = λ w. record w { state = suspended } in
            let was : w.state ≡ running = same_state_sound w.state running up in
            rw (found, suspend, up, here, done)
              (update-Changes (suspends id true) id f m w found (
                moved-Stepped m.config (suspends id true) id w (f w) refl refl (rw was is_suspended)
                  (λ h. rw was at h)))
      ]
    ]
  ]
]

pub resume-Changes :
    (id : Uuid) (resumed : Bool) (m : WorkspaceManager)
    → Changes (resumes id resumed) m (resume id resumed m).0
unfolding resume same_state
resume-Changes id resumed m = elim (Option-cases (Dict.lookup id m.workspaces)) [
  | inl absent ↦ rw (absent, resume) same
  | inr (w, found) ↦ elim (Bool-cases (same_state w.state suspended)) [
    | inr other ↦ rw (found, resume, other) same
    | inl asleep ↦ elim (Bool-cases (Set.contains id m.vms)) [
      | inr lost ↦ rw (found, resume, asleep, lost) same
      | inl here ↦ elim (Bool-cases resumed) [
        | inr failed ↦ rw (found, resume, asleep, here, failed) same
        | inl done ↦
            let f : Workspace → Workspace = λ w. record w { state = running } in
            let was : w.state ≡ suspended = same_state_sound w.state suspended asleep in
            rw (found, resume, asleep, here, done)
              (update-Changes (resumes id true) id f m w found (
                moved-Stepped m.config (resumes id true) id w (f w) refl refl (rw was is_resumed)
                  (λ h. rw was at h)))
      ]
    ]
  ]
]

pub port_forward_add-Changes :
    (id : Uuid) (guest : ℕ) (host : Option ℕ) (applied : Bool) (m : WorkspaceManager)
    → Changes (adds_forward id guest host applied) m (port_forward_add id guest host applied m).0
unfolding port_forward_add
port_forward_add-Changes id guest host applied m =
    elim (Option-cases (Dict.lookup id m.workspaces)) [
      | inl absent ↦ rw (absent, port_forward_add) same
      | inr (old, found) ↦ elim (Bool-cases applied) [
        | inr failed ↦ rw (found, failed, port_forward_add) same
        | inl done ↦
            let forward : PortForward = record {
              host_port = unwrap_or guest host;
              guest_port = guest;
            } in
            let f : Workspace → Workspace = λ w. record w {
              network = record w.network {
                port_forwards = w.network.port_forwards ++ forward ∷ [];
              };
            } in
            rw (found, done, port_forward_add)
              (update-Changes (adds_forward id guest host true) id f m old found (
                kept-Stepped m.config (adds_forward id guest host true) id old (f old) refl refl
                  refl refl))
      ]
    ]

pub port_forward_remove-Changes :
    (id : Uuid) (guest : ℕ) (applied : Bool) (m : WorkspaceManager)
    → Changes (removes_forward id guest applied) m (port_forward_remove id guest applied m).0
unfolding port_forward_remove
port_forward_remove-Changes id guest applied m = elim (Option-cases (Dict.lookup id m.workspaces)) [
  | inl absent ↦ rw (absent, port_forward_remove) same
  | inr (old, found) ↦ elim (Bool-cases applied) [
    | inr failed ↦ rw (found, failed, port_forward_remove) same
    | inl done ↦
        let f : Workspace → Workspace = λ w. record w {
          network = record w.network {
            port_forwards = keep (λ pf. not (pf.guest_port == guest)) w.network.port_forwards;
          };
        } in
        rw (found, done, port_forward_remove)
          (update-Changes (removes_forward id guest true) id f m old found (
            kept-Stepped m.config (removes_forward id guest true) id old (f old) refl refl refl
              refl))
  ]
]

pub update_network_policy-Changes :
    (id : Uuid) (internet inter_vm : Option Bool) (ports : Option (List ℕ)) (applied : Bool)
    (m : WorkspaceManager)
    → Changes
        (sets_policy id internet inter_vm ports applied)
        m
        (update_network_policy id internet inter_vm ports applied m).0
unfolding update_network_policy
update_network_policy-Changes id internet inter_vm ports applied m =
    elim (Option-cases (Dict.lookup id m.workspaces)) [
      | inl absent ↦ rw (absent, update_network_policy) same
      | inr (old, found) ↦ elim (Bool-cases applied) [
        | inr failed ↦ rw (found, failed, update_network_policy) same
        | inl done ↦
            let f : Workspace → Workspace = λ w. record w {
              network = record w.network {
                allow_internet = unwrap_or old.network.allow_internet internet;
                allow_inter_vm = unwrap_or old.network.allow_inter_vm inter_vm;
                allowed_ports = unwrap_or old.network.allowed_ports ports;
              };
            } in
            rw (found, done, update_network_policy)
              (update-Changes (sets_policy id internet inter_vm ports true) id f m old found (
                kept-Stepped m.config (sets_policy id internet inter_vm ports true) id old (f old)
                  refl refl refl refl))
      ]
    ]

pub set_workspace_team_id-Changes :
    (id : Uuid) (team : Option Str) (m : WorkspaceManager)
    → Changes (sets_team id team) m (set_workspace_team_id id team m).0
unfolding set_workspace_team_id
set_workspace_team_id-Changes id team m = elim (Option-cases (Dict.lookup id m.workspaces)) [
  | inl absent ↦ rw (absent, set_workspace_team_id) same
  | inr (old, found) ↦
      let f : Workspace → Workspace = λ w. record w { team_id = team } in
      rw (found, set_workspace_team_id)
        (update-Changes (sets_team id team) id f m old found
          (kept-Stepped m.config (sets_team id team) id old (f old) refl refl refl refl))
]
