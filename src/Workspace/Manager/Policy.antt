-- ===== src/Workspace/Manager/Policy.antt =====
-- Port forwards and network policy of a workspace (agentiso/src/workspace/mod.rs). Whether nftables
-- took the change is an argument.
use agentiso.Prelude.{
  ℕ, Bool, not, Option, none, some, List, [], ◌∷◌, ◌++◌, nat_eq, ◌==◌, keep, if◌then◌else◌, Result,
  ok, err,
}
use agentiso.Prelude.Dict
use agentiso.Workspace.Snapshots.{Uuid}
use agentiso.Workspace.Manager.State.{
  PortForward, WorkspaceManager, ManagerError, not_found, network_failed, update,
}
use agentiso.Workspace.Manager.Boot.{unwrap_or}

-- The host port is the guest's if none is asked for.
unfoldable pub port_forward_add :
    Uuid
    → (guest_port : ℕ) → (host_port : Option ℕ) → (applied : Bool) → WorkspaceManager
    → WorkspaceManager × Result ManagerError ℕ
port_forward_add id guest_port host_port applied m = elim (Dict.lookup id m.workspaces) [
  | none ↦ (m, err (not_found id))
  | some w ↦
      let forward : PortForward = record {
        host_port = unwrap_or guest_port host_port;
        guest_port = guest_port;
      } in
      if applied
      then (
        update id
            (λ w. record w {
              network = record w.network {
                port_forwards = w.network.port_forwards ++ forward ∷ [];
              };
            })
            m,
        ok (unwrap_or guest_port host_port),
      )
      else (m, err network_failed)
]

unfoldable pub port_forward_remove :
    Uuid
    → (guest_port : ℕ) → (applied : Bool) → WorkspaceManager
    → WorkspaceManager × Result ManagerError (Unit {0})
port_forward_remove id guest_port applied m = elim (Dict.lookup id m.workspaces) [
  | none ↦ (m, err (not_found id))
  | some w ↦
      if applied
      then (
        update id
            (λ w. record w {
              network = record w.network {
                port_forwards =
                    keep (λ pf. not (pf.guest_port == guest_port)) w.network.port_forwards;
              };
            })
            m,
        ok tt,
      )
      else (m, err network_failed)
]

-- What is not asked for stays. A guest whose DNS cannot be changed is only logged.
unfoldable pub update_network_policy :
    Uuid
    → (allow_internet allow_inter_vm : Option Bool) → (allowed_ports : Option (List ℕ))
    → (applied : Bool) → WorkspaceManager
    → WorkspaceManager × Result ManagerError (Unit {0})
update_network_policy id allow_internet allow_inter_vm allowed_ports applied m =
    elim (Dict.lookup id m.workspaces) [
      | none ↦ (m, err (not_found id))
      | some old ↦
          if applied
          then (
            update id
                (λ w. record w {
                  network = record w.network {
                    allow_internet = unwrap_or old.network.allow_internet allow_internet;
                    allow_inter_vm = unwrap_or old.network.allow_inter_vm allow_inter_vm;
                    allowed_ports = unwrap_or old.network.allowed_ports allowed_ports;
                  };
                })
                m,
            ok tt,
          )
          else (m, err network_failed)
    ]
