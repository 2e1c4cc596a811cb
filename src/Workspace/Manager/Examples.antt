-- ===== src/Workspace/Manager/Examples.antt =====
-- The workspace manager at concrete histories of calls.
use agentiso.Prelude.{
  ◌+◌, ◌-◌, ◌^◌, ◌≡◌, ◌≢◌, ◌⊎◌, ◌≤◌, ◌<◌, refl, true, false, ok, none, some, [], ◌∷◌, ◌++◌, Str,
  codes, nat_eq, str_eq, str_beq, length, arith,
}
use agentiso.Prelude.Dict
use agentiso.Prelude.Set
use agentiso.Config.Sections.{default_config, default_pool}
use agentiso.Network.Ip.{IpAllocator, allocate, allocate_loop}
use agentiso.Network.Ip
use agentiso.Workspace.Pool.{enabled, claim}
use agentiso.Workspace.Pool
use agentiso.Workspace.Snapshots.{Uuid, len}
use agentiso.Workspace.Manager.State.{
  Workspace, stopped, running, suspended, same_state, WorkspaceManager, CreateParams, new,
  is_valid_workspace_name, name_used, alloc_vsock_cid, take_cid,
}
use agentiso.Workspace.Manager.Host.{setup_workspace, launch, stop_vm}
use agentiso.Workspace.Manager.Boot.{Answers}
use agentiso.Workspace.Manager.Create.{create, resolve, workspace_of}
use agentiso.Workspace.Manager.Lifecycle.{StartAnswers, suspend, stop, start}
use agentiso.Workspace.Manager.Calls.{creates, stops, suspends, step}
use agentiso.Workspace.Manager.Moves.{Moves, state_of}
use agentiso.Workspace.Manager.History.{Reachable, started, called, step-Moves}
use agentiso.Workspace.Manager.Reached.{
  Reachable-vsock_cid, Reachable-name, Reachable-start, Reachable-max_workspaces,
}

-- A printing of UUIDs with the last digit only.
abbrev uuid_text : Uuid → Str
uuid_text id = codes "0000000" ++ (48 + id) ∷ []

abbrev params : Str → CreateParams
params name = record {
  name = some name;
  base_image = none;
  vcpus = none;
  memory_mb = none;
  disk_gb = none;
  allow_internet = none;
}

-- Every layer below answers well.
abbrev answers : Uuid → Answers
answers id = record {
  id = id;
  storage = some (codes "tank/forks/ws", codes "/dev/zvol/ws");
  tap = some (codes "tap-0");
  rules = true;
  pid = some (1000 + id);
  vsock = true;
  configured = true;
  vsock_again = true;
  killed = true;
  now = id;
}

at_start : WorkspaceManager
at_start =
    new default_config (Ip.new (record { a = 10; b = 99; c = 0; d = 1 })) (Pool.new default_pool)

with_web : WorkspaceManager
with_web = step uuid_text (creates (params (codes "web")) (answers 1)) at_start

with_both : WorkspaceManager
with_both = step uuid_text (creates (params (codes "db")) (answers 2)) with_web

-- The two workspaces that the history makes.
abbrev made : Str → Uuid → Workspace
made name id =
    workspace_of uuid_text (resolve uuid_text (params name) id default_config) (answers id)
      default_config (codes "tank/forks/ws")
      (record {
        tap_device = codes "tap-0";
        guest_ip = record { a = 10; b = 99; c = 0; d = 1 + id };
      })
      (99 + id) (1000 + id)

abbrev web : Workspace
web = made (codes "web") 1

abbrev db : Workspace
db = made (codes "db") 2

program : Unit {0}
unfolding at_start with_web with_both new Ip.new Pool.new step state_of create
    is_valid_workspace_name name_used enabled claim setup_workspace allocate allocate_loop
    alloc_vsock_cid take_cid launch suspend same_state str_beq Set.contains Set.insert Dict.insert
    Dict.lookup
program = tt

history : Reachable uuid_text default_config with_both
unfolding program
history = called (creates (params (codes "db")) (answers 2)) with_web refl (
    called (creates (params (codes "web")) (answers 1)) at_start refl
      (started (Ip.new (record { a = 10; b = 99; c = 0; d = 1 })) default_pool))

find_web : Dict.lookup 1 with_both.workspaces ≡ some web
unfolding program
find_web = refl

find_db : Dict.lookup 2 with_both.workspaces ≡ some db
unfolding program
find_db = refl

Reachable-vsock_cid_example :
    (3 ≤ 100) × (100 < 2 ^ 32 - 1) × ((web.id ≡ db.id) ⊎ (web.vsock_cid ≢ db.vsock_cid))
Reachable-vsock_cid_example =
    Reachable-vsock_cid uuid_text default_config with_both (omega arith) (omega arith) history 1 2
      web db find_web find_db

Reachable-name_example : web.id ≡ web.id
Reachable-name_example =
    Reachable-name uuid_text default_config with_both (omega arith) (omega arith) history 1 1 web
      web find_web find_web refl

-- The web workspace is stopped.
web_off : WorkspaceManager
web_off = step uuid_text (stops 1) with_both

find_web_off :
    Dict.lookup 1 web_off.workspaces ≡ some (record web { state = stopped; qemu_pid = none })
unfolding program web_off stop stop_vm Set.remove
find_web_off = refl

-- What the layers below answer when it is started again.
abbrev second_start : StartAnswers
second_start = record { tap = some (codes "tap-7"); rules = true; pid = some 77 }

Reachable-start_example :
    let (m, answer) = start 1 second_start web_off in
    ((record web { state = stopped; qemu_pid = none }).qemu_pid ≡ none)
    × (Set.contains 1 web_off.vms ≡ false)
    × (answer ≡ ok tt)
    × (Dict.lookup 1 m.workspaces
        ≡ some (record web { state = running; qemu_pid = some 77; tap_device = codes "tap-7" }))
    × (Set.contains 1 m.vms ≡ true)
unfolding web_off
Reachable-start_example =
    Reachable-start uuid_text default_config web_off (omega arith) (omega arith)
      (called (stops 1) with_both tt history) 1 (record web { state = stopped; qemu_pid = none })
      second_start (codes "tap-7") 77 find_web_off refl refl refl refl

Reachable-max_workspaces_example :
    (length with_both.workspaces ≤ 50)
    × Dict.AllValues (λ (w : Workspace). len w.snapshots ≤ 20) with_both.workspaces
Reachable-max_workspaces_example =
    Reachable-max_workspaces uuid_text default_config with_both (omega arith) (omega arith) history

step-Moves_example :
    Moves
      (suspends 1 true)
      1
      (state_of 1 with_both)
      (state_of 1 (step uuid_text (suspends 1 true) with_both))
step-Moves_example = step-Moves uuid_text (suspends 1 true) with_both 1 tt

suspends_web : state_of 1 (step uuid_text (suspends 1 true) with_both) ≡ some suspended
unfolding program
suspends_web = refl
