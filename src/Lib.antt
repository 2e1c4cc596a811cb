-- ===== src/Lib.antt =====
-- A verification library for agentiso, the daemon that gives coding agents virtual machines as
-- workspaces. It covers the parts that decide: who owns a workspace and may use which token, which
-- address a machine gets, which messages an agent receives, which configuration and which plans
-- are let through, which ready machine is handed out and how snapshots hang together.
--
-- The parts and their files:
-- Auth: agentiso/src/mcp/auth.rs. `AuthManager` is a record of the sessions and the bridge tokens;
-- each method (`register_session`, `register_workspace`, `check_quota`, `adopt_workspace`,
-- `purge_stale_sessions`, `generate_bridge_token`, `restore_sessions` and the rest) is a function
-- on it, which is one step because the method holds the locks. Auth/History has the steps as one
-- relation of calls. The clock and random bytes are arguments.
--
-- Network: agentiso/src/network/dhcp.rs. `IpAllocator` with `allocate`, `release` and
-- `mark_allocated`. The loop of `allocate` has 65536 rounds of fuel, one for each offset of the
-- /16; Network/Allocation and Network/Exhaustion treat both ways in which it ends.
--
-- Team: the names of agentiso/src/team/mod.rs, with the count of the machines below a team and the
-- checks of `create_team` (Team/Hierarchy, on the teams of the workspace manager; the count has a
-- round of fuel for each depth and one more; Team/Nesting, Team/Admission and Team/Growth treat the
-- count, the checks and the depths), and agentiso/src/team/message_relay.rs, the mailboxes of the
-- agents with their limits and the broadcasts to a team.
--
-- Team/Board: agentiso/src/team/task_board.rs. Task has the data, Markdown and Notes the notes in
-- which the vault keeps the tasks (YAML, the texts of times and `str::trim` are parameters, a
-- record of functions), Actions the claims and changes of status on the vault's notes by path (the
-- vault is not locked between the reading and the writing of a claim, so `claim_after` has the second
-- part by itself), and
-- Dependencies what is computed from the tasks that `list_tasks` gives. `dependency_order` has the
-- loops and the fuel of `validate_team_dag`.
--
-- Config: agentiso/src/config.rs. Every section with its defaults, the paths of datasets,
-- `Config::validate` and `Config::load`. Config/Guarantees reads the warm pool too.
--
-- Workspace: agentiso/src/workspace/pool.rs, the queue of ready machines, and snapshot.rs, the map
-- of snapshots with parent pointers. The loop of `ancestor_chain` has three rounds of fuel more
-- than there are snapshots; Workspace/Ancestors shows how it ends.
--
-- Workspace/Manager: agentiso/src/workspace/mod.rs, with what agentiso/src/network/mod.rs and
-- agentiso/src/vm/mod.rs do to the state behind it. State has the maps that the manager keeps: the
-- workspaces, the machines that run, the addresses, the vsock identifiers and the teams. Boot has
-- what `create`, `fork` and `replenish_pool` share; Create, Fork, Lifecycle and Policy have the
-- calls, each one step; what ZFS, QEMU, the kernel, nftables and the guest agent answer, the new
-- UUID and the time are arguments of the call, so that every way in which the layers below can
-- fail is a branch. The printing of UUIDs is a parameter. Calls has every call as one step
-- relation. Moves and the files up to Guarantees follow what a call does to the map of workspaces,
-- the Cid files who holds which vsock identifier, the Vm files which workspaces have no VM, and
-- History and Reached what follows for every history. The loop of `alloc_vsock_cid` has three rounds of fuel, for the reserved identifiers 0,
-- 1 and 2; where the allocator of addresses would loop for ever, the call ends in the error
-- `never_ends`. Calls that overlap are not modelled.
--
-- Orchestrate: the plans of agentiso/src/workspace/orchestrate.rs, with `validate_plan`,
-- `parse_team_plan` and the topological order of `validate_team_dag`. The loop over its queue has
-- a round of fuel for each task and one to stop; Orchestrate/Kahn follows the degrees that it
-- keeps.
--
-- Prelude: names of the standard libraries, tests, lists, equality, dictionaries and sets.
--
-- How they interact: the tools of the server ask Auth before they touch a workspace; the workspace
-- manager takes machines from the pool, addresses from the allocator and snapshots from the tree,
-- within the limits of the configuration; the team relay carries messages between the agents.
--
-- The model's data: a number is a natural, with the width of a machine integer written out where
-- the code computes (`u16`, `u32`, `u64` wrap); a text is its list of bytes; a hash map is its
-- entries in order of insertion and a hash set a list without repetitions, so that a result whose
-- order the code leaves open has one order here. Locks, logging and error texts are left out: an
-- error is a constructor with the values that its text shows.
--
-- Not modelled: the listing, numbering and index of the task board, the saving, loading and
-- cleaning up of the workspace manager and its calls that only pass a request to the guest agent,
-- teams beyond names, checks and messages, the rate limiter (floating point), ZFS, nftables, QEMU
-- and vsock (they run other programs), the wire protocol and the guest agent, the handlers of the
-- tools, the vault, the dashboard, the command line and the frontend.
pub mod Prelude
pub mod Auth
pub mod Network
pub mod Team
pub mod Config
pub mod Workspace
pub mod Orchestrate
