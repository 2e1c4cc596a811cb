-- ===== src/Team/HierarchyExamples.antt =====
-- The hierarchy of teams at concrete inputs.
use agentiso.Prelude.{
  ℕ, ◌≡◌, ◌↔◌, Result, refl, Option, none, some, List, [], ◌∷◌, Str, codes, str_eq, str_beq,
  str_beq_iff, nat_eq, ok, arith,
}
use agentiso.Prelude.Dict.{Dict}
use agentiso.Prelude.Dict
use agentiso.Config.Sections.{default_config, default_pool}
use agentiso.Network.Ip
use agentiso.Workspace.Pool
use agentiso.Workspace.Manager.State.{
  TeamState, ready, WorkspaceManager, get_team, new, register_team,
}
use agentiso.Team.Names.{validate_name, validate_role_name}
use agentiso.Team.Hierarchy.{
  TeamError, sum_children, total_vm_count_recursive, check_new, check_role_names, check_parent,
  check_caps, nesting_depth_of, check_team,
}
use agentiso.Team.Nesting.{IsNested, total_vm_count_recursive_total}
use agentiso.Team.Admission.{IsAllowed, check_team_iff}
use agentiso.Team.Growth.{Unknown, register_team-IsNested}

abbrev team : Str → Option Str → (depth : ℕ) → List ℕ → TeamState
team name parent depth members = record {
  name = name;
  state = ready;
  member_workspace_ids = members;
  created_at = 0;
  parent_team = parent;
  max_vms = 10;
  nesting_depth = depth;
}

-- A team of two with a team of three below it.
abbrev teams : Dict Str TeamState
teams =
    (codes "core", team (codes "core") none 0 (1 ∷ 2 ∷ []))
    ∷ (codes "docs", team (codes "docs") (some (codes "core")) 1 (3 ∷ 4 ∷ 5 ∷ []))
    ∷ []

manager : WorkspaceManager
manager =
    record (new default_config (Ip.new (record { a = 10; b = 99; c = 0; d = 1 }))
      (Pool.new default_pool)) { teams = teams }

program : Unit {0}
unfolding manager new Ip.new Pool.new total_vm_count_recursive sum_children check_team check_new
    check_role_names check_parent check_caps nesting_depth_of get_team validate_name
    validate_role_name Dict.lookup str_beq
program = tt

all_members : total_vm_count_recursive 3 teams (codes "core") ≡ some 5
unfolding program
all_members = refl

sub_team :
    check_team (codes "tests") (codes "coder" ∷ []) (some (codes "core")) manager ≡ some (ok 1)
unfolding program
sub_team = refl

teams-IsNested : IsNested 1 teams
unfolding Dict.lookup str_beq
teams-IsNested = record {
  deeper = (
    λ name t child below at_name at_child. ground (arith, str_beq_iff name (codes "core")),
    (λ name t child below at_name at_child. ground (arith, str_beq_iff (codes "core") name), tt),
  );
  bounded = λ name t found. ground arith;
}

manager-IsNested : IsNested 3 manager.teams
unfolding manager new
manager-IsNested = record {
  deeper = teams-IsNested.deeper;
  bounded = λ name t found. omega (arith, teams-IsNested.bounded name t found);
}

tests-Unknown : Dict.AllValues (Unknown (codes "tests")) manager.teams
unfolding program
tests-Unknown = ((ground arith, refl), ((ground arith, refl), tt))

total_vm_count_recursive_total_example :
    (n : ℕ) × (total_vm_count_recursive 3 teams (codes "core") ≡ some n)
total_vm_count_recursive_total_example =
    total_vm_count_recursive_total 1 teams (codes "core") teams-IsNested

check_team_iff_example :
    (r : Result TeamError ℕ) × (check_team
        (codes "tests")
        (codes "coder" ∷ [])
        (some (codes "core"))
        manager
      ≡ some r)
    × ((r ≡ ok 1) ↔ IsAllowed (codes "tests") (codes "coder" ∷ []) (some (codes "core")) manager 1)
unfolding manager new
check_team_iff_example =
    check_team_iff (codes "tests") (codes "coder" ∷ []) (some (codes "core")) manager 1
      manager-IsNested

register_team-IsNested_example :
    IsNested 3 (register_team (team (codes "tests") (some (codes "core")) 1 []) manager).teams
unfolding manager new
register_team-IsNested_example =
    register_team-IsNested (team (codes "tests") (some (codes "core")) 1 []) (codes "coder" ∷ [])
      manager (omega arith) manager-IsNested tests-Unknown sub_team
