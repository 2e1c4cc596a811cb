-- ===== src/Team/Hierarchy.antt =====
-- The hierarchy of teams and the checks before a team is created (agentiso/src/team/mod.rs).
use agentiso.Prelude.{
  ℕ, zero, suc, ◌+◌, Bool, false, Option, none, some, List, [], ◌∷◌, Str, str_eq, nat_eq, ◌==◌, ltb,
  length, if◌then◌else◌, Result, ok, err, fail_if, ◌>>◌,
}
use agentiso.Prelude.Word.{u32, u64}
use agentiso.Prelude.Dict.{Dict}
use agentiso.Prelude.Dict
use agentiso.Config.Sections.{Config}
use agentiso.Workspace.Manager.State.{TeamState, WorkspaceManager, workspace_count, get_team}
use agentiso.Team.Names.{NameError, validate_name, validate_role_name}

-- `t.parent_team.as_deref() == Some(name)`
abbrev pub is_child_of : Str → TeamState → Bool
is_child_of name t = elim t.parent_team [ none ↦ false | some parent ↦ parent == name ]

-- The sum over the teams below one; `none` if a part of it does not end.
unfoldable pub sum_children : (Str → Option ℕ) → Str → Dict Str TeamState → Option ℕ
sum_children count name [] = some 0
sum_children count name ((key, t) ∷ rest) =
    let later = sum_children count name rest in
    if is_child_of name t
    then (elim (count t.name) [
      | none ↦ none
      | some n ↦ elim later [ none ↦ none | some m ↦ some (u64 (n + m)) ]
    ])
    else later

-- The recursion has fuel: the code's ends only if no team is above itself.
unfoldable pub total_vm_count_recursive : (fuel : ℕ) → Dict Str TeamState → Str → Option ℕ
unfolding sum_children
total_vm_count_recursive zero teams name = none
total_vm_count_recursive (suc fuel) teams name = elim (Dict.lookup name teams) [
  | none ↦ some 0
  | some team ↦ elim (sum_children (total_vm_count_recursive fuel teams) name teams) [
    | none ↦ none
    | some sub_total ↦ some (u64 (length team.member_workspace_ids + sub_total))
  ]
]

pub data TeamError : Type 0 where
  bad_name : NameError → TeamError
  already_exists no_parent : Str → TeamError
  too_deep : (depth limit : ℕ) → TeamError
  over_budget : (used new max_vms : ℕ) → TeamError
  over_team_cap over_total over_workspaces : (count limit : ℕ) → TeamError

abbrev pub name_checked {ℓ} : {A : Type ℓ} → Result NameError A → Result TeamError A
name_checked (ok a) = ok a
name_checked (err e) = err (bad_name e)

unfoldable pub check_role_names : List Str → Result TeamError (Unit {0})
unfolding validate_role_name
check_role_names [] = ok tt
check_role_names (role ∷ roles) =
    let later = check_role_names roles in name_checked (validate_role_name role) >> later

-- The depth under a parent, and whether its budget is enough; `used` is the count of its VMs.
unfoldable pub check_parent :
    Config → (parent : TeamState) → (used roles_count : ℕ) → Result TeamError ℕ
check_parent config parent used roles_count = do
  fail_if (ltb config.resources.max_nesting_depth (u32 (parent.nesting_depth + 1)))
      (too_deep (u32 (parent.nesting_depth + 1)) config.resources.max_nesting_depth)
  fail_if (ltb parent.max_vms (u32 (u32 used + roles_count)))
      (over_budget (u32 used) roles_count parent.max_vms)
  ok (u32 (parent.nesting_depth + 1))

-- The caps on a team and on the whole; `existing` is the number of workspaces.
unfoldable pub check_caps : Config → (existing roles_count : ℕ) → Result TeamError (Unit {0})
check_caps config existing roles_count = do
  fail_if (ltb config.resources.max_vms_per_team roles_count)
      (over_team_cap roles_count config.resources.max_vms_per_team)
  fail_if (ltb config.resources.max_total_vms (u32 (existing + roles_count)))
      (over_total (u32 (existing + roles_count)) config.resources.max_total_vms)
  fail_if (ltb config.resources.max_workspaces (u32 (existing + roles_count)))
      (over_workspaces (u32 (existing + roles_count)) config.resources.max_workspaces)

-- The nesting depth: 0 without a parent. The count has a round of fuel for each depth that a team may
-- have, and one for a child that is not registered.
unfoldable pub nesting_depth_of :
    (parent_team : Option Str) → (roles_count : ℕ) → WorkspaceManager → Option (Result TeamError ℕ)
unfolding total_vm_count_recursive check_parent get_team
nesting_depth_of none roles_count m = some (ok 0)
nesting_depth_of (some name) roles_count m = elim (get_team name m) [
  | none ↦ some (err (no_parent name))
  | some parent ↦
      elim (total_vm_count_recursive (suc (suc m.config.resources.max_nesting_depth)) m.teams
        name) [ none ↦ none | some used ↦ some (check_parent m.config parent used roles_count) ]
]

-- The names, and that there is no such team.
unfoldable pub check_new :
    (name : Str) → (roles : List Str) → WorkspaceManager → Result TeamError (Unit {0})
unfolding validate_name check_role_names get_team
check_new name roles m = do
  name_checked (validate_name name)
  check_role_names roles
  elim (get_team name m) [ none ↦ ok tt | some team ↦ err (already_exists name) ]

-- The checks of `create_team`, up to the registration of the team; the answer is its depth.
unfoldable pub check_team :
    (name : Str)
    → (roles : List Str) → (parent_team : Option Str) → WorkspaceManager
    → Option (Result TeamError ℕ)
unfolding check_new nesting_depth_of check_caps
check_team name roles parent_team m = elim (check_new name roles m) [
  | err e ↦ some (err e)
  | ok u ↦ elim (nesting_depth_of parent_team (u32 (length roles)) m) [
    | none ↦ none
    | some (err e) ↦ some (err e)
    | some (ok depth) ↦ elim (check_caps m.config (workspace_count m) (u32 (length roles))) [
      | err e ↦ some (err e)
      | ok u ↦ some (ok depth)
    ]
  ]
]
