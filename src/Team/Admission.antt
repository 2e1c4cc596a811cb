-- ===== src/Team/Admission.antt =====
-- Which teams pass the checks of `create_team` (agentiso/src/team/mod.rs).
use agentiso.Prelude.{
  ℕ, suc, ◌+◌, ◌≡◌, ◌↔◌, ◌≤◌, refl, Option, none, some, List, [], ◌∷◌, Str, str_eq, length, All,
  Option-cases, Result-cases, Result, inl, inr, ok, err, arith,
}
use agentiso.Prelude.Word.{u32}
use agentiso.Config.Sections.{Config}
use agentiso.Workspace.Manager.State.{TeamState, WorkspaceManager, workspace_count, get_team}
use agentiso.Team.Names.{validate_name, validate_role_name}
use agentiso.Team.Hierarchy.{
  TeamError, no_parent, total_vm_count_recursive, check_parent, check_caps, nesting_depth_of,
  check_role_names, check_new, check_team,
}
use agentiso.Team.Nesting.{IsNested, total_vm_count_recursive_total}

-- What a depth means for the parent that is asked for: none, or a team that is not too deep for a
-- sub-team and whose budget has room for the new members beside all VMs below it.
abbrev pub UnderParent : Option Str → (roles_count : ℕ) → (depth : ℕ) → WorkspaceManager → Type 0
UnderParent none roles_count depth m = depth ≡ 0
UnderParent (some name) roles_count depth m =
    (parent : TeamState) × (used : ℕ) × (get_team name m ≡ some parent)
    × (total_vm_count_recursive (suc (suc m.config.resources.max_nesting_depth)) m.teams name
        ≡ some used)
    × (depth ≡ u32 (parent.nesting_depth + 1))
    × (depth ≤ m.config.resources.max_nesting_depth)
    × (u32 (u32 used + roles_count) ≤ parent.max_vms)

-- A team that may be created. The sums are the code's, in 32 bits.
pub record IsAllowed (name : Str) (roles : List Str) (parent_team : Option Str)
    (m : WorkspaceManager) (depth : ℕ) : Type 0 where
  pub named : validate_name name ≡ ok tt
  pub roles_named : All (λ role. validate_role_name role ≡ ok tt) roles
  pub absent : get_team name m ≡ none
  pub under : UnderParent parent_team (u32 (length roles)) depth m
  pub few : u32 (length roles) ≤ m.config.resources.max_vms_per_team
  pub total_fits : u32 (workspace_count m + u32 (length roles)) ≤ m.config.resources.max_total_vms
  pub workspaces_fit :
      u32 (workspace_count m + u32 (length roles)) ≤ m.config.resources.max_workspaces

check_role_names_iff :
    (roles : List Str)
    → (check_role_names roles ≡ ok tt) ↔ All (λ role. validate_role_name role ≡ ok tt) roles
unfolding check_role_names
check_role_names_iff [] = (λ e. tt, λ all. refl)
check_role_names_iff (role ∷ roles) = (
  λ e.
      let first : validate_role_name role ≡ ok tt = ground arith in
      let later : check_role_names roles ≡ ok tt = ground arith in
      (first, (check_role_names_iff roles).0 later),
  λ all. rw (all.0, (check_role_names_iff roles).1 all.1) refl,
)

check_caps_iff :
    (config : Config) (existing roles_count : ℕ)
    → (check_caps config existing roles_count ≡ ok tt) ↔ (
        (roles_count ≤ config.resources.max_vms_per_team)
        × (u32 (existing + roles_count) ≤ config.resources.max_total_vms)
        × (u32 (existing + roles_count) ≤ config.resources.max_workspaces))
unfolding check_caps
check_caps_iff config existing roles_count = ground arith

check_parent_iff :
    (config : Config) (parent : TeamState) (used roles_count depth : ℕ)
    → (check_parent config parent used roles_count ≡ ok depth) ↔ (
        (depth ≡ u32 (parent.nesting_depth + 1))
        × (depth ≤ config.resources.max_nesting_depth)
        × (u32 (u32 used + roles_count) ≤ parent.max_vms))
unfolding check_parent
check_parent_iff config parent used roles_count depth = ground arith

check_new_iff :
    (name : Str) (roles : List Str) (m : WorkspaceManager)
    → (check_new name roles m ≡ ok tt)
      ↔ ((validate_name name ≡ ok tt) × (check_role_names roles ≡ ok tt) × (get_team name m ≡ none))
unfolding check_new
check_new_iff name roles m = ground arith

-- Under a parent the answer is that of `check_parent` with the count of the VMs below it.
nesting_depth_of_iff :
    (parent_team : Option Str) (roles_count depth : ℕ) (m : WorkspaceManager)
    → (nesting_depth_of parent_team roles_count m ≡ some (ok depth))
      ↔ UnderParent parent_team roles_count depth m
unfolding nesting_depth_of
nesting_depth_of_iff none roles_count depth m = ground arith
nesting_depth_of_iff (some name) roles_count depth m = (
  λ e. elim (Option-cases (get_team name m)) [
    | inl absent ↦ absurd (ground arith)
    | inr (parent, found) ↦
        elim (Option-cases (
          total_vm_count_recursive (suc (suc m.config.resources.max_nesting_depth)) m.teams name)) [
            | inl endless ↦ absurd (ground arith)
            | inr (used, counted) ↦
                let passed : check_parent m.config parent used roles_count ≡ ok depth =
                  ground arith in
                let (deeper, shallow, budget) =
                  (check_parent_iff m.config parent used roles_count depth).0 passed in
                (parent, used, found, counted, deeper, shallow, budget)
          ]
  ],
  λ (parent, used, found, counted, deeper, shallow, budget).
      rw
        (
          nesting_depth_of,
          found,
          counted,
          (check_parent_iff m.config parent used roles_count depth).1 (deeper, shallow, budget),
        )
        refl,
)

pub check_team-IsAllowed :
    (name : Str) (roles : List Str) (parent_team : Option Str) (m : WorkspaceManager) (depth : ℕ)
    → check_team name roles parent_team m ≡ some (ok depth)
    → IsAllowed name roles parent_team m depth
unfolding check_team
check_team-IsAllowed name roles parent_team m depth e =
    let count = u32 (length roles) in
    elim (Result-cases (check_new name roles m)) [
      | inl (wrong, refused) ↦ absurd (ground arith)
      | inr (u, fresh) ↦ elim (Option-cases (nesting_depth_of parent_team count m)) [
        | inl endless ↦ absurd (ground arith)
        | inr (r, nested) ↦ elim (Result-cases (check_caps m.config (workspace_count m) count)) [
          | inl (wrong, refused) ↦ absurd (ground arith)
          | inr (v, below) ↦
              let deep : r ≡ ok depth = ground arith in
              let (named, roles_named, absent) = (check_new_iff name roles m).0 fresh in
              let (few, total_fits, workspaces_fit) =
                (check_caps_iff m.config (workspace_count m) count).0 below in
              record {
                named = named;
                roles_named = (check_role_names_iff roles).0 roles_named;
                absent = absent;
                under = (nesting_depth_of_iff parent_team count depth m).0 (rw deep at nested);
                few = few;
                total_fits = total_fits;
                workspaces_fit = workspaces_fit;
              }
        ]
      ]
    ]

IsAllowed-check_team :
    (name : Str) (roles : List Str) (parent_team : Option Str) (m : WorkspaceManager) (depth : ℕ)
    → IsAllowed name roles parent_team m depth
    → check_team name roles parent_team m ≡ some (ok depth)
unfolding check_team
IsAllowed-check_team name roles parent_team m depth h =
    let count = u32 (length roles) in
    let fresh =
      (check_new_iff name roles m).1
        (h.named, (check_role_names_iff roles).1 h.roles_named, h.absent) in
    let nested = (nesting_depth_of_iff parent_team count depth m).1 h.under in
    let below =
      (check_caps_iff m.config (workspace_count m) count).1
        (h.few, h.total_fits, h.workspaces_fit) in
    rw (check_team, fresh, nested, below) refl

nesting_depth_of_answers :
    (parent_team : Option Str) (roles_count : ℕ) (m : WorkspaceManager)
    → IsNested m.config.resources.max_nesting_depth m.teams
    → (r : Result TeamError ℕ) × (nesting_depth_of parent_team roles_count m ≡ some r)
unfolding nesting_depth_of
nesting_depth_of_answers none roles_count m nested = (ok 0, refl)
nesting_depth_of_answers (some name) roles_count m nested = elim (Option-cases (get_team name m)) [
  | inl absent ↦ (err (no_parent name), rw (nesting_depth_of, absent) refl)
  | inr (parent, found) ↦
      let (used, counted) =
        total_vm_count_recursive_total m.config.resources.max_nesting_depth m.teams name nested in
      (check_parent m.config parent used roles_count, rw (nesting_depth_of, found, counted) refl)
]

check_team_answers :
    (name : Str) (roles : List Str) (parent_team : Option Str) (m : WorkspaceManager)
    → IsNested m.config.resources.max_nesting_depth m.teams
    → (r : Result TeamError ℕ) × (check_team name roles parent_team m ≡ some r)
unfolding check_team
check_team_answers name roles parent_team m nested =
    let count = u32 (length roles) in
    let (r, deep) = nesting_depth_of_answers parent_team count m nested in
    elim (Result-cases (check_new name roles m)) [
      | inl (wrong, refused) ↦ (err wrong, rw (check_team, refused) refl)
      | inr (u, fresh) ↦ elim (Result-cases r) [
        | inl (wrong, is_err) ↦ (err wrong, rw (check_team, fresh, deep, is_err) refl)
        | inr (depth, is_ok) ↦ elim (Result-cases (check_caps m.config (workspace_count m) count)) [
          | inl (wrong, over) ↦ (err wrong, rw (check_team, fresh, deep, is_ok, over) refl)
          | inr (v, below) ↦ (ok depth, rw (check_team, fresh, deep, is_ok, below) refl)
        ]
      ]
    ]

-- In a hierarchy of teams that is nested within the limit on depths, the checks before a team is
-- created end with an answer, and they give the depth `depth` exactly if the team is allowed with it:
-- its name and all its roles are valid, no team has the name, its parent, if it is to have one,
-- exists, is not too deep and has room in its budget beside all VMs below it, and the new members
-- are within the cap on a team and both caps on all workspaces.
pub check_team_iff :
    (name : Str) (roles : List Str) (parent_team : Option Str) (m : WorkspaceManager) (depth : ℕ)
    → IsNested m.config.resources.max_nesting_depth m.teams
    → (r : Result TeamError ℕ) × (check_team name roles parent_team m ≡ some r)
      × ((r ≡ ok depth) ↔ IsAllowed name roles parent_team m depth)
check_team_iff name roles parent_team m depth nested =
    let (r, answer) = check_team_answers name roles parent_team m nested in
    (
      r,
      answer,
      (
        λ deep. check_team-IsAllowed name roles parent_team m depth (rw deep at answer),
        λ h. (let passed = IsAllowed-check_team name roles parent_team m depth h in ground arith),
      ),
    )
