-- ===== src/Team/Nesting.antt =====
-- The depth of teams (agentiso/src/team/mod.rs): why the count of the VMs below a team ends.
use agentiso.Prelude.{
  ℕ, zero, suc, ◌+◌, ◌≡◌, ◌≤◌, ◌<◌, refl, true, Option, some, [], ◌∷◌, Str, str_eq, length,
  Bool-cases, Option-cases, inl, inr, arith,
}
use agentiso.Prelude.Word.{u64}
use agentiso.Prelude.Dict.{Dict}
use agentiso.Prelude.Dict
use agentiso.Workspace.Manager.State.{TeamState}
use agentiso.Team.Hierarchy.{is_child_of, sum_children, total_vm_count_recursive}

-- A child is deeper than its parent.
abbrev pub IsDeeper : Dict Str TeamState → TeamState → Type 0
IsDeeper teams t =
    (name : Str) (team child : TeamState)
    → is_child_of name t ≡ true
    → Dict.lookup name teams ≡ some team
    → Dict.lookup t.name teams ≡ some child
    → team.nesting_depth < child.nesting_depth

-- All teams are deeper than their parents, and none is deeper than the limit.
pub record IsNested (limit : ℕ) (teams : Dict Str TeamState) : Type 0 where
  pub deeper : Dict.AllValues (IsDeeper teams) teams
  pub bounded :
      (name : Str) (team : TeamState)
      → Dict.lookup name teams ≡ some team
      → team.nesting_depth ≤ limit

-- The count ends for the children.
abbrev Counted : (Str → Option ℕ) → Str → TeamState → Type 0
Counted count name t = is_child_of name t ≡ true → (n : ℕ) × (count t.name ≡ some n)

sum_children_total :
    (count : Str → Option ℕ) (name : Str) (teams : Dict Str TeamState)
    → Dict.AllValues (Counted count name) teams
    → (n : ℕ) × (sum_children count name teams ≡ some n)
unfolding sum_children
sum_children_total count name [] h = (0, refl)
sum_children_total count name ((key, t) ∷ rest) h =
    let (m, later) = sum_children_total count name rest h.1 in
    elim (Bool-cases (is_child_of name t)) [
      | inl child ↦ let (n, first) = h.0 child in (u64 (n + m), rw (child, first, later) refl)
      | inr other ↦ (m, rw (other, later) refl)
    ]

AllValues-map :
    {P Q : TeamState → Type 0} (teams : Dict Str TeamState)
    → ((t : TeamState) → P t → Q t)
    → Dict.AllValues P teams
    → Dict.AllValues Q teams
AllValues-map [] f h = tt
AllValues-map ((key, t) ∷ teams) f h = (f t h.0, AllValues-map teams f h.1)

count_ends :
    (limit : ℕ) (teams : Dict Str TeamState) (fuel : ℕ) (name : Str)
    → IsNested limit teams
    → ((team : TeamState)
        → Dict.lookup name teams ≡ some team
        → limit + 1 ≤ fuel + team.nesting_depth)
    → (n : ℕ) × (total_vm_count_recursive (suc fuel) teams name ≡ some n)
unfolding total_vm_count_recursive
count_ends limit teams zero name nested enough = elim (Option-cases (Dict.lookup name teams)) [
  | inl absent ↦ (0, rw (total_vm_count_recursive, absent) refl)
  | inr (team, found) ↦ absurd (omega (arith, enough team found, nested.bounded name team found))
]
count_ends limit teams (suc fuel) name nested enough =
    elim (Option-cases (Dict.lookup name teams)) [
      | inl absent ↦ (0, rw (total_vm_count_recursive, absent) refl)
      | inr (team, found) ↦
          let (sub_total, counted) =
            sum_children_total (total_vm_count_recursive (suc fuel) teams) name teams (
              AllValues-map teams
                (λ t deeper is_child. count_ends limit teams fuel t.name nested (λ child there.
                  omega (arith, enough team found, deeper name team child is_child found there)))
                nested.deeper) in
          (
            u64 (length team.member_workspace_ids + sub_total),
            rw (total_vm_count_recursive, found, counted) refl,
          )
    ]

-- The count of the VMs below a team ends with a round of fuel for each depth and one more, in every
-- map of teams in which children are deeper than their parents and no team is deeper than the limit.
pub total_vm_count_recursive_total :
    (limit : ℕ) (teams : Dict Str TeamState) (name : Str)
    → IsNested limit teams
    → (n : ℕ) × (total_vm_count_recursive (suc (suc limit)) teams name ≡ some n)
total_vm_count_recursive_total limit teams name nested =
    count_ends limit teams (suc limit) name nested (λ team found. omega arith)
