-- ===== src/Team/Growth.antt =====
-- The hierarchy of teams (agentiso/src/team/mod.rs) stays nested when it grows.
use agentiso.Prelude.{
  ℕ, ◌+◌, ◌≡◌, ◌≢◌, ◌≤◌, ◌<◌, true, false, Option, none, some, List, [], ◌∷◌, Str, str_eq,
  str_beq_iff, length, Option-cases, inl, inr, ok, arith,
}
use agentiso.Prelude.Word.{u32}
use agentiso.Prelude.Dict.{Dict}
use agentiso.Prelude.Dict
use agentiso.Workspace.Manager.State.{TeamState, WorkspaceManager, get_team, register_team, u32_max}
use agentiso.Team.Hierarchy.{is_child_of, check_team}
use agentiso.Team.Nesting.{IsDeeper, IsNested}
use agentiso.Team.Admission.{UnderParent, check_team-IsAllowed}

-- Where no team has the name, or names it as its parent.
abbrev pub Unknown : Str → TeamState → Type 0
Unknown name t = (t.name ≢ name) × (is_child_of name t ≡ false)

old_IsDeeper :
    (team : TeamState) (teams old : Dict Str TeamState)
    → Dict.AllValues (Unknown team.name) old
    → Dict.AllValues (IsDeeper teams) old
    → Dict.AllValues (IsDeeper (Dict.insert team.name team teams)) old
old_IsDeeper team teams [] unknown deeper = tt
old_IsDeeper team teams ((key, t) ∷ old) unknown deeper = (
  λ name pt child below at_name at_child. ground (
    arith,
    unknown.0,
    deeper.0 name pt child below,
    Dict.lookup-insert team.name name team teams,
    Dict.lookup-insert team.name t.name team teams,
    str_beq_iff team.name name,
    str_beq_iff team.name t.name,
  ),
  old_IsDeeper team teams old unknown.1 deeper.1,
)

UnderParent-bounded :
    (parent_team : Option Str) (roles_count depth : ℕ) (m : WorkspaceManager)
    → UnderParent parent_team roles_count depth m
    → depth ≤ m.config.resources.max_nesting_depth
UnderParent-bounded none roles_count depth m top = omega arith
UnderParent-bounded (some name) roles_count depth m
      (parent, used, found, counted, deeper, shallow, budget) =
    shallow

parent_of : (name : Str) (t : TeamState) → is_child_of name t ≡ true → t.parent_team ≡ some name
parent_of name t below = elim (Option-cases t.parent_team) [
  | inl none_asked ↦ absurd (ground arith)
  | inr (parent, asked) ↦ ground (arith, str_beq_iff parent name)
]

UnderParent-found :
    (parent_team : Option Str) (roles_count depth : ℕ) (m : WorkspaceManager) (name : Str)
    → UnderParent parent_team roles_count depth m
    → parent_team ≡ some name
    → (parent : TeamState) × (get_team name m ≡ some parent)
      × (depth ≡ u32 (parent.nesting_depth + 1))
UnderParent-found none roles_count depth m name top is = absurd (cc)
UnderParent-found (some p) roles_count depth m name
      (pt, used, at_p, counted, deeper, shallow, budget) is =
    let same : p ≡ name = ground arith in (pt, rw (← same) at_p, deeper)

module _ (team : TeamState) (roles : List Str) (m : WorkspaceManager) where
  -- A team that is registered with the depth that the checks gave it keeps the hierarchy nested: every
  -- team is deeper than its parent and none is deeper than the limit, which is below 2^32 - 1. No team
  -- there may have the new one's name or have it as its parent already.
  pub register_team-IsNested :
      m.config.resources.max_nesting_depth < u32_max
      → IsNested m.config.resources.max_nesting_depth m.teams
      → Dict.AllValues (Unknown team.name) m.teams
      → check_team team.name roles team.parent_team m ≡ some (ok team.nesting_depth)
      → IsNested m.config.resources.max_nesting_depth (register_team team m).teams
  unfolding register_team
  register_team-IsNested small nested unknown passed =
      let h = check_team-IsAllowed team.name roles team.parent_team m team.nesting_depth passed in
      let shallow =
        UnderParent-bounded team.parent_team (u32 (length roles)) team.nesting_depth m h.under in
      record {
        deeper =
            Dict.insert-AllValues (IsDeeper (Dict.insert team.name team m.teams)) team.name team
              m.teams (old_IsDeeper team m.teams m.teams unknown nested.deeper)
              (λ name pt child below at_name at_child.
                let (parent, found, deeper) =
                  UnderParent-found team.parent_team (u32 (length roles)) team.nesting_depth m name
                    h.under (parent_of name team below) in
                let absent : Dict.lookup team.name m.teams ≡ none = unfold get_team in h.absent in
                let there : Dict.lookup name m.teams ≡ some parent = unfold get_team in found in
                ground (
                  arith,
                  absent,
                  there,
                  deeper,
                  nested.bounded name parent there,
                  Dict.lookup-insert team.name name team m.teams,
                  Dict.lookup-insert_self team.name team m.teams,
                  str_beq_iff team.name name,
                ));
        bounded = λ name t found.
            ground (arith, nested.bounded name t, Dict.lookup-insert team.name name team m.teams);
      }
