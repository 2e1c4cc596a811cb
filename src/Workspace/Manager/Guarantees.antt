-- ===== src/Workspace/Manager/Guarantees.antt =====
-- What every change of the map of workspaces (agentiso/src/workspace/mod.rs) keeps.
use agentiso.Prelude.{
  ◌≡◌, ◌≤◌, refl, true, false, Option, none, some, [], ◌∷◌, Str, nat_eq, str_eq, nat_beq_iff,
  str_beq_iff, ◌==◌, length, ◌⊎◌, inl, inr, Bool-cases, arith,
}
use agentiso.Prelude.Dict.{Dict}
use agentiso.Prelude.Dict
use agentiso.Config.Sections.{Config}
use agentiso.Workspace.Snapshots.{Uuid}
use agentiso.Workspace.Manager.State.{Workspace, WorkspaceState, name_used, u32_max}
use agentiso.Workspace.Manager.Calls.{Call}
use agentiso.Workspace.Manager.Moves.{
  Moves, stays, is_destroyed, HasPid, HasRoom, Changed, same, entered, stepped, left,
}

-- Every workspace has a `qemu_pid` exactly if it is not stopped, and no more snapshots than allowed.
abbrev pub Sound : Config → Dict Uuid Workspace → Type 0
Sound config ws = Dict.AllValues (λ w. HasPid w × HasRoom config w) ws

pub Changed-Sound :
    (c : Call) (config config' : Config) (ws ws' : Dict Uuid Workspace)
    → Changed c config ws config' ws'
    → Sound config ws
    → Sound config' ws'
Changed-Sound c config _ ws _ same h = h
Changed-Sound c config _ ws _ (entered w e) h =
    Dict.insert-AllValues (λ w. HasPid w × HasRoom config w) w.id w ws h (e.pid, e.room)
Changed-Sound c config _ ws _ (stepped id w x found s) h =
    let P : Workspace → Type 0 = λ w. HasPid w × HasRoom config w in
    let (pid, room) = Dict.lookup-AllValues P id w ws h found in
    Dict.insert-AllValues P id x ws h (s.pid pid, s.room room)
Changed-Sound c config _ ws _ (left id w found) h =
    Dict.remove-AllValues (λ w. HasPid w × HasRoom config w) id ws h

pub Changed-config :
    (c : Call) (config config' : Config) (ws ws' : Dict Uuid Workspace)
    → Changed c config ws config' ws'
    → config' ≡ config
Changed-config c config _ ws _ same = refl
Changed-config c config _ ws _ (entered w e) = refl
Changed-config c config _ ws _ (stepped id w x found s) = refl
Changed-config c config _ ws _ (left id w found) = refl

abbrev pub state_in : Uuid → Dict Uuid Workspace → Option WorkspaceState
state_in id ws = elim (Dict.lookup id ws) [ none ↦ none | some w ↦ some w.state ]

pub Changed-Moves :
    (c : Call) (config config' : Config) (ws ws' : Dict Uuid Workspace) (id : Uuid)
    → Changed c config ws config' ws'
    → Moves c id (state_in id ws) (state_in id ws')
Changed-Moves c config _ ws _ id same = stays
Changed-Moves c config _ ws _ id (entered w e) = elim (Bool-cases (w.id == id)) [
  | inl this ↦
      rw (← (nat_beq_iff w.id id).0 this, state_in, Dict.lookup-insert_self w.id w ws, e.fresh)
        e.moves
  | inr other ↦ rw (state_in, Dict.lookup-insert w.id id w ws, other) stays
]
Changed-Moves c config _ ws _ id (stepped j w x found s) = elim (Bool-cases (j == id)) [
  | inl this ↦
      rw (← (nat_beq_iff j id).0 this, state_in, Dict.lookup-insert_self j x ws, found) s.moves
  | inr other ↦ rw (state_in, Dict.lookup-insert j id x ws, other) stays
]
Changed-Moves c config _ ws _ id (left j w found) = elim (Bool-cases (j == id)) [
  | inl this ↦
      rw (state_in, Dict.lookup-remove j id ws, this, ← (nat_beq_iff j id).0 this, found)
        is_destroyed
  | inr other ↦ rw (state_in, Dict.lookup-remove j id ws, other) stays
]

-- No two workspaces have the same name.
abbrev pub Named : Dict Uuid Workspace → Type 0
Named ws =
    (i j : Uuid) (w x : Workspace)
    → Dict.lookup i ws ≡ some w
    → Dict.lookup j ws ≡ some x
    → w.name ≡ x.name
    → i ≡ j

found_name :
    (name : Str) (j : Uuid) (x : Workspace) (ws : Dict Uuid Workspace)
    → Dict.lookup j ws ≡ some x
    → x.name ≡ name
    → name_used name ws ≡ true
unfolding Dict.lookup name_used
found_name name j x [] found e = absurd (cc)
found_name name j x ((i, w) ∷ ws) found e =
    ground (arith, found_name name j x ws, str_beq_iff x.name name, str_beq_iff w.name name)

-- A workspace found after a write is the written one, or was there.
found_after :
    (id j : Uuid) (x y : Workspace) (ws : Dict Uuid Workspace)
    → Dict.lookup j (Dict.insert id x ws) ≡ some y
    → ((id ≡ j) × (x ≡ y)) ⊎ (Dict.lookup j ws ≡ some y)
found_after id j x y ws found = ground (arith, Dict.lookup-insert id j x ws, nat_beq_iff id j)

entered-Named :
    (w : Workspace) (ws : Dict Uuid Workspace)
    → name_used w.name ws ≡ false
    → Named ws
    → Named (Dict.insert w.id w ws)
entered-Named w ws unused named i j x y at_i at_j e = ground (
  arith,
  found_after w.id i w x ws at_i,
  found_after w.id j w y ws at_j,
  found_name w.name i x ws,
  found_name w.name j y ws,
  named i j x y,
)

stepped-Named :
    (id : Uuid) (w x : Workspace) (ws : Dict Uuid Workspace)
    → Dict.lookup id ws ≡ some w
    → x.name ≡ w.name
    → Named ws
    → Named (Dict.insert id x ws)
stepped-Named id w x ws found kept named i j y z at_i at_j e = ground (
  arith,
  found_after id i x y ws at_i,
  found_after id j x z ws at_j,
  named i j y z,
  named i j w z,
  named i j y w,
)

left-Named : (id : Uuid) (ws : Dict Uuid Workspace) → Named ws → Named (Dict.remove id ws)
left-Named id ws named i j y z at_i at_j e =
    ground (arith, Dict.lookup-remove id i ws, Dict.lookup-remove id j ws, named i j y z)

pub Changed-Named :
    (c : Call) (config config' : Config) (ws ws' : Dict Uuid Workspace)
    → Changed c config ws config' ws'
    → Named ws
    → Named ws'
Changed-Named c config _ ws _ same named = named
Changed-Named c config _ ws _ (entered w e) named = entered-Named w ws e.unnamed named
Changed-Named c config _ ws _ (stepped id w x found s) named =
    stepped-Named id w x ws found s.named named
Changed-Named c config _ ws _ (left id w found) named = left-Named id ws named

-- The number of workspaces stays within the configured limit, a u32.
abbrev pub Within : Config → Dict Uuid Workspace → Type 0
Within config ws = length ws ≤ config.resources.max_workspaces

length-insert_old :
    (id : Uuid) (w x : Workspace) (ws : Dict Uuid Workspace)
    → Dict.lookup id ws ≡ some w
    → length (Dict.insert id x ws) ≡ length ws
unfolding Dict.lookup Dict.insert
length-insert_old id w x [] found = absurd (cc)
length-insert_old id w x ((i, y) ∷ ws) found = ground (arith, length-insert_old id w x ws)

pub Changed-Within :
    (c : Call) (config config' : Config) (ws ws' : Dict Uuid Workspace)
    → config.resources.max_workspaces ≤ u32_max
    → Changed c config ws config' ws'
    → Within config ws
    → Within config' ws'
Changed-Within c config _ ws _ small same within = within
Changed-Within c config _ ws _ small (entered w e) within =
    ground (arith, e.below, Dict.length-insert w.id w ws)
Changed-Within c config _ ws _ small (stepped id w x found s) within =
    omega (arith, length-insert_old id w x ws found)
Changed-Within c config _ ws _ small (left id w found) within =
    omega (arith, Dict.length-remove id ws)
