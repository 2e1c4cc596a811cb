-- ===== src/Workspace/Snapshots.antt =====
-- The snapshot tree of agentiso/src/workspace/snapshot.rs. A UUID is its 128-bit number.
use agentiso.Prelude.{
  ℕ, zero, suc, Bool, true, false, ◌||◌, Option, none, some, List, [], ◌∷◌, ◌++◌, Str, ◌==◌, leb,
  nat_eq, str_eq, length, if◌then◌else◌,
}
use agentiso.Prelude.Dict.{Dict}
use agentiso.Prelude.Dict
use agentiso.Prelude.Set

abbrev pub Uuid : Type 0
Uuid = ℕ

pub record Snapshot : Type 0 where
  pub id : Uuid
  pub name : Str
  pub workspace_id : Uuid
  pub zfs_snapshot : Str
  pub qemu_state : Option Str
  pub parent : Option Uuid
  pub created_at : ℕ

pub record SnapshotTree : Type 0 where
  pub snapshots : Dict Uuid Snapshot

unfoldable pub new : SnapshotTree
new = record { snapshots = [] }

unfoldable pub add : Snapshot → SnapshotTree → SnapshotTree
add s t = record { snapshots = Dict.insert s.id s t.snapshots }

unfoldable pub remove : Uuid → SnapshotTree → SnapshotTree × Option Snapshot
remove id t = (record { snapshots = Dict.remove id t.snapshots }, Dict.lookup id t.snapshots)

unfoldable pub get : Uuid → SnapshotTree → Option Snapshot
get id t = Dict.lookup id t.snapshots

unfoldable pub find_name : Str → Dict Uuid Snapshot → Option Snapshot
find_name name [] = none
find_name name ((j, s) ∷ rest) =
    let later = find_name name rest in if s.name == name then some s else later

unfoldable pub get_by_name : Str → SnapshotTree → Option Snapshot
unfolding find_name
get_by_name name t = find_name name t.snapshots

abbrev pub values : Dict Uuid Snapshot → List Snapshot
values [] = []
values ((j, s) ∷ rest) = s ∷ values rest

-- `sort_by_key(|s| s.created_at)`: a stable sort.
unfoldable pub insert_by_time : Snapshot → List Snapshot → List Snapshot
insert_by_time s [] = s ∷ []
insert_by_time s (x ∷ xs) =
    let later = insert_by_time s xs in
    if leb s.created_at x.created_at then s ∷ x ∷ xs else x ∷ later

unfoldable pub sort_by_time : List Snapshot → List Snapshot
sort_by_time [] = []
sort_by_time (s ∷ xs) = insert_by_time s (sort_by_time xs)

unfoldable pub list : SnapshotTree → List Snapshot
unfolding sort_by_time insert_by_time
list t = sort_by_time (values t.snapshots)

-- `s.parent.as_ref() == Some(parent_id)`
abbrev pub has_parent : Uuid → Snapshot → Bool
has_parent id s = elim s.parent [ none ↦ false | some p ↦ p == id ]

unfoldable pub children_in : Uuid → Dict Uuid Snapshot → List Uuid
children_in id [] = []
children_in id ((j, s) ∷ rest) =
    let later = children_in id rest in if has_parent id s then s.id ∷ later else later

unfoldable pub children_of : Uuid → SnapshotTree → List Uuid
unfolding children_in
children_of id t = children_in id t.snapshots

unfoldable pub some_child : Uuid → Dict Uuid Snapshot → Bool
some_child id [] = false
some_child id ((j, s) ∷ rest) = has_parent id s || some_child id rest

unfoldable pub has_children : Uuid → SnapshotTree → Bool
unfolding some_child
has_children id t = some_child id t.snapshots

unfoldable pub len : SnapshotTree → ℕ
len t = length t.snapshots

unfoldable pub is_empty : SnapshotTree → Bool
is_empty t = elim t.snapshots [ [] ↦ true | s ∷ rest ↦ false ]

-- `self.snapshots.get(&cid).and_then(|s| s.parent)`
abbrev pub parent_of : Uuid → SnapshotTree → Option Uuid
parent_of id t = elim (Dict.lookup id t.snapshots) [ none ↦ none | some s ↦ s.parent ]

-- The `while let` of `ancestor_chain`, with fuel; `none` means that the fuel ran out.
unfoldable pub chain_loop : ℕ → List Uuid → Option Uuid → SnapshotTree → Option (List Uuid)
chain_loop zero chain current t = none
chain_loop (suc fuel) chain none t = some chain
chain_loop (suc fuel) chain (some cid) t =
    let rest = chain_loop fuel (chain ++ cid ∷ []) (parent_of cid t) t in
    if Set.contains cid chain then some chain else rest

-- A round for each snapshot, one for an identifier that is not in the tree, and one to stop.
unfoldable pub ancestor_chain : Uuid → SnapshotTree → Option (List Uuid)
unfolding chain_loop
ancestor_chain id t = chain_loop (suc (suc (suc (length t.snapshots)))) [] (some id) t
