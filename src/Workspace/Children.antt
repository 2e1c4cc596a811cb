-- ===== src/Workspace/Children.antt =====
-- Which snapshots the tree of agentiso/src/workspace/snapshot.rs counts as children.
use agentiso.Prelude.{◌≡◌, refl, Bool, true, false, none, some, [], ◌∷◌, nat_eq, nat_beq_iff, arith}
use agentiso.Prelude.Dict.{Dict}
use agentiso.Prelude.Dict
use agentiso.Prelude.Set
use agentiso.Workspace.Snapshots.{
  Uuid, Snapshot, SnapshotTree, new, add, remove, get, has_parent, children_in, children_of,
  some_child, has_children,
}

-- Every snapshot is stored once, under its own identifier.
pub record IsValid (t : SnapshotTree) : Type 0 where
  pub distinct : Dict.IsDistinct t.snapshots
  pub own_key : (j : Uuid) (s : Snapshot) → Dict.lookup j t.snapshots ≡ some s → s.id ≡ j

pub new-IsValid : IsValid new
unfolding new Dict.lookup
new-IsValid = record { distinct = tt; own_key = λ j s e. absurd (cc) }

-- Adding a snapshot to a tree that stores every snapshot once, under its own identifier, gives such a
-- tree.
pub add-IsValid : (s : Snapshot) (t : SnapshotTree) → IsValid t → IsValid (add s t)
unfolding add
add-IsValid s t v = record {
  distinct = Dict.insert-IsDistinct s.id s t.snapshots v.distinct;
  own_key = λ j x e.
      ground (arith, Dict.lookup-insert s.id j s t.snapshots, nat_beq_iff s.id j, v.own_key j x);
}

pub remove-IsValid : (id : Uuid) (t : SnapshotTree) → IsValid t → IsValid (remove id t).0
unfolding remove
remove-IsValid id t v = record {
  distinct = Dict.remove-IsDistinct id t.snapshots v.distinct;
  own_key = λ j x e. ground (arith, Dict.lookup-remove id j t.snapshots, v.own_key j x);
}

-- The `own_key` of a part of the map.
abbrev Own : Dict Uuid Snapshot → Type 0
Own m = (j : Uuid) (s : Snapshot) → Dict.lookup j m ≡ some s → s.id ≡ j

Own-rest :
    (j : Uuid) (s : Snapshot) (m : Dict Uuid Snapshot)
    → Dict.lookup j m ≡ none
    → Own ((j, s) ∷ m)
    → Own m
unfolding Dict.lookup
Own-rest j s m fresh own i x e = ground (arith, own i x, nat_beq_iff j i)

abbrev is_child : Uuid → Uuid → Dict Uuid Snapshot → Bool
is_child id j m = elim (Dict.lookup j m) [ none ↦ false | some s ↦ has_parent id s ]

children_in-lookup :
    (id j : Uuid) (m : Dict Uuid Snapshot)
    → Dict.IsDistinct m
    → Own m
    → Set.contains j (children_in id m) ≡ is_child id j m
unfolding children_in Dict.lookup Set.contains
children_in-lookup id j [] d own = refl
children_in-lookup id j ((i, s) ∷ m) d own =
    let own_id : s.id ≡ i = own i s (ground (arith, nat_beq_iff i i)) in
    ground (arith, children_in-lookup id j m d.1 (Own-rest i s m d.0 own), nat_beq_iff i j)

some_child-children_in :
    (id : Uuid) (m : Dict Uuid Snapshot)
    → some_child id m ≡ elim (children_in id m) [ [] ↦ false | c ∷ cs ↦ true ]
unfolding some_child children_in
some_child-children_in id [] = refl
some_child-children_in id ((i, s) ∷ m) = ground (arith, some_child-children_in id m)

-- In a tree built with `new`, `add` and `remove`, the children of an identifier are exactly the
-- stored snapshots whose parent it is, and `has_children` tells whether there is one.
pub children_of-get :
    (id : Uuid) (t : SnapshotTree)
    → IsValid t
    → ((j : Uuid)
        → Set.contains j (children_of id t)
          ≡ elim (get j t) [ none ↦ false | some s ↦ has_parent id s ])
      × (has_children id t ≡ elim (children_of id t) [ [] ↦ false | c ∷ cs ↦ true ])
unfolding children_of get has_children
children_of-get id t v = (
  λ j. children_in-lookup id j t.snapshots v.distinct v.own_key,
  some_child-children_in id t.snapshots,
)
