-- ===== src/Orchestrate/Kahn/Sorting.antt =====
-- Sorting texts keeps what a list contains (agentiso/src/workspace/orchestrate.rs).
use agentiso.Prelude.{◌≡◌, refl, false, ◌||◌, List, [], ◌∷◌, Str, str_eq, str_beq_iff, ◌==◌, arith}
use agentiso.Prelude.Set
use agentiso.Orchestrate.TeamDag.{insert_sorted, sort}

contains-insert_sorted :
    (a x : Str) (ys : List Str)
    → Set.contains a (insert_sorted x ys) ≡ (x == a || Set.contains a ys)
unfolding insert_sorted Set.contains
contains-insert_sorted a x [] = refl
contains-insert_sorted a x (y ∷ ys) = ground (arith, contains-insert_sorted a x ys)

pub contains-sort : (a : Str) (xs : List Str) → Set.contains a (sort xs) ≡ Set.contains a xs
unfolding sort Set.contains
contains-sort a [] = refl
contains-sort a (x ∷ xs) = ground (arith, contains-insert_sorted a x (sort xs), contains-sort a xs)

insert_sorted-IsDistinct :
    (x : Str) (ys : List Str)
    → Set.IsDistinct ys
    → Set.contains x ys ≡ false
    → Set.IsDistinct (insert_sorted x ys)
unfolding insert_sorted Set.contains
insert_sorted-IsDistinct x [] d h = (refl, tt)
insert_sorted-IsDistinct x (y ∷ ys) d h = ground (
  arith,
  contains-insert_sorted y x ys,
  str_beq_iff x y,
  str_beq_iff y x,
  insert_sorted-IsDistinct x ys d.1,
)

pub sort-IsDistinct : (xs : List Str) → Set.IsDistinct xs → Set.IsDistinct (sort xs)
unfolding sort
sort-IsDistinct [] d = tt
sort-IsDistinct (x ∷ xs) d =
    insert_sorted-IsDistinct x (sort xs) (sort-IsDistinct xs d.1)
      (ground (arith, contains-sort x xs))
