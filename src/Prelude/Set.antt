-- ===== src/Prelude/Set.antt =====
-- A set as a list: `contains`, `insert`, `remove` of `HashSet` and `BTreeSet`.
use Prim.Native.Nat.{suc, ◌+◌, ◌≤◌, ◌<◌}
use mathlib.Core.Path.{◌≡◌, refl}
use mathlib.Core.Bool.{Bool, true, false, ◌||◌}
use mathlib.Core.List.{List, [], ◌∷◌, ◌++◌}
use native.Mathlib.Omega.{arith}
use agentiso.Prelude.Lists.{length}
use agentiso.Prelude.Tests.{if◌then◌else◌}
use agentiso.Prelude.Equality.{Eq, ◌==◌, beq_self}

module _ {ℓ} {A : Type ℓ} ⦃eq : Eq A⦄ where
  unfoldable pub contains : A → List A → Bool
  contains a [] = false
  contains a (x ∷ xs) = x == a || contains a xs

  unfoldable pub insert : A → List A → List A
  unfolding contains
  insert a xs = if contains a xs then xs else a ∷ xs

  unfoldable pub remove : A → List A → List A
  remove a [] = []
  remove a (x ∷ xs) = let rest = remove a xs in if x == a then rest else x ∷ rest

  pub contains-insert :
      (a b : A) (xs : List A) → contains b (insert a xs) ≡ (a == b || contains b xs)
  unfolding insert
  contains-insert a b xs = ground (arith, eq.test_iff a b)

  pub contains-remove :
      (a b : A) (xs : List A) → contains b (remove a xs) ≡ (if a == b then false else contains b xs)
  unfolding contains remove
  contains-remove a b [] = ground arith
  contains-remove a b (x ∷ xs) =
      ground (arith, eq.test_iff a b, eq.test_iff x a, eq.test_iff x b, contains-remove a b xs)

  -- No element stands twice.
  abbrev pub IsDistinct : List A → Type 0
  IsDistinct [] = Unit
  IsDistinct (x ∷ xs) = (contains x xs ≡ false) × IsDistinct xs

  pub insert-IsDistinct : (a : A) (xs : List A) → IsDistinct xs → IsDistinct (insert a xs)
  unfolding insert
  insert-IsDistinct a xs d = ground arith

  pub remove-IsDistinct : (a : A) (xs : List A) → IsDistinct xs → IsDistinct (remove a xs)
  unfolding remove
  remove-IsDistinct a [] d = tt
  remove-IsDistinct a (x ∷ xs) d =
      ground (arith, contains-remove a x xs, remove-IsDistinct a xs d.1)

  pub length-insert :
      (a : A) (xs : List A)
      → length (insert a xs) ≡ (if contains a xs then length xs else suc (length xs))
  unfolding insert
  length-insert a xs = ground arith

  remove_absent : (a : A) (xs : List A) → contains a xs ≡ false → remove a xs ≡ xs
  unfolding contains remove
  remove_absent a [] h = refl
  remove_absent a (x ∷ xs) h = ground (arith, remove_absent a xs)

  pub length-remove :
      (a : A) (xs : List A)
      → IsDistinct xs
      → length (remove a xs) + (if contains a xs then 1 else 0) ≡ length xs
  unfolding contains remove
  length-remove a [] d = refl
  length-remove a (x ∷ xs) d =
      ground (arith, eq.test_iff x a, remove_absent a xs, length-remove a xs d.1)

  -- A fresh element goes in and comes out again.
  pub remove-insert : (a : A) (xs : List A) → contains a xs ≡ false → remove a (insert a xs) ≡ xs
  unfolding insert remove
  remove-insert a xs h = ground (arith, beq_self a, remove_absent a xs h)

  pub contains-append :
      (a : A) (xs ys : List A) → contains a (xs ++ ys) ≡ (contains a xs || contains a ys)
  unfolding contains
  contains-append a [] ys = refl
  contains-append a (x ∷ xs) ys = ground (arith, contains-append a xs ys)

  -- A new element at the end.
  pub snoc-IsDistinct :
      (xs : List A) (a : A) → IsDistinct xs → contains a xs ≡ false → IsDistinct (xs ++ a ∷ [])
  unfolding contains
  snoc-IsDistinct [] a d h = (refl, tt)
  snoc-IsDistinct (x ∷ xs) a d h = ground (
    arith,
    contains-append x xs (a ∷ []),
    eq.test_iff x a,
    eq.test_iff a x,
    snoc-IsDistinct xs a d.1,
  )

  length-remove-le : (a : A) (xs : List A) → length (remove a xs) ≤ length xs
  unfolding remove
  length-remove-le a [] = omega arith
  length-remove-le a (x ∷ xs) = ground (arith, length-remove-le a xs)

  remove-shorter : (a : A) (xs : List A) → contains a xs ≡ true → length (remove a xs) < length xs
  unfolding contains remove
  remove-shorter a [] h = absurd (ground arith)
  remove-shorter a (x ∷ xs) h = ground (arith, remove-shorter a xs, length-remove-le a xs)

  -- A list without repetitions that lies within another is not longer than that.
  pub length-le_of_subset :
      (xs ys : List A)
      → IsDistinct xs
      → ((a : A) → contains a xs ≡ true → contains a ys ≡ true)
      → length xs ≤ length ys
  unfolding contains
  length-le_of_subset [] ys d sub = omega arith
  length-le_of_subset (x ∷ xs) ys d sub =
      let here : contains x ys ≡ true = sub x (ground (arith, beq_self x)) in
      let rest =
        length-le_of_subset xs (remove x ys) d.1
          (λ a h. ground (arith, contains-remove x a ys, eq.test_iff x a, sub a, d.0)) in
      omega (arith, remove-shorter x ys here, rest)
