-- ===== src/Prelude/Dict.antt =====
-- A map as an association list: `HashMap::get`, `insert`, `remove`, `retain`, `contains_key`.
-- The order of the list is the order of iteration, which the code does not fix: a theorem for
-- every list holds for every order.
use Prim.Native.Nat.{◌+◌, ◌≤◌}
use mathlib.Core.Path.{◌≡◌, refl, subst}
use mathlib.Core.Logic.{◌≢◌, inl, inr}
use mathlib.Core.Bool.{Bool, true, false}
use mathlib.Core.List.{List, [], ◌∷◌}
use mathlib.Core.Option.{Option, none, some}
use native.Mathlib.Omega.{arith}
use agentiso.Prelude.Lists.{length}
use agentiso.Prelude.Tests.{if◌then◌else◌, Bool-cases}
use agentiso.Prelude.Equality.{Eq, ◌==◌, beq_self}

abbrev pub Dict {ℓ κ} : Type ℓ → Type κ → Type (ℓ ⊔ κ)
Dict K V = List (K × V)

module _ {ℓ κ} {K : Type ℓ} {V : Type κ} ⦃eq : Eq K⦄ where
  unfoldable pub lookup : K → Dict K V → Option V
  lookup key [] = none
  lookup key (entry ∷ rest) =
      let later = lookup key rest in if entry.0 == key then some entry.1 else later

  -- A new key goes in at the end; an old one keeps its place.
  unfoldable pub insert : K → V → Dict K V → Dict K V
  insert key value [] = (key, value) ∷ []
  insert key value (entry ∷ rest) =
      let later = insert key value rest in
      if entry.0 == key then (key, value) ∷ rest else entry ∷ later

  unfoldable pub remove : K → Dict K V → Dict K V
  remove k [] = []
  remove k ((j, w) ∷ m) = let rest = remove k m in if j == k then rest else (j, w) ∷ rest

  unfoldable pub retain : (K → V → Bool) → Dict K V → Dict K V
  retain p [] = []
  retain p ((j, w) ∷ m) = let rest = retain p m in if p j w then (j, w) ∷ rest else rest

  abbrev pub contains_key : K → Dict K V → Bool
  contains_key k m = elim (lookup k m) [ none ↦ false | some v ↦ true ]

  -- What a key finds after a write: the value written, or what it found before.
  pub lookup-insert :
      (k j : K) (v : V) (m : Dict K V)
      → lookup j (insert k v m) ≡ (if k == j then some v else lookup j m)
  unfolding insert lookup
  lookup-insert k j v [] = refl
  lookup-insert k j v (entry ∷ m) =
      let (i, old) = entry in
      ground (arith, lookup-insert k j v m, eq.test_iff k j, eq.test_iff i j, eq.test_iff i k)

  pub lookup-insert_self : (k : K) (new : V) (m : Dict K V) → lookup k (insert k new m) ≡ some new
  lookup-insert_self k new m = rw (lookup-insert k k new m, beq_self k)

  pub lookup-insert_ne :
      (k j : K) (v : V) (m : Dict K V) → k ≢ j → lookup j (insert k v m) ≡ lookup j m
  lookup-insert_ne k j v m h = ground (arith, lookup-insert k j v m, eq.test_iff k j)

  pub lookup-remove :
      (k j : K) (m : Dict K V) → lookup j (remove k m) ≡ (if k == j then none else lookup j m)
  unfolding lookup remove
  lookup-remove k j [] = ground arith
  lookup-remove k j ((i, w) ∷ m) =
      ground (arith, eq.test_iff k j, eq.test_iff i k, eq.test_iff i j, lookup-remove k j m)

  pub insert-insert : (k : K) (v w : V) (m : Dict K V) → insert k v (insert k w m) ≡ insert k v m
  unfolding insert
  insert-insert k v w [] = rw (beq_self k)
  insert-insert k v w ((i, old) ∷ m) = ground (arith, beq_self k, insert-insert k v w m)

  pub insert-lookup : (k : K) (v : V) (m : Dict K V) → lookup k m ≡ some v → insert k v m ≡ m
  unfolding lookup insert
  insert-lookup k v [] e = absurd (cc)
  insert-lookup k v ((i, w) ∷ m) e = ground (arith, eq.test_iff i k, insert-lookup k v m)

  pub length-insert : (k : K) (v : V) (m : Dict K V) → length (insert k v m) ≤ length m + 1
  unfolding insert
  length-insert k v [] = omega arith
  length-insert k v ((i, w) ∷ m) = ground (arith, length-insert k v m)

  pub length-remove : (k : K) (m : Dict K V) → length (remove k m) ≤ length m
  unfolding remove
  length-remove k [] = omega arith
  length-remove k ((i, w) ∷ m) = ground (arith, length-remove k m)

  -- No key stands twice.
  abbrev pub IsDistinct : Dict K V → Type κ
  IsDistinct [] = Unit
  IsDistinct ((k, v) ∷ m) = (lookup k m ≡ none) × IsDistinct m

  pub lookup-retain :
      (p : K → V → Bool) (k : K) (m : Dict K V)
      → IsDistinct m
      → lookup k (retain p m)
        ≡ elim (lookup k m) [ none ↦ none | some v ↦ if p k v then some v else none ]
  unfolding lookup retain
  lookup-retain p k [] d = refl
  lookup-retain p k ((i, w) ∷ m) d = ground (arith, eq.test_iff i k, lookup-retain p k m d.1, d.0)

  pub insert-IsDistinct : (k : K) (v : V) (m : Dict K V) → IsDistinct m → IsDistinct (insert k v m)
  unfolding lookup insert
  insert-IsDistinct k v [] d = (refl, tt)
  insert-IsDistinct k v ((i, w) ∷ m) d =
      ground (
        arith,
        eq.test_iff i k,
        eq.test_iff k i,
        lookup-insert k i v m,
        insert-IsDistinct k v m d.1,
      )

  pub remove-IsDistinct : (k : K) (m : Dict K V) → IsDistinct m → IsDistinct (remove k m)
  unfolding lookup remove
  remove-IsDistinct k [] d = tt
  remove-IsDistinct k ((i, w) ∷ m) d =
      ground (arith, lookup-remove k i m, remove-IsDistinct k m d.1)

  pub retain-IsDistinct : (p : K → V → Bool) (m : Dict K V) → IsDistinct m → IsDistinct (retain p m)
  unfolding lookup retain
  retain-IsDistinct p [] d = tt
  retain-IsDistinct p ((i, w) ∷ m) d =
      ground (arith, lookup-retain p i m d.1, retain-IsDistinct p m d.1)

  -- A statement of every value that is stored.
  abbrev pub AllValues {ι} : (V → Type ι) → Dict K V → Type ι
  AllValues P [] = Unit
  AllValues P ((k, v) ∷ m) = P v × AllValues P m

  module _ {ι} (P : V → Type ι) where
    pub lookup-AllValues :
        (k : K) (v : V) (m : Dict K V) → AllValues P m → lookup k m ≡ some v → P v
    unfolding lookup
    lookup-AllValues k v [] h e = absurd (cc)
    lookup-AllValues k v ((i, w) ∷ m) h e = elim (Bool-cases (i == k)) [
      | inl this ↦ let same : w ≡ v = ground arith in subst P same h.0
      | inr other ↦ lookup-AllValues k v m h.1 (rw other at e)
    ]

    pub insert-AllValues :
        (k : K) (v : V) (m : Dict K V) → AllValues P m → P v → AllValues P (insert k v m)
    unfolding insert
    insert-AllValues k v [] h p = (p, tt)
    insert-AllValues k v ((i, w) ∷ m) h p = elim (Bool-cases (i == k)) [
      | inl this ↦ rw this (p, h.1)
      | inr other ↦ rw other (h.0, insert-AllValues k v m h.1 p)
    ]

    pub remove-AllValues : (k : K) (m : Dict K V) → AllValues P m → AllValues P (remove k m)
    unfolding remove
    remove-AllValues k [] h = h
    remove-AllValues k ((i, w) ∷ m) h = elim (Bool-cases (i == k)) [
      | inl this ↦ rw this (remove-AllValues k m h.1)
      | inr other ↦ rw other (h.0, remove-AllValues k m h.1)
    ]

    pub retain-AllValues :
        (p : K → V → Bool) (m : Dict K V) → AllValues P m → AllValues P (retain p m)
    unfolding retain
    retain-AllValues p [] h = h
    retain-AllValues p ((i, w) ∷ m) h = elim (Bool-cases (p i w)) [
      | inl kept ↦ rw kept (h.0, retain-AllValues p m h.1)
      | inr gone ↦ rw gone (retain-AllValues p m h.1)
    ]
