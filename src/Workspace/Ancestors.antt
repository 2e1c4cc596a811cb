-- ===== src/Workspace/Ancestors.antt =====
-- `ancestor_chain` of agentiso/src/workspace/snapshot.rs ends on every map of snapshots, cyclic or
-- not.
use agentiso.Prelude.{
  ℕ, zero, suc, ◌+◌, ◌≤◌, ◌≡◌, refl, sym, ◌∙◌, true, false, none, some, List, [], ◌∷◌, ◌++◌, nat_eq,
  nat_beq_iff, length, length-append, Bool-cases, Option-cases, inl, inr, ◌⊎◌, arith,
}
use mathlib.Core.List.{append-nil, append_assoc}
use agentiso.Prelude.Dict.{Dict}
use agentiso.Prelude.Dict
use agentiso.Prelude.Set
use agentiso.Workspace.Snapshots.{
  Uuid, Snapshot, SnapshotTree, parent_of, chain_loop, ancestor_chain,
}

keys : Dict Uuid Snapshot → List Uuid
keys [] = []
keys ((j, s) ∷ rest) = j ∷ keys rest

length-keys : (m : Dict Uuid Snapshot) → length (keys m) ≡ length m
unfolding keys
length-keys [] = refl
length-keys ((j, s) ∷ rest) = omega (arith, length-keys rest)

lookup-keys :
    (k : Uuid) (s : Snapshot) (m : Dict Uuid Snapshot)
    → Dict.lookup k m ≡ some s
    → Set.contains k (keys m) ≡ true
unfolding keys Dict.lookup Set.contains
lookup-keys k s [] e = absurd (cc)
lookup-keys k s ((j, x) ∷ rest) e = ground (arith, lookup-keys k s rest)

-- Each element but the last is followed by its parent.
abbrev pub IsLineage : SnapshotTree → List Uuid → Type 0
IsLineage t [] = Unit
IsLineage t (x ∷ []) = Unit
IsLineage t (x ∷ y ∷ r) = (parent_of x t ≡ some y) × IsLineage t (y ∷ r)

IsLineage-snoc :
    (t : SnapshotTree) (xs : List Uuid) (a b : Uuid)
    → IsLineage t (xs ++ a ∷ [])
    → parent_of a t ≡ some b
    → IsLineage t ((xs ++ a ∷ []) ++ b ∷ [])
IsLineage-snoc t [] a b h p = (p, tt)
IsLineage-snoc t (x ∷ []) a b h p = (h.0, (p, tt))
IsLineage-snoc t (x ∷ y ∷ r) a b h p = (h.0, IsLineage-snoc t (y ∷ r) a b h.1 p)

-- The last element has no parent, or one that is in the list already.
abbrev pub Stops : SnapshotTree → List Uuid → Type 0
Stops t r =
    (xs : List Uuid) × (a : Uuid) × (r ≡ xs ++ a ∷ [])
    × ((parent_of a t ≡ none) ⊎ ((p : Uuid) × (parent_of a t ≡ some p) × (Set.contains p r ≡ true)))

-- The ancestors of an identifier: itself first, none twice, each followed by its parent, up to one
-- that has no parent or whose parent is there already.
pub record IsChain (t : SnapshotTree) (start : List Uuid) (r : List Uuid) : Type 0 where
  pub begins : (rest : List Uuid) × (r ≡ start ++ rest)
  pub distinct : Set.IsDistinct r
  pub lineage : IsLineage t r
  pub stops : Stops t r

-- Where the loop stands: at `cid`, the parent of the last element of the chain.
record At (t : SnapshotTree) (xs : List Uuid) (a cid : Uuid) : Type 0 where
  distinct : Set.IsDistinct (xs ++ a ∷ [])
  lineage : IsLineage t (xs ++ a ∷ [])
  follows : parent_of a t ≡ some cid
  known :
      (k : Uuid) → Set.contains k (xs ++ a ∷ []) ≡ true → Set.contains k (keys t.snapshots) ≡ true

parent_known :
    (t : SnapshotTree) (cid p : Uuid)
    → parent_of cid t ≡ some p
    → Set.contains cid (keys t.snapshots) ≡ true
parent_known t cid p e = elim (Option-cases (Dict.lookup cid t.snapshots)) [
  | inl absent ↦ absurd (ground arith)
  | inr (s, found) ↦ lookup-keys cid s t.snapshots found
]

At-next :
    (t : SnapshotTree) (xs : List Uuid) (a cid p : Uuid)
    → At t xs a cid
    → Set.contains cid (xs ++ a ∷ []) ≡ false
    → parent_of cid t ≡ some p
    → At t (xs ++ a ∷ []) cid p
unfolding Set.contains
At-next t xs a cid p now fresh e =
    let listed : Set.contains cid (keys t.snapshots) ≡ true = parent_known t cid p e in
    record {
      distinct = Set.snoc-IsDistinct (xs ++ a ∷ []) cid now.distinct fresh;
      lineage = IsLineage-snoc t xs a cid now.lineage now.follows;
      follows = e;
      known = λ k h.
          ground (
            arith,
            Set.contains-append k (xs ++ a ∷ []) (cid ∷ []),
            now.known k,
            nat_beq_iff cid k,
          );
    }

chain_stops :
    (fuel : ℕ) (chain : List Uuid) (t : SnapshotTree)
    → 1 ≤ fuel
    → chain_loop fuel chain none t ≡ some chain
unfolding chain_loop
chain_stops zero chain t h = absurd (omega arith)
chain_stops (suc fuel) chain t h = refl

module _ (t : SnapshotTree) where
  enough :
      (fuel : ℕ) (xs : List Uuid) (a cid : Uuid)
      → At t xs a cid
      → length t.snapshots + 2 ≤ fuel + length (xs ++ a ∷ [])
      → 2 ≤ fuel
  enough fuel xs a cid now h = omega (
    arith,
    length-keys t.snapshots,
    Set.length-le_of_subset (xs ++ a ∷ []) (keys t.snapshots) now.distinct now.known,
  )

  chain_loop_total :
      (fuel : ℕ) (xs : List Uuid) (a cid : Uuid)
      → At t xs a cid
      → length t.snapshots + 2 ≤ fuel + length (xs ++ a ∷ [])
      → (r : List Uuid) × (chain_loop fuel (xs ++ a ∷ []) (some cid) t ≡ some r)
        × IsChain t (xs ++ a ∷ []) r
  unfolding chain_loop
  chain_loop_total zero xs a cid now h = absurd (omega (arith, enough zero xs a cid now h))
  chain_loop_total (suc fuel) xs a cid now h = elim (Bool-cases (Set.contains cid (xs ++ a ∷ []))) [
    | inl again ↦ (
      xs ++ a ∷ [],
      rw again,
      record {
        begins = ([], sym (append-nil (xs ++ a ∷ [])));
        distinct = now.distinct;
        lineage = now.lineage;
        stops = (xs, a, refl, inr (cid, now.follows, again));
      },
    )
    | inr fresh ↦ elim (Option-cases (parent_of cid t)) [
      | inl root ↦ (
        (xs ++ a ∷ []) ++ cid ∷ [],
        rw (fresh, root)
            (chain_stops fuel ((xs ++ a ∷ []) ++ cid ∷ []) t
              (omega (arith, enough (suc fuel) xs a cid now h))),
        record {
          begins = (cid ∷ [], refl);
          distinct = Set.snoc-IsDistinct (xs ++ a ∷ []) cid now.distinct fresh;
          lineage = IsLineage-snoc t xs a cid now.lineage now.follows;
          stops = (xs ++ a ∷ [], cid, refl, inl root);
        },
      )
      | inr (p, e) ↦
          let (r, ran, chain) =
            chain_loop_total fuel (xs ++ a ∷ []) cid p (At-next t xs a cid p now fresh e)
              (omega (arith, length-append (xs ++ a ∷ []) (cid ∷ []))) in
          (
            r,
            rw (fresh, e) ran,
            record {
              begins = (
                cid ∷ chain.begins.0,
                chain.begins.1 ∙ append_assoc (xs ++ a ∷ []) (cid ∷ []) chain.begins.0,
              );
              distinct = chain.distinct;
              lineage = chain.lineage;
              stops = chain.stops;
            },
          )
    ]
  ]

  -- On every map of snapshots, cyclic or not, `ancestor_chain` ends: it gives the identifier and its
  -- ancestors in order, none twice, up to one without a parent in the tree or the first one that
  -- would repeat.
  pub ancestor_chain_total :
      (id : Uuid) → (r : List Uuid) × (ancestor_chain id t ≡ some r) × IsChain t (id ∷ []) r
  unfolding ancestor_chain Set.contains
  ancestor_chain_total id = elim (Option-cases (parent_of id t)) [
    | inl root ↦ (
      id ∷ [],
      rw root,
      record {
        begins = ([], refl);
        distinct = (refl, tt);
        lineage = tt;
        stops = ([], id, refl, inl root);
      },
    )
    | inr (p, e) ↦ rw e (
        chain_loop_total (suc (suc (length t.snapshots))) [] id p
          (record {
            distinct = (refl, tt);
            lineage = tt;
            follows = e;
            known = λ k h. ground (arith, nat_beq_iff id k, parent_known t id p e);
          })
          (omega arith))
  ]
