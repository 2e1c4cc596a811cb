-- ===== src/Orchestrate/Kahn/Graph.antt =====
-- The maps that `validate_team_dag` (agentiso/src/workspace/orchestrate.rs) builds from the tasks.
use agentiso.Prelude.{
  ℕ, ◌+◌, ◌^◌, ◌≤◌, ◌<◌, ◌≡◌, refl, ◌∙◌, ap, Bool, true, false, not, ◌||◌, none, some, List, [],
  ◌∷◌, ◌++◌, Str, str_eq, str_beq_iff, nat_eq, ltb, ◌==◌, if◌then◌else◌, Bool-cases, inl, inr,
  arith,
}
use agentiso.Prelude.Word.{u64}
use agentiso.Prelude.Dict.{Dict}
use agentiso.Prelude.Dict
use agentiso.Prelude.Set
use agentiso.Orchestrate.TeamDag.{
  Graph, degree_of, dependents_of, init_degrees, add_edge, keys_where,
}
use agentiso.Orchestrate.Kahn.Degrees.{count, pending}

count-snoc :
    (x t : Str) (xs : List Str) → count x (xs ++ t ∷ []) ≡ count x xs + (if t == x then 1 else 0)
unfolding count
count-snoc x t [] = ground arith
count-snoc x t (y ∷ ys) = ground (arith, count-snoc x t ys)

pending-insert :
    (x dep : Str) (ws : List Str) (m : Dict Str (List Str))
    → pending x [] (Dict.insert dep ws m) + count x (dependents_of dep m)
      ≡ pending x [] m + count x ws
unfolding pending count Dict.insert Dict.lookup Set.contains
pending-insert x dep ws [] = omega arith
pending-insert x dep ws ((v, xs) ∷ m) = elim (Bool-cases (v == dep)) [
  | inl this ↦ ground arith
  | inr other ↦ ground (arith, pending-insert x dep ws m)
]

dependents_of-insert :
    (v dep : Str) (ws : List Str) (m : Dict Str (List Str))
    → dependents_of v (Dict.insert dep ws m) ≡ (if dep == v then ws else dependents_of v m)
dependents_of-insert v dep ws m = elim (Bool-cases (dep == v)) [
  | inl this ↦ rw (Dict.lookup-insert dep v ws m, this, dependents_of) refl
  | inr other ↦ rw (Dict.lookup-insert dep v ws m, other, dependents_of) refl
]

-- What one more edge does to the counts.
pending-edge :
    (x dep t : Str) (m : Dict Str (List Str))
    → pending x [] (Dict.insert dep (dependents_of dep m ++ t ∷ []) m)
      ≡ pending x [] m + (if t == x then 1 else 0)
pending-edge x dep t m = omega (
  arith,
  pending-insert x dep (dependents_of dep m ++ t ∷ []) m,
  count-snoc x t (dependents_of dep m),
)

pub count-edge :
    (x v dep t : Str) (m : Dict Str (List Str))
    → count x (dependents_of v (Dict.insert dep (dependents_of dep m ++ t ∷ []) m)) ≡ (
        if dep == v
        then count x (dependents_of dep m) + (if t == x then 1 else 0)
        else count x (dependents_of v m))
count-edge x v dep t m =
    ap (count x) (dependents_of-insert v dep (dependents_of dep m ++ t ∷ []) m)
    ∙ (elim (Bool-cases (dep == v)) [
      | inl this ↦ rw this (count-snoc x t (dependents_of dep m))
      | inr other ↦ rw other refl
    ])

init_degrees-lookup :
    (x : Str) (ids : List Str) (m : Dict Str ℕ)
    → Dict.lookup x (init_degrees ids m)
      ≡ (if Set.contains x ids then some (degree_of x m) else Dict.lookup x m)
unfolding init_degrees Set.contains
init_degrees-lookup x [] m = refl
init_degrees-lookup x (id ∷ ids) m = ground (
  arith,
  init_degrees-lookup x ids (Dict.insert id (degree_of id m) m),
  Dict.lookup-insert id x (degree_of id m) m,
  str_beq_iff id x,
)

init_degrees-IsDistinct :
    (ids : List Str) (m : Dict Str ℕ) → Dict.IsDistinct m → Dict.IsDistinct (init_degrees ids m)
unfolding init_degrees
init_degrees-IsDistinct [] m d = d
init_degrees-IsDistinct (id ∷ ids) m d =
    init_degrees-IsDistinct ids (Dict.insert id (degree_of id m) m)
      (Dict.insert-IsDistinct id (degree_of id m) m d)

pub contains-keys_where :
    (p : ℕ → Bool) (x : Str) (m : Dict Str ℕ)
    → Dict.IsDistinct m
    → Set.contains x (keys_where p m) ≡ elim (Dict.lookup x m) [ none ↦ false | some n ↦ p n ]
unfolding Set.contains Dict.lookup
contains-keys_where p x [] d = refl
contains-keys_where p x ((v, n) ∷ m) d =
    ground (arith, contains-keys_where p x m d.1, str_beq_iff v x)

pub keys_where-IsDistinct :
    (p : ℕ → Bool) (m : Dict Str ℕ) → Dict.IsDistinct m → Set.IsDistinct (keys_where p m)
keys_where-IsDistinct p [] d = tt
keys_where-IsDistinct p ((v, n) ∷ m) d =
    ground (arith, keys_where-IsDistinct p m d.1, contains-keys_where p v m d.1)

-- The maps after a number of edges.
pub record IsGraph (ids : List Str) (edges : ℕ) (g : Graph) : Type 0 where
  pub single : Dict.IsDistinct g.dependents
  pub once : Dict.IsDistinct g.in_degree
  pub known : (x v : Str) → 1 ≤ count x (dependents_of v g.dependents) → Set.contains x ids ≡ true
  pub degree :
      (x : Str)
      → Dict.lookup x g.in_degree
        ≡ (if Set.contains x ids then some (pending x [] g.dependents) else none)
  pub few : (x : Str) → pending x [] g.dependents ≤ edges

pub empty-IsGraph :
    (ids : List Str) → IsGraph ids 0 (record { in_degree = init_degrees ids []; dependents = [] })
unfolding pending count Dict.lookup
empty-IsGraph ids = record {
  single = tt;
  once = init_degrees-IsDistinct ids [] tt;
  known = λ x v h. absurd (omega arith);
  degree = λ x. init_degrees-lookup x ids [];
  few = λ x. omega arith;
}

pub add_edge-IsGraph :
    (ids id_set : List Str) (edges : ℕ) (t dep : Str) (g : Graph)
    → Set.contains t ids ≡ true
    → edges + 1 < 2 ^ 64
    → IsGraph ids edges g
    → IsGraph ids (edges + 1) (add_edge id_set t dep g)
unfolding add_edge
add_edge-IsGraph ids id_set edges t dep g mine small v =
    elim (Bool-cases (Set.contains dep id_set)) [
      | inl listed ↦ rw listed (record {
        single =
            Dict.insert-IsDistinct dep (dependents_of dep g.dependents ++ t ∷ []) g.dependents
              v.single;
        once = Dict.insert-IsDistinct t (u64 (degree_of t g.in_degree + 1)) g.in_degree v.once;
        known = λ x w h.
            ground (
              arith,
              count-edge x w dep t g.dependents,
              v.known x w,
              v.known x dep,
              str_beq_iff t x,
            );
        degree = λ x. ground (
          arith,
          Dict.lookup-insert t x (u64 (degree_of t g.in_degree + 1)) g.in_degree,
          pending-edge x dep t g.dependents,
          v.degree x,
          v.degree t,
          v.few t,
          str_beq_iff t x,
        );
        few = λ x. ground (arith, pending-edge x dep t g.dependents, v.few x);
      })
      | inr missing ↦ rw missing (record {
        single = v.single;
        once = v.once;
        known = v.known;
        degree = v.degree;
        few = λ x. omega (arith, v.few x);
      })
    ]

-- Edges are never lost.
pub record Grows (g h : Graph) : Type 0 where
  pub grows :
      (x v : Str) → count x (dependents_of v g.dependents) ≤ count x (dependents_of v h.dependents)

pub Grows-refl : (g : Graph) → Grows g g
Grows-refl g = record { grows = λ x v. omega arith }

pub Grows-trans : (g h k : Graph) → Grows g h → Grows h k → Grows g k
Grows-trans g h k a b = record { grows = λ x v. omega (arith, a.grows x v, b.grows x v) }

pub add_edge-Grows :
    (id_set : List Str) (t dep : Str) (g : Graph) → Grows g (add_edge id_set t dep g)
unfolding add_edge
add_edge-Grows id_set t dep g = elim (Bool-cases (Set.contains dep id_set)) [
  | inl listed ↦ rw listed (record {
    grows = λ x v. ground (arith, count-edge x v dep t g.dependents, str_beq_iff dep v);
  })
  | inr missing ↦ rw missing (Grows-refl g)
]

-- Whether an edge is there, if it has to be.
abbrev pub has_edge : List Str → Str → Graph → Str → Bool
has_edge id_set t g d =
    not (Set.contains d id_set) || ltb 0 (count t (dependents_of d g.dependents))

pub add_edge-has_edge :
    (id_set : List Str) (t dep : Str) (g : Graph)
    → has_edge id_set t (add_edge id_set t dep g) dep ≡ true
unfolding add_edge
add_edge-has_edge id_set t dep g = elim (Bool-cases (Set.contains dep id_set)) [
  | inl listed ↦
      rw listed
        (ground (arith, count-edge t dep dep t g.dependents, str_beq_iff t t, str_beq_iff dep dep))
  | inr missing ↦ rw missing refl
]

pub Grows-has_edge :
    (id_set : List Str) (t d : Str) (g h : Graph)
    → Grows g h
    → has_edge id_set t g d ≡ true
    → has_edge id_set t h d ≡ true
Grows-has_edge id_set t d g h more e = ground (arith, more.grows t d)
