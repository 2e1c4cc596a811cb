-- ===== src/Orchestrate/Kahn/Degrees.antt =====
-- The degrees of `validate_team_dag` (agentiso/src/workspace/orchestrate.rs) count the edges from
-- tasks that are not finished.
use agentiso.Prelude.{
  ℕ, suc, ◌+◌, ◌-◌, ◌^◌, ◌≤◌, ◌<◌, ◌≡◌, refl, ◌∙◌, ap, true, false, ◌&&◌, none, some, List, [], ◌∷◌,
  ◌++◌, Str, str_eq, str_beq_iff, nat_eq, ltb, ◌==◌, if◌then◌else◌, Bool-cases, inl, inr, arith,
}
use mathlib.Core.List.{append-nil, append_assoc}
use agentiso.Prelude.Word.{u64}
use agentiso.Prelude.Dict.{Dict}
use agentiso.Prelude.Dict
use agentiso.Prelude.Set
use agentiso.Orchestrate.TeamDag.{dependents_of, release_dependents}

-- How often a text stands in a list.
unfoldable pub count : Str → List Str → ℕ
count x [] = 0
count x (y ∷ ys) = let rest = count x ys in if y == x then suc rest else rest

-- The edges into a task from tasks that are not in the list.
unfoldable pub pending : Str → List Str → Dict Str (List Str) → ℕ
unfolding count
pending x done [] = 0
pending x done ((v, xs) ∷ m) =
    let rest = pending x done m in if Set.contains v done then rest else count x xs + rest

pending_absent :
    (x v : Str) (done : List Str) (m : Dict Str (List Str))
    → Dict.lookup v m ≡ none
    → pending x (done ++ v ∷ []) m ≡ pending x done m
unfolding pending Dict.lookup Set.contains
pending_absent x v done [] h = refl
pending_absent x v done ((w, xs) ∷ m) h = ground (
  arith,
  pending_absent x v done m,
  Set.contains-append w done (v ∷ []),
  str_beq_iff v w,
  str_beq_iff w v,
)

-- Finishing a task takes its own edges away.
pub pending-snoc :
    (x v : Str) (done : List Str) (m : Dict Str (List Str))
    → Dict.IsDistinct m
    → Set.contains v done ≡ false
    → pending x done m ≡ count x (dependents_of v m) + pending x (done ++ v ∷ []) m
unfolding pending count Dict.lookup Set.contains
pending-snoc x v done [] d h = refl
pending-snoc x v done ((w, xs) ∷ m) d h = ground (
  arith,
  pending-snoc x v done m d.1,
  pending_absent x v done m,
  Set.contains-append w done (v ∷ []),
  str_beq_iff v w,
  str_beq_iff w v,
)

-- A task without pending edges: whoever has an edge to it is finished.
pub pending_none :
    (x v : Str) (done : List Str) (m : Dict Str (List Str))
    → pending x done m ≡ 0
    → 1 ≤ count x (dependents_of v m)
    → Set.contains v done ≡ true
unfolding pending count Dict.lookup
pending_none x v done [] e h = absurd (omega arith)
pending_none x v done ((w, xs) ∷ m) e h = ground (arith, pending_none x v done m, str_beq_iff w v)

-- What a run over the dependents of a finished task leaves: every degree less by the number of times
-- the task stands there, and the tasks whose degree went to 0, none twice.
pub record Released (deps : List Str) (degrees after : Dict Str ℕ) (next : List Str) : Type 0 where
  pub degree :
      (x : Str) (n : ℕ)
      → Dict.lookup x degrees ≡ some n
      → Dict.lookup x after ≡ some (n - count x deps)
  pub distinct : Set.IsDistinct next
  pub freed :
      (x : Str) (n : ℕ)
      → Dict.lookup x degrees ≡ some n
      → Set.contains x next ≡ (ltb 0 (count x deps) && n == count x deps)
  pub only : (x : Str) → Set.contains x next ≡ true → 1 ≤ count x deps
  pub absent : (x : Str) → Dict.lookup x degrees ≡ none → Dict.lookup x after ≡ none

-- The degrees suffice for a list of dependents.
abbrev pub Covers : Dict Str ℕ → List Str → Type 0
Covers degrees deps =
    (x : Str)
    → 1 ≤ count x deps
    → (n : ℕ) × (Dict.lookup x degrees ≡ some n) × (count x deps ≤ n) × (n < 2 ^ 64)

wrap_pred : (m : ℕ) → 1 ≤ m → m < 2 ^ 64 → u64 (m + 2 ^ 64 - 1) ≡ m - 1
wrap_pred m lo hi = omega arith

Covers-rest :
    (d : Str) (ds : List Str) (degrees : Dict Str ℕ) (m : ℕ)
    → Covers degrees (d ∷ ds)
    → Dict.lookup d degrees ≡ some m
    → Covers (Dict.insert d (m - 1) degrees) ds
unfolding count
Covers-rest d ds degrees m cov e x h = elim (Bool-cases (d == x)) [
  | inl same ↦
      let (n, found, few, small) = cov d (ground (arith, str_beq_iff d d)) in
      (
        m - 1,
        ground (arith, Dict.lookup-insert d x (m - 1) degrees, str_beq_iff d x),
        ground (arith, str_beq_iff d x, str_beq_iff d d),
        ground (arith, str_beq_iff d x),
      )
  | inr other ↦
      let (n, found, few, small) = cov x (ground arith) in
      (n, ground (arith, Dict.lookup-insert d x (m - 1) degrees), ground arith, small)
]

abbrev freed_now : Str → ℕ → List Str → List Str
freed_now d left next = if left == 0 then d ∷ next else next

freed_joined :
    (d : Str) (left : ℕ) (acc next : List Str)
    → (if left == 0 then acc ++ d ∷ [] else acc) ++ next ≡ acc ++ freed_now d left next
freed_joined d left acc next = elim (Bool-cases (left == 0)) [
  | inl free ↦ rw free (append_assoc acc (d ∷ []) next)
  | inr busy ↦ rw busy refl
]

Released-rest :
    (d : Str) (ds : List Str) (degrees after : Dict Str ℕ) (next : List Str) (m : ℕ)
    → Dict.lookup d degrees ≡ some m
    → suc (count d ds) ≤ m
    → Released ds (Dict.insert d (m - 1) degrees) after next
    → Released (d ∷ ds) degrees after (freed_now d (m - 1) next)
unfolding count Set.contains
Released-rest d ds degrees after next m e few r = record {
  degree = λ x n found. ground (
    arith,
    Dict.lookup-insert d x (m - 1) degrees,
    str_beq_iff d x,
    r.degree x n,
    r.degree x (m - 1),
  );
  distinct = ground (arith, r.distinct, r.only d);
  freed = λ x n found. ground (
    arith,
    Dict.lookup-insert d x (m - 1) degrees,
    str_beq_iff d x,
    r.freed x n,
    r.freed x (m - 1),
  );
  only = λ x h. ground (arith, r.only x, str_beq_iff d x);
  absent =
      λ x h. ground (arith, Dict.lookup-insert d x (m - 1) degrees, str_beq_iff d x, r.absent x);
}

release_step :
    (d : Str) (ds : List Str) (degrees : Dict Str ℕ) (acc : List Str) (m : ℕ)
    → Dict.lookup d degrees ≡ some m
    → 1 ≤ m
    → m < 2 ^ 64
    → release_dependents (d ∷ ds) degrees acc
      ≡ release_dependents ds
          (Dict.insert d (m - 1) degrees)
          (if m - 1 == 0 then acc ++ d ∷ [] else acc)
unfolding release_dependents
release_step d ds degrees acc m e lo hi =
    rw (e, release_dependents)
      (ap
        (λ left.
          release_dependents ds (Dict.insert d left degrees)
            (if left == 0 then acc ++ d ∷ [] else acc))
        (wrap_pred m lo hi))

pub release_dependents_total :
    (deps : List Str) (degrees : Dict Str ℕ) (acc : List Str)
    → Covers degrees deps
    → (after : Dict Str ℕ) × (next : List Str) × (release_dependents deps degrees acc
        ≡ some (after, acc ++ next))
      × Released deps degrees after next
unfolding release_dependents count Set.contains
release_dependents_total [] degrees acc cov = (
  degrees,
  [],
  rw (append-nil acc),
  record {
    degree = λ x n e. ground arith;
    distinct = tt;
    freed = λ x n e. refl;
    only = λ x h. absurd (cc);
    absent = λ x e. e;
  },
)
release_dependents_total (d ∷ ds) degrees acc cov =
    let (m, found, few, small) = cov d (ground (arith, str_beq_iff d d)) in
    let enough : suc (count d ds) ≤ m = ground (arith, str_beq_iff d d) in
    let (after, next, ran, r) =
      release_dependents_total ds (Dict.insert d (m - 1) degrees)
        (if m - 1 == 0 then acc ++ d ∷ [] else acc) (Covers-rest d ds degrees m cov found) in
    (
      after,
      freed_now d (m - 1) next,
      release_step d ds degrees acc m found (omega arith) small
          ∙ ran
          ∙ ap (λ t. some (after, t)) (freed_joined d (m - 1) acc next),
      Released-rest d ds degrees after next m found enough r,
    )
