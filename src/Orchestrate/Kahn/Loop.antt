-- ===== src/Orchestrate/Kahn/Loop.antt =====
-- The loop of `validate_team_dag` (agentiso/src/workspace/orchestrate.rs) ends, and what it has
-- finished is in order.
use agentiso.Prelude.{
  ℕ, zero, suc, ◌+◌, ◌^◌, ◌≤◌, ◌<◌, ◌≡◌, refl, sym, ◌∙◌, subst, true, false, ◌||◌, some, List, [],
  ◌∷◌, ◌++◌, Str, str_eq, str_beq_iff, nat_eq, length, length-append, ◌==◌, arith,
}
use mathlib.Core.List.{append-nil, append_assoc}
use agentiso.Prelude.Dict.{Dict}
use agentiso.Prelude.Dict
use agentiso.Prelude.Set
use agentiso.Orchestrate.TeamDag.{dependents_of, kahn_loop, sort}
use agentiso.Orchestrate.Kahn.Sorting.{contains-sort, sort-IsDistinct}
use agentiso.Orchestrate.Kahn.Degrees.{
  count, pending, pending-snoc, pending_none, Released, Covers, release_dependents_total,
}

-- Each element of the second list has its edges from elements before it, or in the first list.
abbrev pub IsOrdered : Dict Str (List Str) → List Str → List Str → Type 0
IsOrdered m done [] = Unit
IsOrdered m done (y ∷ ys) =
    ((v : Str) → 1 ≤ count y (dependents_of v m) → Set.contains v done ≡ true)
    × IsOrdered m (done ++ y ∷ []) ys

IsOrdered-snoc :
    (m : Dict Str (List Str)) (done xs : List Str) (y : Str)
    → IsOrdered m done xs
    → ((v : Str) → 1 ≤ count y (dependents_of v m) → Set.contains v (done ++ xs) ≡ true)
    → IsOrdered m done (xs ++ y ∷ [])
IsOrdered-snoc m done [] y h last = (λ v e. rw⁻¹ (append-nil done) (last v e), tt)
IsOrdered-snoc m done (x ∷ xs) y h last = (
  h.0,
  IsOrdered-snoc m (done ++ x ∷ []) xs y h.1 (λ v e. rw (append_assoc done (x ∷ []) xs) (last v e)),
)

module _ (ids : List Str) (m : Dict Str (List Str)) (single : Dict.IsDistinct m)
    (known : (x v : Str) → 1 ≤ count x (dependents_of v m) → Set.contains x ids ≡ true) where
  -- The state of the loop: the tasks finished and the tasks in the queue are different tasks of the
  -- plan, the degrees count the edges from the others, and the tasks without such edges are those.
  pub record IsState (queue : List Str) (degrees : Dict Str ℕ) (result : List Str) : Type 0 where
    pub distinct : Set.IsDistinct (result ++ queue)
    pub inside : (x : Str) → Set.contains x (result ++ queue) ≡ true → Set.contains x ids ≡ true
    pub degree :
        (x : Str) → Set.contains x ids ≡ true → Dict.lookup x degrees ≡ some (pending x result m)
    pub small : (x : Str) → pending x result m < 2 ^ 64
    pub free :
        (x : Str)
        → Set.contains x ids ≡ true
        → Set.contains x (result ++ queue) ≡ (pending x result m == 0)
    pub ordered : IsOrdered m [] result

  state-Covers :
      (node : Str) (queue : List Str) (degrees : Dict Str ℕ) (result : List Str)
      → IsState (node ∷ queue) degrees result
      → Set.contains node result ≡ false
      → Covers degrees (dependents_of node m)
  state-Covers node queue degrees result s fresh x h = (
    pending x result m,
    s.degree x (known x node h),
    omega (arith, pending-snoc x node result m single fresh),
    s.small x,
  )

  pending_after :
      (x node : Str) (result : List Str)
      → Set.contains node result ≡ false
      → pending x result m ≡ count x (dependents_of node m) + pending x (result ++ node ∷ []) m
  pending_after x node result fresh = pending-snoc x node result m single fresh

  IsDistinct-append :
      (xs ys : List Str)
      → Set.IsDistinct xs
      → Set.IsDistinct ys
      → ((x : Str) → Set.contains x ys ≡ true → Set.contains x xs ≡ false)
      → Set.IsDistinct (xs ++ ys)
  unfolding Set.contains
  IsDistinct-append [] ys dx dy apart = dy
  IsDistinct-append (x ∷ xs) ys dx dy apart =
      let rest = IsDistinct-append xs ys dx.1 dy (λ a h. ground (arith, apart a h)) in
      ground (arith, Set.contains-append x xs ys, apart x, str_beq_iff x x)

  regroup :
      (node : Str) (queue new result : List Str)
      → (result ++ node ∷ []) ++ (queue ++ new) ≡ (result ++ node ∷ queue) ++ new
  regroup node queue new result =
      append_assoc result (node ∷ []) (queue ++ new) ∙ sym (append_assoc result (node ∷ queue) new)

  contains_new :
      (x node : Str) (queue next result : List Str)
      → Set.contains x ((result ++ node ∷ []) ++ (queue ++ sort next))
        ≡ (Set.contains x (result ++ node ∷ queue) || Set.contains x next)
  contains_new x node queue next result = rw (regroup node queue (sort next) result) (
      ground
        (arith, Set.contains-append x (result ++ node ∷ queue) (sort next), contains-sort x next))

  node_inside :
      (node : Str) (queue result : List Str) → Set.contains node (result ++ node ∷ queue) ≡ true
  unfolding Set.contains
  node_inside node queue result =
      ground (arith, Set.contains-append node result (node ∷ queue), str_beq_iff node node)

  next-IsState :
      (node : Str) (queue : List Str) (degrees after : Dict Str ℕ) (next result : List Str)
      → IsState (node ∷ queue) degrees result
      → Set.contains node result ≡ false
      → Released (dependents_of node m) degrees after next
      → IsState (queue ++ sort next) after (result ++ node ∷ [])
  next-IsState node queue degrees after next result s fresh r = record {
    distinct = subst Set.IsDistinct (sym (regroup node queue (sort next) result)) (
        IsDistinct-append (result ++ node ∷ queue) (sort next) s.distinct
          (sort-IsDistinct next r.distinct)
          (λ x h.
            let edge : 1 ≤ count x (dependents_of node m) =
              r.only x (sym (contains-sort x next) ∙ h) in
            ground (arith, s.free x (known x node edge), edge, pending_after x node result fresh)));
    inside = λ x h.
        ground (arith, contains_new x node queue next result, s.inside x, r.only x, known x node);
    degree = λ x h.
        ground (
          arith,
          r.degree x (pending x result m) (s.degree x h),
          pending_after x node result fresh,
        );
    small = λ x. omega (arith, pending_after x node result fresh, s.small x);
    free = λ x h. ground (
      arith,
      contains_new x node queue next result,
      s.free x h,
      r.freed x (pending x result m) (s.degree x h),
      pending_after x node result fresh,
    );
    ordered = IsOrdered-snoc m [] result node s.ordered (λ v edge.
        pending_none node v result m
          (ground (
            arith,
            node_inside node queue result,
            s.free node (s.inside node (node_inside node queue result)),
          ))
          edge);
  }

  head_fresh :
      (node : Str) (queue result : List Str)
      → Set.IsDistinct (result ++ node ∷ queue)
      → Set.contains node result ≡ false
  unfolding Set.contains
  head_fresh node queue [] d = refl
  head_fresh node queue (x ∷ xs) d = ground (
    arith,
    head_fresh node queue xs d.1,
    Set.contains-append x xs (node ∷ queue),
    str_beq_iff x node,
    str_beq_iff node node,
  )

  pub kahn_loop_total :
      (fuel : ℕ) (queue : List Str) (degrees : Dict Str ℕ) (result : List Str)
      → IsState queue degrees result
      → length ids + 1 ≤ fuel + length result
      → (last : Dict Str ℕ) × (order : List Str) × (kahn_loop fuel m queue degrees result
          ≡ some (last, order))
        × IsState [] last order
  unfolding kahn_loop
  kahn_loop_total zero queue degrees result s h = absurd (
      omega (
        arith,
        length-append result queue,
        Set.length-le_of_subset (result ++ queue) ids s.distinct s.inside,
      ))
  kahn_loop_total (suc fuel) [] degrees result s h = (degrees, result, refl, s)
  kahn_loop_total (suc fuel) (node ∷ queue) degrees result s h =
      let fresh = head_fresh node queue result s.distinct in
      let (after, next, ran, r) =
        release_dependents_total (dependents_of node m) degrees []
          (state-Covers node queue degrees result s fresh) in
      let (last, order, rest, end) =
        kahn_loop_total fuel (queue ++ sort next) after (result ++ node ∷ [])
          (next-IsState node queue degrees after next result s fresh r)
          (omega (arith, length-append result (node ∷ []))) in
      (last, order, rw (ran, kahn_loop) rest, end)
