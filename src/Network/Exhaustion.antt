-- ===== src/Network/Exhaustion.antt =====
-- `allocate` of agentiso/src/network/dhcp.rs when every address is taken.
use native.Mathlib.Decide.{dec_lt, ℕ_discrete}
use agentiso.Prelude.{
  ℕ, zero, suc, ◌+◌, ◌≤◌, ◌<◌, ◌≡◌, refl, ap, ◌∙◌, ◌≢◌, true, none, some, err, nat_eq, nat_beq_iff,
  arith,
}
use agentiso.Prelude.Set.{contains-insert, contains-remove}
use agentiso.Prelude.Set
use agentiso.Network.Ip.{
  Ipv4Addr, exhausted, IpAllocator, max_offset, offset_of, probed, following, allocate_loop, rounds,
  allocate, mark_allocated,
}
use agentiso.Network.Allocation.{
  probed_bounds, probed_eq, following_eq, loop_steps, loop_stops, loop-probed,
}

-- Every address from .0.`low` to .255.254 is taken.
abbrev pub AllTaken : ℕ → IpAllocator → Type 0
AllTaken low alloc = (y : ℕ) → low ≤ y → y ≤ max_offset → Set.contains y alloc.allocated ≡ true

module _ (alloc : IpAllocator) (full : AllTaken 2 alloc) where
  probed_full : (o : ℕ) → 2 ≤ o → Set.contains (probed o) alloc.allocated ≡ true
  probed_full o lo = full (probed o) (ground arith) (ground arith)

  step_full :
      (f s o : ℕ)
      → 2 ≤ o
      → o ≤ max_offset
      → (o + 1) ≢ s
      → allocate_loop (suc f) s o alloc ≡ allocate_loop f s (o + 1) alloc
  step_full f s o lo hi ne =
      let next : following (probed o) ≡ o + 1 = rw (probed_eq o lo hi) (following_eq o hi) in
      loop_steps alloc f s o (probed_full o lo) (rw next (ground (arith, nat_beq_iff (o + 1) s)))
      ∙ ap (λ n. allocate_loop f s n alloc) next

  -- Below `start` the loop goes up to it and gives up.
  stops_below :
      (f s o : ℕ)
      → 2 ≤ o
      → o < s
      → s ≤ 0xffff
      → s ≤ o + f
      → allocate_loop f s o alloc ≡ some (alloc, err exhausted)
  stops_below zero s o lo lt hi fuel = absurd (omega arith)
  stops_below (suc f) s o lo lt hi fuel = elim (ℕ_discrete (o + 1) s) [
    | yes back ↦ loop_stops alloc f s o (probed_full o lo) (
        rw (probed_eq o lo (omega arith), following_eq o (omega arith))
          ((nat_beq_iff (o + 1) s).1 back))
    | no on ↦
        step_full f s o lo (omega arith) on
        ∙ stops_below f s (o + 1) (omega arith) (omega arith) hi (omega arith)
  ]

  -- From `start` on it goes up to the end, and on from 2.
  stops_above :
      (f s o : ℕ)
      → 3 ≤ s
      → s ≤ o
      → o ≤ max_offset
      → s + max_offset ≤ o + f
      → allocate_loop f s o alloc ≡ some (alloc, err exhausted)
  stops_above zero s o lo le hi fuel = absurd (omega arith)
  stops_above (suc f) s o lo le hi fuel =
      step_full f s o (omega arith) hi (omega arith) ∙ elim (dec_lt o max_offset) [
        | yes more ↦ stops_above f s (o + 1) lo (omega arith) (omega arith) (omega arith)
        | no last ↦
            loop-probed alloc f s (o + 1) 2 (ground arith)
            ∙ stops_below f s 2 (omega arith) (omega arith) (omega arith) (omega arith)
      ]

  -- With every address from .0.2 to .255.254 taken, `allocate` reports that the pool is exhausted
  -- and changes nothing, if its candidate is at least .0.3.
  pub allocate_exhausted :
      3 ≤ alloc.next_candidate
      → alloc.next_candidate ≤ 0xffff
      → allocate alloc ≡ some (alloc, err exhausted)
  unfolding allocate
  allocate_exhausted lo hi = elim (dec_lt max_offset alloc.next_candidate) [
    | yes last ↦
        loop-probed alloc rounds alloc.next_candidate alloc.next_candidate 2 (ground arith)
        ∙ stops_below rounds alloc.next_candidate 2 (omega arith) (omega arith) hi (omega arith)
    | no inside ↦
        stops_above rounds alloc.next_candidate alloc.next_candidate lo (omega arith) (omega arith)
          (omega arith)
  ]

-- The loop has no way out where every address from .0.1 to .255.254 is taken and the candidate is
-- below .0.3: it runs out of any fuel. The check `offset == start` stands where the offset has been
-- advanced, and the wrap to 2 happens after it.
allocate_loop_diverges :
    (alloc : IpAllocator) (fuel s o : ℕ)
    → AllTaken 1 alloc
    → s ≤ 2
    → s ≤ o
    → allocate_loop fuel s o alloc ≡ none
unfolding allocate_loop
allocate_loop_diverges alloc zero s o full small le = refl
allocate_loop_diverges alloc (suc fuel) s o full small le =
    loop_steps alloc fuel s o (full (probed o) (probed_bounds o).0 (probed_bounds o).1)
      (ground arith)
    ∙ allocate_loop_diverges alloc fuel s (following (probed o)) full small (ground arith)

module _ (alloc : IpAllocator) (ip : Ipv4Addr) (pa : ip.a ≡ alloc.prefix_a)
    (pb : ip.b ≡ alloc.prefix_b) (last : offset_of ip ≡ 0xffff)
    (small : alloc.next_candidate ≤ 0xffff) where
  mark_last_candidate : (mark_allocated ip alloc).0.next_candidate ≡ 0
  unfolding mark_allocated
  mark_last_candidate =
      ground (arith, nat_beq_iff ip.a alloc.prefix_a, nat_beq_iff ip.b alloc.prefix_b)

  mark_allocated-AllTaken : AllTaken 1 alloc → AllTaken 1 (mark_allocated ip alloc).0
  unfolding mark_allocated
  mark_allocated-AllTaken full y lo hi =
      ground (arith, full y, contains-insert (offset_of ip) y alloc.allocated)

  -- After the address .255.255 of the subnet has been marked as allocated, with every address from
  -- .0.1 to .255.254 taken, the loop of `allocate` never ends: no fuel is enough.
  pub mark-allocate_diverges :
      AllTaken 1 alloc
      → (fuel : ℕ)
      → let marked = (mark_allocated ip alloc).0 in
        allocate_loop fuel marked.next_candidate marked.next_candidate marked ≡ none
  mark-allocate_diverges full fuel =
      allocate_loop_diverges (mark_allocated ip alloc).0 fuel _ _ (mark_allocated-AllTaken full)
        (omega (arith, mark_last_candidate)) (omega arith)
