-- ===== src/Network/Allocation.antt =====
-- `allocate` of agentiso/src/network/dhcp.rs: it hands out free addresses only, and finds one
-- whenever there is one.
use agentiso.Prelude.{
  ℕ, zero, suc, ◌+◌, ◌≤◌, ◌<◌, ◌≡◌, refl, ap, ◌∙◌, ◌≢◌, ◌⊎◌, inl, inr, true, false, Option, none,
  some, Result, ok, err, ◌==◌, nat_eq, nat_beq_iff, ltb, ltb→lt, Bool-cases, arith,
}
use native.Mathlib.Decide.{dec_lt, ℕ_discrete}
use agentiso.Prelude.Set.{contains-insert, contains-remove}
use agentiso.Prelude.Set
use agentiso.Network.Ip.{
  Ipv4Addr, IpError, exhausted, IpAllocator, max_offset, offset_to_ip, probed, following,
  take_offset, allocate_loop, rounds, allocate,
}

-- The answer is a free offset.
abbrev pub Hands : IpAllocator → Option (IpAllocator × Result IpError Ipv4Addr) → Type 0
Hands alloc r =
    (x : ℕ) × (r ≡ some (take_offset x alloc))
    × (1 ≤ x)
    × (x ≤ max_offset)
    × (Set.contains x alloc.allocated ≡ false)

pub probed_bounds : (o : ℕ) → (1 ≤ probed o) × (probed o ≤ max_offset)
probed_bounds o = ground arith

loop-Hands :
    (f s o : ℕ) (alloc : IpAllocator)
    → Hands alloc (allocate_loop f s o alloc)
      ⊎ (allocate_loop f s o alloc ≡ some (alloc, err exhausted))
      ⊎ (allocate_loop f s o alloc ≡ none)
unfolding allocate_loop
loop-Hands zero s o alloc = inr (inr refl)
loop-Hands (suc f) s o alloc = elim (Bool-cases (Set.contains (probed o) alloc.allocated)) [
  | inr free ↦ inl (probed o, rw free, (probed_bounds o).0, (probed_bounds o).1, free)
  | inl taken ↦ elim (Bool-cases (following (probed o) == s)) [
    | inl back ↦ rw (taken, back) (inr (inl refl))
    | inr on ↦ rw (taken, on) (loop-Hands f s (following (probed o)) alloc)
  ]
]

pub probed_eq : (o : ℕ) → 2 ≤ o → o ≤ max_offset → probed o ≡ o
probed_eq o lo hi = ground arith

pub following_eq : (o : ℕ) → o ≤ max_offset → following o ≡ o + 1
following_eq o hi = ground arith

module _ (alloc : IpAllocator) (f s o : ℕ) where
  pub loop_takes_lem :
      Set.contains (probed o) alloc.allocated ≡ false
      → allocate_loop (suc f) s o alloc ≡ some (take_offset (probed o) alloc)
  unfolding allocate_loop
  loop_takes_lem free = rw free

  pub loop_takes :
      Set.contains (probed o) alloc.allocated ≡ false
      → Hands alloc (allocate_loop (suc f) s o alloc)
  unfolding allocate_loop
  loop_takes free = (probed o, rw free, (probed_bounds o).0, (probed_bounds o).1, free)

  pub loop_steps :
      Set.contains (probed o) alloc.allocated ≡ true
      → (following (probed o) == s) ≡ false
      → allocate_loop (suc f) s o alloc ≡ allocate_loop f s (following (probed o)) alloc
  unfolding allocate_loop
  loop_steps taken on = rw (taken, on)

  pub loop_stops :
      Set.contains (probed o) alloc.allocated ≡ true
      → (following (probed o) == s) ≡ true
      → allocate_loop (suc f) s o alloc ≡ some (alloc, err exhausted)
  unfolding allocate_loop
  loop_stops taken back = rw (taken, back)

-- A round depends on the offset through the one probed.
pub loop-probed :
    (alloc : IpAllocator) (f s o p : ℕ)
    → probed o ≡ probed p
    → allocate_loop f s o alloc ≡ allocate_loop f s p alloc
unfolding allocate_loop
loop-probed alloc zero s o p e = refl
loop-probed alloc (suc f) s o p e = rw e

module _ (alloc : IpAllocator) where
  -- One round at an offset within the range: it hands it out, or goes on with the next one.
  pub round :
      (f s o : ℕ)
      → 2 ≤ o
      → o ≤ max_offset
      → (o + 1) ≢ s
      → Hands alloc (allocate_loop (suc f) s o alloc)
        ⊎ ((Set.contains o alloc.allocated ≡ true)
            × (allocate_loop (suc f) s o alloc ≡ allocate_loop f s (o + 1) alloc))
  round f s o lo hi ne =
      let here : probed o ≡ o = probed_eq o lo hi in
      let next : following (probed o) ≡ o + 1 = rw here (following_eq o hi) in
      elim (Bool-cases (Set.contains (probed o) alloc.allocated)) [
        | inr free ↦ inl (loop_takes alloc f s o free)
        | inl taken ↦ inr (
          rw here at taken,
          loop_steps alloc f s o taken (rw next (ground (arith, nat_beq_iff (o + 1) s)))
              ∙ ap (λ n. allocate_loop f s n alloc) next,
        )
      ]

  -- Going up from `o`, the loop hands something out before it passes a free offset `y`, unless it
  -- meets `start` on the way.
  walk_up :
      (f s o y : ℕ)
      → 2 ≤ o
      → o ≤ y
      → y ≤ max_offset
      → (s ≤ o) ⊎ (y < s)
      → y < o + f
      → Set.contains y alloc.allocated ≡ false
      → Hands alloc (allocate_loop f s o alloc)
  walk_up zero s o y lo le hi off fuel free = absurd (omega arith)
  walk_up (suc f) s o y lo le hi off fuel free =
      elim (Bool-cases (Set.contains (probed o) alloc.allocated)) [
        | inr now ↦ loop_takes alloc f s o now
        | inl taken ↦
            let here : Set.contains o alloc.allocated ≡ true =
              rw (probed_eq o lo (omega arith)) at taken in
            let past : o ≢ y = λ e. ground arith in
            elim (round f s o lo (omega arith) (omega arith)) [
              | inl handed ↦ handed
              | inr (same, on) ↦ rw on (
                  walk_up f s (o + 1) y (omega arith) (omega arith) hi (omega arith) (omega arith)
                    free)
            ]
      ]

  -- From `start` up to the end of the range, and on from 2.
  walk_round :
      (f s o y : ℕ)
      → 3 ≤ s
      → s ≤ o
      → o ≤ max_offset
      → 2 ≤ y
      → y < s
      → y + max_offset < o + f
      → Set.contains y alloc.allocated ≡ false
      → Hands alloc (allocate_loop f s o alloc)
  walk_round zero s o y lo le hi ylo off fuel free = absurd (omega arith)
  walk_round (suc f) s o y lo le hi ylo off fuel free =
      elim (round f s o (omega arith) hi (omega arith)) [
        | inl handed ↦ handed
        | inr (taken, on) ↦ elim (Bool-cases (ltb o max_offset)) [
          | inl more ↦
              let up : o < max_offset = ltb→lt o max_offset more in
              rw on
                (walk_round f s (o + 1) y lo (omega arith) (omega arith) ylo off (omega arith) free)
          | inr last ↦
              let top : o ≡ max_offset = ground arith in
              rw (on, loop-probed alloc f s (o + 1) 2 (ground arith))
                (walk_up f s 2 y (omega arith) ylo (omega arith) (omega arith) (omega arith) free)
        ]
      ]

  from_one :
      (y : ℕ)
      → 2 ≤ y
      → y ≤ max_offset
      → Set.contains y alloc.allocated ≡ false
      → Hands alloc (allocate_loop rounds 1 1 alloc)
  from_one y lo hi free = elim (Bool-cases (Set.contains (probed 1) alloc.allocated)) [
    | inr now ↦ loop_takes alloc 65535 1 1 now
    | inl taken ↦
        rw (loop_steps alloc 65535 1 1 taken refl)
          (walk_up 65535 1 2 y (omega arith) lo hi (omega arith) (omega arith) free)
  ]

  -- From any candidate, a free offset of the range makes the loop hand something out.
  loop_finds :
      (s y : ℕ)
      → s ≤ 0xffff
      → 2 ≤ y
      → y ≤ max_offset
      → Set.contains y alloc.allocated ≡ false
      → Hands alloc (allocate_loop rounds s s alloc)
  loop_finds s y hs lo hi free = elim (dec_lt s 2) [
    | yes small ↦ elim (ℕ_discrete s 1) [
      | yes one ↦ rw one (from_one y lo hi free)
      | no zero_s ↦
          rw (loop-probed alloc rounds s s 2 (ground arith))
            (walk_up rounds s 2 y (omega arith) lo hi (omega arith) (omega arith) free)
    ]
    | no large ↦ elim (dec_lt max_offset s) [
      | yes last ↦
          rw (loop-probed alloc rounds s s 2 (ground arith))
            (walk_up rounds s 2 y (omega arith) lo hi (omega arith) (omega arith) free)
      | no inside ↦ elim (dec_lt y s) [
        | yes below ↦
            walk_round rounds s s y (omega arith) (omega arith) (omega arith) lo below (omega arith)
              free
        | no above ↦
            walk_up rounds s s y (omega arith) (omega arith) hi (inl (omega arith)) (omega arith)
              free
      ]
    ]
  ]

-- An address that `allocate` hands out was free, is not the network's, and is at most .255.254.
pub allocate-Hands :
    (alloc after : IpAllocator) (ip : Ipv4Addr)
    → allocate alloc ≡ some (after, ok ip)
    → (x : ℕ) × (ip ≡ offset_to_ip x alloc)
      × (after ≡ (take_offset x alloc).0)
      × (1 ≤ x)
      × (x ≤ max_offset)
      × (Set.contains x alloc.allocated ≡ false)
unfolding allocate
allocate-Hands alloc after ip e =
    elim (loop-Hands rounds alloc.next_candidate alloc.next_candidate alloc) [
      | inl (x, r, lo, hi, free) ↦ (x, ground arith, ground arith, lo, hi, free)
      | inr (inl r) ↦ absurd (cc)
      | inr (inr r) ↦ absurd (cc)
    ]

-- `allocate` hands an address out whenever one from .0.2 to .255.254 is free, whatever the
-- candidate that it starts from.
pub allocate_finds :
    (alloc : IpAllocator) (y : ℕ)
    → alloc.next_candidate ≤ 0xffff
    → 2 ≤ y
    → y ≤ max_offset
    → Set.contains y alloc.allocated ≡ false
    → Hands alloc (allocate alloc)
unfolding allocate
allocate_finds alloc y small lo hi free = loop_finds alloc alloc.next_candidate y small lo hi free
