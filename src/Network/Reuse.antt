-- ===== src/Network/Reuse.antt =====
-- Releasing an address and taking it again (agentiso/src/network/dhcp.rs).
use agentiso.Prelude.{
  ℕ, ◌≤◌, ◌<◌, ◌≡◌, refl, sym, ap, ap₂, ◌∙◌, true, false, ◌||◌, some, ok, ◌==◌, nat_eq, nat_beq_iff,
  arith,
}
use agentiso.Prelude.Set.{contains-insert, contains-remove}
use agentiso.Prelude.Set
use agentiso.Network.Ip.{
  Ipv4Addr, IpAllocator, max_offset, offset_of, offset_to_ip, probed, take_offset, allocate,
  release, new, mark_allocated,
}
use agentiso.Network.Allocation.{allocate-Hands, loop_takes_lem}

-- The network address and the gateway are never given out: they count as taken.
pub record IsValid (alloc : IpAllocator) : Type 0 where
  pub network_kept : Set.contains 0 alloc.allocated ≡ true
  pub gateway_kept : Set.contains alloc.gateway_offset alloc.allocated ≡ true

-- A new allocator keeps the network address and its gateway.
pub new-IsValid : (gateway : Ipv4Addr) → IsValid (new gateway)
unfolding new Set.insert Set.contains
new-IsValid gateway = ground arith

-- Releasing and marking keep the network address and the gateway taken, whatever the address.
pub release-IsValid :
    (ip : Ipv4Addr) (alloc : IpAllocator) → IsValid alloc → IsValid (release ip alloc)
unfolding release
release-IsValid ip alloc v = ground (
  arith,
  contains-remove (offset_of ip) 0 alloc.allocated,
  contains-remove (offset_of ip) alloc.gateway_offset alloc.allocated,
)

pub mark_allocated-IsValid :
    (ip : Ipv4Addr) (alloc : IpAllocator) → IsValid alloc → IsValid (mark_allocated ip alloc).0
unfolding mark_allocated
mark_allocated-IsValid ip alloc v = ground (
  arith,
  contains-insert (offset_of ip) 0 alloc.allocated,
  contains-insert (offset_of ip) alloc.gateway_offset alloc.allocated,
)

-- What `allocate` hands out: an address of the subnet that was free, neither the network's nor the
-- gateway's nor the last one, and that is taken from then on, while no other changes.
pub record Handed (alloc after : IpAllocator) (ip : Ipv4Addr) : Type 0 where
  pub same_a : ip.a ≡ alloc.prefix_a
  pub same_b : ip.b ≡ alloc.prefix_b
  pub not_network : 0 < offset_of ip
  pub not_gateway : (offset_of ip == alloc.gateway_offset) ≡ false
  pub not_last : offset_of ip ≤ max_offset
  pub was_free : Set.contains (offset_of ip) alloc.allocated ≡ false
  pub taken :
      (y : ℕ)
      → Set.contains y after.allocated ≡ (offset_of ip == y || Set.contains y alloc.allocated)

offset_of_lem : (x : ℕ) (alloc : IpAllocator) → offset_of (offset_to_ip x alloc) ≡ x
offset_of_lem x alloc = omega arith

taken-Handed :
    (alloc : IpAllocator) (x : ℕ)
    → IsValid alloc
    → 1 ≤ x
    → x ≤ max_offset
    → Set.contains x alloc.allocated ≡ false
    → Handed alloc (take_offset x alloc).0 (offset_to_ip x alloc)
taken-Handed alloc x v lo hi free =
    let same : offset_of (offset_to_ip x alloc) ≡ x = offset_of_lem x alloc in
    record {
      same_a = refl;
      same_b = refl;
      not_network = omega arith;
      not_gateway = rw same (ground (arith, v.gateway_kept, nat_beq_iff x alloc.gateway_offset));
      not_last = omega arith;
      was_free = rw same free;
      taken = λ y. rw same (contains-insert x y alloc.allocated);
    }

-- Every address that a valid allocator hands out is usable and was free, and the allocator stays
-- valid.
pub allocate-Handed :
    (alloc after : IpAllocator) (ip : Ipv4Addr)
    → IsValid alloc
    → allocate alloc ≡ some (after, ok ip)
    → Handed alloc after ip × IsValid after
allocate-Handed alloc after ip v e =
    let (x, same_ip, same, lo, hi, free) = allocate-Hands alloc after ip e in
    rw (same_ip, same)
      (
        taken-Handed alloc x v lo hi free,
        ground (
          arith,
          contains-insert x 0 alloc.allocated,
          contains-insert x alloc.gateway_offset alloc.allocated,
        ),
      )

module _ (alloc : IpAllocator) (x : ℕ) (v : IsValid alloc) (lo : 1 ≤ x) (hi : x ≤ max_offset)
    (free : Set.contains x alloc.allocated ≡ false) where
  released : IpAllocator
  released = record alloc {
    allocated = Set.remove x (Set.insert x alloc.allocated);
    next_candidate = x;
  }

  release_taken : release (offset_to_ip x alloc) (take_offset x alloc).0 ≡ released
  unfolding release released
  release_taken = ground (
    arith,
    offset_of_lem x alloc,
    contains-insert x x alloc.allocated,
    nat_beq_iff x alloc.gateway_offset,
    v.gateway_kept,
  )

  released-contains : (y : ℕ) → Set.contains y released.allocated ≡ Set.contains y alloc.allocated
  unfolding released
  released-contains y = ground (
    arith,
    contains-remove x y (Set.insert x alloc.allocated),
    contains-insert x y alloc.allocated,
    nat_beq_iff x y,
  )

  allocate-released : allocate released ≡ some (take_offset x released)
  unfolding allocate released
  allocate-released =
      let same : probed x ≡ x = ground arith in
      loop_takes_lem released 65535 x x (rw (same, released-contains x) free)
      ∙ ap (λ n. some (take_offset n released)) same

-- Releasing the address that was just handed out frees that address and no other, and the next
-- allocation hands out the same address again.
pub release-allocate :
    (alloc after : IpAllocator) (ip : Ipv4Addr)
    → IsValid alloc
    → allocate alloc ≡ some (after, ok ip)
    → ((y : ℕ) → Set.contains y (release ip after).allocated ≡ Set.contains y alloc.allocated)
      × ((again : IpAllocator) × (allocate (release ip after) ≡ some (again, ok ip)))
unfolding released
release-allocate alloc after ip v e =
    let (x, same_ip, same, lo, hi, free) = allocate-Hands alloc after ip e in
    let undone : release ip after ≡ released alloc x v lo hi free =
      ap₂ release same_ip same ∙ release_taken alloc x v lo hi free in
    (
      λ y. ap (λ r. Set.contains y r.allocated) undone ∙ released-contains alloc x v lo hi free y,
      (
        (take_offset x (released alloc x v lo hi free)).0,
        ap allocate undone
            ∙ allocate-released alloc x v lo hi free
            ∙ ap (λ found. some ((take_offset x (released alloc x v lo hi free)).0, ok found))
                (sym same_ip),
      ),
    )
