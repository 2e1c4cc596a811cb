-- ===== src/Network/Examples.antt =====
-- The allocator at concrete inputs.
use agentiso.Prelude.{
  ℕ, ◌≤◌, ◌≡◌, refl, true, none, some, List, [], ◌∷◌, ok, err, nat_eq, nat_beq_iff, arith, zero,
  suc,
}
use agentiso.Prelude.Set
use agentiso.Network.Ip.{
  Ipv4Addr, IpAllocator, exhausted, new, allocate, allocate_loop, release, mark_allocated, rounds,
}
use agentiso.Network.Allocation.{Hands, allocate_finds}
use agentiso.Network.Exhaustion.{AllTaken, allocate_exhausted, mark-allocate_diverges}
use agentiso.Network.Reuse.{IsValid, new-IsValid, Handed, allocate-Handed, release-allocate}

abbrev ip : ℕ → ℕ → Ipv4Addr
ip c d = record { a = 10; b = 99; c = c; d = d }

abbrev fresh : IpAllocator
fresh = record {
  prefix_a = 10;
  prefix_b = 99;
  allocated = 1 ∷ 0 ∷ [];
  next_candidate = 2;
  gateway_offset = 1;
}

abbrev used : IpAllocator
used = record fresh { allocated = 2 ∷ 1 ∷ 0 ∷ []; next_candidate = 3 }

program : Unit {0}
unfolding new allocate allocate_loop release mark_allocated Set.contains Set.insert Set.remove
program = tt

new_gateway : new (ip 0 1) ≡ fresh
unfolding program
new_gateway = refl

allocate_first : allocate fresh ≡ some (used, ok (ip 0 2))
unfolding program
allocate_first = refl

fresh-IsValid : IsValid fresh
unfolding program
fresh-IsValid = record { network_kept = refl; gateway_kept = refl }

new-IsValid_example : IsValid (new (ip 0 1))
new-IsValid_example = new-IsValid (ip 0 1)

allocate-Handed_example : Handed fresh used (ip 0 2) × IsValid used
allocate-Handed_example = allocate-Handed fresh used (ip 0 2) fresh-IsValid allocate_first

allocate_finds_example : Hands used (allocate used)
unfolding program
allocate_finds_example = allocate_finds used 300 (omega arith) (omega arith) (omega arith) refl

release-allocate_example :
    ((y : ℕ) → Set.contains y (release (ip 0 2) used).allocated ≡ Set.contains y fresh.allocated)
    × ((again : IpAllocator) × (allocate (release (ip 0 2) used) ≡ some (again, ok (ip 0 2))))
release-allocate_example = release-allocate fresh used (ip 0 2) fresh-IsValid allocate_first

-- n, …, 1.
down_from : ℕ → List ℕ
down_from zero = []
down_from (suc n) = suc n ∷ down_from n

contains-down_from : (n y : ℕ) → 1 ≤ y → y ≤ n → Set.contains y (down_from n) ≡ true
unfolding down_from Set.contains
contains-down_from zero y lo hi = absurd (omega arith)
contains-down_from (suc n) y lo hi = ground (arith, contains-down_from n y, nat_beq_iff (suc n) y)

full : IpAllocator
full = record fresh { allocated = down_from 65534; next_candidate = 65535 }

full-AllTaken : AllTaken 1 full
unfolding full
full-AllTaken y lo hi = contains-down_from 65534 y lo hi

allocate_exhausted_example : allocate full ≡ some (full, err exhausted)
unfolding full
allocate_exhausted_example =
    allocate_exhausted full (λ y lo hi. full-AllTaken y (omega arith) hi) (omega arith)
      (omega arith)

mark-allocate_diverges_example :
    let marked = (mark_allocated (ip 255 255) full).0 in
    allocate_loop rounds marked.next_candidate marked.next_candidate marked ≡ none
unfolding full
mark-allocate_diverges_example =
    mark-allocate_diverges full (ip 255 255) refl refl refl (omega arith) full-AllTaken rounds
