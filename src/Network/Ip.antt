-- ===== src/Network/Ip.antt =====
-- The IP allocator of agentiso/src/network/dhcp.rs. An offset is the u16 of the last two octets of
-- an address.
use agentiso.Prelude.{
  ℕ, zero, suc, ◌+◌, ◌*◌, ◌/◌, ◌%◌, not, ◌||◌, Option, none, some, List, [], Result, ok, err, ◌==◌,
  nat_eq, ltb, leb, if◌then◌else◌, length,
}
use agentiso.Prelude.Word.{u16}
use agentiso.Prelude.Set

pub record Ipv4Addr : Type 0 where
  pub a : ℕ  -- u8
  pub b : ℕ  -- u8
  pub c : ℕ  -- u8
  pub d : ℕ  -- u8

pub data IpError : Type 0 where
  exhausted : IpError
  not_in_subnet : Ipv4Addr → IpError

pub record IpAllocator : Type 0 where
  pub prefix_a : ℕ  -- u8
  pub prefix_b : ℕ  -- u8
  pub allocated : List ℕ
  pub next_candidate : ℕ  -- u16
  pub gateway_offset : ℕ  -- u16

abbrev pub max_offset : ℕ
max_offset = 0xfffe

-- `u16::from(octets[2]) << 8 | u16::from(octets[3])`
abbrev pub offset_of : Ipv4Addr → ℕ
offset_of ip = ip.c * 256 + ip.d

unfoldable pub new : Ipv4Addr → IpAllocator
new gateway = record {
  prefix_a = gateway.a;
  prefix_b = gateway.b;
  allocated = Set.insert (offset_of gateway) (Set.insert 0 []);
  next_candidate = 2;
  gateway_offset = offset_of gateway;
}

abbrev pub offset_to_ip : ℕ → IpAllocator → Ipv4Addr
offset_to_ip offset alloc = record {
  a = alloc.prefix_a;
  b = alloc.prefix_b;
  c = offset / 256;
  d = offset % 256;
}

-- The offset looked at in one round: the network address and the last one are skipped.
abbrev pub probed : ℕ → ℕ
probed offset = if offset == 0 || ltb max_offset offset then 2 else offset

-- `offset.wrapping_add(1)`, and 2 for 0.
abbrev pub following : ℕ → ℕ
following offset = let next = u16 (offset + 1) in if next == 0 then 2 else next

-- The address taken.
abbrev pub take_offset : ℕ → IpAllocator → IpAllocator × Result IpError Ipv4Addr
take_offset offset alloc = (
  record alloc { allocated = Set.insert offset alloc.allocated; next_candidate = u16 (offset + 1) },
  ok (offset_to_ip offset alloc),
)

-- The `loop` of `allocate`, with fuel; `none` means that the fuel ran out.
unfoldable pub allocate_loop :
    ℕ → (start offset : ℕ) → IpAllocator → Option (IpAllocator × Result IpError Ipv4Addr)
allocate_loop zero start offset alloc = none
allocate_loop (suc fuel) start offset alloc =
    let rest = allocate_loop fuel start (following (probed offset)) alloc in
    if not (Set.contains (probed offset) alloc.allocated)
    then some (take_offset (probed offset) alloc)
    else if following (probed offset) == start
    then some (alloc, err exhausted)
    else rest

-- One round for each offset of the subnet.
abbrev pub rounds : ℕ
rounds = 65536

unfoldable pub allocate : IpAllocator → Option (IpAllocator × Result IpError Ipv4Addr)
allocate alloc = allocate_loop rounds alloc.next_candidate alloc.next_candidate alloc

unfoldable pub release : Ipv4Addr → IpAllocator → IpAllocator
release ip alloc =
    let offset = offset_of ip in
    if offset == 0 || offset == alloc.gateway_offset || offset == 0xffff
    then alloc
    else if Set.contains offset alloc.allocated
    then record alloc {
      allocated = Set.remove offset alloc.allocated;
      next_candidate = if ltb offset alloc.next_candidate then offset else alloc.next_candidate;
    }
    else alloc

unfoldable pub mark_allocated : Ipv4Addr → IpAllocator → IpAllocator × Result IpError (Unit {0})
mark_allocated ip alloc =
    if not (ip.a == alloc.prefix_a) || not (ip.b == alloc.prefix_b)
    then (alloc, err (not_in_subnet ip))
    else (
      record alloc {
        allocated = Set.insert (offset_of ip) alloc.allocated;
        next_candidate =
            if leb alloc.next_candidate (offset_of ip)
            then u16 (offset_of ip + 1)
            else alloc.next_candidate;
      },
      ok tt,
    )

unfoldable pub allocated_count : IpAllocator → ℕ
allocated_count alloc = length alloc.allocated

abbrev pub capacity : ℕ
capacity = 65534
