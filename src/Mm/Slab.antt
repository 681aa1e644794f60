-- ===== src/Mm/Slab.antt =====
-- kernel/src/mm/heap/slab_allocator/slab.rs: the sizes of zones and chunks. A size is a number of bytes
-- below 2^64.
pub mod Classes
pub mod Zones
pub mod Free
pub mod Chunks
pub mod Handout
pub mod Reclaim
mod Tests
use hecto_os.Base.{
  ℕ, zero, suc, ◌+◌, ◌*◌, ◌/◌, ◌%◌, ◌-◌, ◌^◌, Bool, ◌&&◌, ltb, leb, ◌==◌, if◌then◌else◌,
}

abbrev pub nzones : ℕ
nzones = 72

abbrev pub max : ℕ → ℕ → ℕ
max a b = if ltb b a then a else b

abbrev pub min : ℕ → ℕ → ℕ
min a b = if leb a b then a else b

-- The number of bits of a number, of at most `fuel` bits.
unfoldable pub bit_length : ℕ → ℕ → ℕ
bit_length zero n = 0
bit_length (suc fuel) n = let rest = bit_length fuel (n / 2) in if n == 0 then 0 else suc rest

abbrev pub leading_zeros : ℕ → ℕ
leading_zeros n = 64 - bit_length 64 n

-- `round_up!(n, 1 << i)`
abbrev pub round_up_to : ℕ → ℕ → ℕ
round_up_to n i = (n + 2 ^ i - 1) / 2 ^ i * 2 ^ i

unfoldable pub zone_shift : ℕ → ℕ
unfolding bit_length
zone_shift bytes = max 7 (leading_zeros 0 - leading_zeros bytes) - 1 - 3

-- SlabAllocator::zone_index: the size of the chunks, which the code writes to `bytes`, and the index
-- of the list of zones.
unfoldable pub zone_index : ℕ → ℕ × ℕ
unfolding zone_shift
zone_index bytes =
    let i = zone_shift bytes in let n = round_up_to bytes i in (n, n / 2 ^ i + 8 * (i - 3) - 1)

-- The loop of SlabAllocator::init that doubles ZONE_SIZE, with two rounds
unfoldable pub zone_size_loop : ℕ → ℕ → ℕ → ℕ
zone_size_loop zero size limsize = size
zone_size_loop (suc fuel) size limsize =
    let rest = zone_size_loop fuel (size * 2) limsize in
    if ltb size (128 * 1024) && ltb (size * 2) (limsize / 1024) then rest else size

unfoldable pub zone_size : ℕ → ℕ
unfolding zone_size_loop
zone_size limsize = zone_size_loop 2 (32 * 1024) limsize

unfoldable pub chunk_limit : ℕ → ℕ
unfolding zone_size
chunk_limit limsize = min (zone_size limsize / 4) (16 * 1024)
