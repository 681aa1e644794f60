-- ===== src/Mm/Address.antt =====
-- kernel/src/mm/address.rs: physical and virtual addresses and page numbers. The one-field structs
-- PA, VA, PPN and VPN are their `usize`.
pub mod Pages
mod Tests
use hecto_os.Base.{
  ℕ, zero, suc, ◌+◌, ◌-◌, ◌*◌, ◌/◌, ◌^◌, Bool, ◌&&◌, ◌||◌, Option, none, some, List, [], ◌∷◌, ltb,
  leb, if◌then◌else◌, ◌>>=◌, bit_and,
}
use hecto_os.Base.Word.{checked_add, checked_sub, shl, shr, complement}
use Prim.Native.Nat.{Ordering}

abbrev pub PhysAddr : Type 0
PhysAddr = ℕ

abbrev pub VirtAddr : Type 0
VirtAddr = ℕ

abbrev pub Ppn : Type 0
Ppn = ℕ

abbrev pub Vpn : Type 0
Vpn = ℕ

-- constants of the boards' config.rs
abbrev pub page_size_bits : ℕ
page_size_bits = 12

abbrev pub page_size : ℕ
page_size = 2 ^ page_size_bits

abbrev pub kernel_map_offset : ℕ
kernel_map_offset = 0xFFFF_FFC0_0000_0000

-- the linear map between physical and virtual page numbers, and addresses
unfoldable pub vpn_of_ppn : Ppn → Option Vpn
vpn_of_ppn ppn = checked_add ppn (shr kernel_map_offset page_size_bits)

unfoldable pub ppn_of_vpn : Vpn → Option Ppn
ppn_of_vpn vpn = checked_sub vpn (shr kernel_map_offset page_size_bits)

unfoldable pub va_of_pa : PhysAddr → Option VirtAddr
va_of_pa pa = checked_add pa kernel_map_offset

unfoldable pub pa_of_va : VirtAddr → Option PhysAddr
pa_of_va va = checked_sub va kernel_map_offset

-- the address of a page
unfoldable pub address_of_page : ℕ → ℕ
address_of_page n = shl n page_size_bits

unfoldable pub floor : ℕ → ℕ
floor a = shr a page_size_bits

unfoldable pub ceil : ℕ → Option ℕ
ceil a = do x ← checked_sub a 1; y ← checked_add x page_size; some (shr y page_size_bits)

unfoldable pub page_offset : ℕ → ℕ
page_offset a = bit_and a (page_size - 1)

-- `for i in (0..3).rev()`, with the entries already written behind
indexes_loop : ℕ → ℕ → List ℕ → List ℕ
indexes_loop zero vpn idx = idx
indexes_loop (suc i) vpn idx = indexes_loop i (shr vpn 9) (bit_and vpn 511 ∷ idx)

unfoldable pub indexes : Vpn → List ℕ
unfolding indexes_loop
indexes vpn = indexes_loop 3 vpn []

-- a range of virtual addresses that has an order
pub record VaRange : Type 0 where
  pub start : VirtAddr
  pub end : VirtAddr

unfoldable pub vpn_range : VaRange → Option (Vpn × Vpn)
vpn_range r = do last ← ceil r.end; some (floor r.start, last)

unfoldable pub range_eq : VaRange → VaRange → Bool
range_eq a b = (leb a.start b.start && leb b.end a.end) || (leb b.start a.start && leb a.end b.end)

unfoldable pub range_cmp : VaRange → VaRange → Ordering
unfolding range_eq
range_cmp a b =
    if range_eq a b then Ordering.eq else if ltb a.start b.start then Ordering.lt else Ordering.gt

-- the macros round_down! and round_up!
unfoldable pub round_down : ℕ → ℕ → ℕ
round_down value boundary = bit_and value (complement (boundary - 1))

unfoldable pub round_up : ℕ → ℕ → Option ℕ
unfolding round_down
round_up value boundary = do
  x ← checked_add value boundary
  y ← checked_sub x 1
  some (round_down y boundary)
