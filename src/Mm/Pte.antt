-- ===== src/Mm/Pte.antt =====
-- kernel/arch/riscv/page_table.rs: the page table entry, an Sv39 word of a page number and flags. A
-- set of flags is its bits; `|` and the masks are those of the bitflags macro. The page number has
-- the 44 bits of the boards other than k210.
pub mod Fields
use hecto_os.Base.{ℕ, ◌-◌, ◌^◌, Bool, not, ◌==◌, bit_and, bit_or}
use hecto_os.Base.Word.{shl, shr, complement}
use hecto_os.Mm.Address.{Ppn}

abbrev pub Pte : Type 0
Pte = ℕ

abbrev pub empty : Pte
empty = 0

abbrev pub valid : Pte
valid = 0x1

abbrev pub readable : Pte
readable = 0x2

abbrev pub writable : Pte
writable = 0x4

abbrev pub executable : Pte
executable = 0x8

abbrev pub user : Pte
user = 0x10

abbrev pub cow : Pte
cow = 0x100

-- `all()` of the macro: every named flag
abbrev pub all_flags : Pte
all_flags = 0x1ff

unfoldable pub from_bits_truncate : ℕ → Pte
from_bits_truncate bits = bit_and bits all_flags

unfoldable pub new : Ppn → Pte → Pte
unfolding from_bits_truncate
new ppn flags = bit_or (shl ppn 10) (from_bits_truncate flags)

unfoldable pub set_ppn : Pte → Ppn → Pte
unfolding from_bits_truncate
set_ppn self ppn = bit_or (shl ppn 10) (from_bits_truncate self)

unfoldable pub ppn_of : Pte → Ppn
ppn_of self = bit_and (shr self 10) (2 ^ 44 - 1)

unfoldable pub is_valid : Pte → Bool
is_valid self = not (bit_and self valid == empty)

-- contains, insert, remove and set of the macro
unfoldable pub contains : Pte → Pte → Bool
contains self other = bit_and self other == other

unfoldable pub insert : Pte → Pte → Pte
insert self other = bit_or self other

unfoldable pub remove : Pte → Pte → Pte
remove self other = bit_and self (complement other)
