-- ===== src/Process/Mmap.antt =====
-- kernel/src/syscall/mm.rs: sys_mmap, sys_mprotect, sys_munmap and sys_brk. The memory of the program is a
-- function from its addresses to bytes. `none` is a panic, also that of a write of the kernel to a page that
-- may not be written. What a new page holds is what the memory has at its addresses.
pub mod Anonymous
mod Tests
use hecto_os.Base.{
  ℕ, zero, suc, ◌+◌, ◌-◌, Bool, Option, none, some, List, [], ◌∷◌, ◌==◌, if◌then◌else◌, ◌>>=◌, ◌>>◌,
  get_elem?, map, bit_and, bit_or,
}
use hecto_os.Base.Int.{ℤ, pos, negsuc}
use hecto_os.Base.Word.{checked_add, checked_sub}
use hecto_os.Mm.Address.{VirtAddr, Vpn, VaRange, floor, vpn_range}
use hecto_os.Mm.Pte.{Pte, readable, writable, executable, user, contains}
use hecto_os.Mm.PageTable.{Paging, find_pte, modify_flags}
use hecto_os.Mm.AddressSpace.{
  MapArea, AddressSpace, alloc_user_area, insert_framed_area, remove_area, brk,
}
use hecto_os.Process.FdTable.{FdTable}
use hecto_os.Fs.File.{Inode, Files, start, unwrap_ok, read, seek}

abbrev pub prot_read : ℕ
prot_read = 1

abbrev pub prot_write : ℕ
prot_write = 2

abbrev pub prot_exec : ℕ
prot_exec = 4

abbrev set_flag : Pte → Bool → Pte → Pte
set_flag flag b perm = if b then bit_or perm flag else perm

unfoldable pub prot_perm : ℕ → Pte
prot_perm prot = set_flag executable (bit_and prot prot_exec == prot_exec) (
    set_flag writable (bit_and prot prot_write == prot_write)
      (set_flag readable (bit_and prot prot_read == prot_read) user))

-- The loop over the pages of a range that is given
modify_pages : ℕ → Vpn → Pte → Paging → Option Paging
modify_pages zero vpn perm s = some s
modify_pages (suc n) vpn perm s = do s' ← modify_flags vpn perm s; modify_pages n (vpn + 1) perm s'

-- Bytes that the kernel writes to the program's memory
write_user : VirtAddr → List ℕ → Paging → (ℕ → ℕ) → Option (ℕ → ℕ)
write_user a [] s memory = some memory
write_user a (b ∷ bytes) s memory = do
  r ← find_pte (floor a) s
  contains r.pte writable
  write_user (a + 1) bytes s (λ x. if x == a then b else memory x)

pub record Program (I : Type 0) : Type 0 where
  pub space : AddressSpace
  pub fd_table : FdTable
  pub files : Files I
  pub memory : ℕ → ℕ

module _ {I : Type 0} (ops : Inode I) where
  modify_range : VirtAddr → ℕ → Pte → Program I → Option (ℤ × Program I)
  unfolding modify_pages
  modify_range addr length perm k = do
    end ← checked_add addr length
    (lo, hi) ← vpn_range (record { start = addr; end = end })
    paging ← modify_pages (hi - lo) lo perm k.space.paging
    some (pos addr, record k { space = record k.space { paging = paging } })

  -- The file's bytes at the start of the area, and a zero behind it
  fill_area : VirtAddr → VirtAddr → ℕ → ℕ → Option ℕ → Program I → Option (ℤ × Program I)
  unfolding write_user
  fill_area area_start va_end length offset slot k = do
    fd ← slot
    sought ← seek ops fd (start offset) k.files
    _ ← unwrap_ok sought.0
    got ← read ops fd length sought.1
    bytes ← unwrap_ok got.0
    memory ← write_user area_start bytes k.space.paging k.memory
    memory' ← write_user va_end (0 ∷ []) k.space.paging memory
    some (pos area_start, record k { files = got.1; memory = memory' })

  fill_slot : VirtAddr → VirtAddr → ℕ → ℕ → Option (Option ℕ) → Program I → Option (ℤ × Program I)
  unfolding fill_area
  fill_slot area_start va_end length offset none k = some (pos area_start, k)
  fill_slot area_start va_end length offset (some slot) k =
      fill_area area_start va_end length offset slot k

  map_new : ℕ → Pte → ℕ → ℕ → Program I → Option (ℤ × Program I)
  unfolding fill_slot
  map_new length perm fd offset k = do
    va_end ←
        alloc_user_area length k.space.data_segment_max
          (map (λ (entry : VaRange × MapArea). entry.0) k.space.areas)
    area_start ← checked_sub va_end length
    space ← insert_framed_area (record { start = area_start; end = va_end }) perm k.space
    fill_slot area_start va_end length offset (get_elem? k.fd_table fd) (record k { space = space })

  -- `fd as usize` is the argument `fd`; the flags of the call are not looked at.
  unfoldable pub sys_mmap :
      (addr : VirtAddr) (length prot fd offset : ℕ) → Program I → Option (ℤ × Program I)
  unfolding modify_range map_new prot_perm
  sys_mmap addr length prot fd offset k =
      if addr == 0
      then map_new length (prot_perm prot) fd offset k
      else modify_range addr length (prot_perm prot) k

  unfoldable pub sys_munmap : VirtAddr → Program I → Option (ℤ × Program I)
  sys_munmap addr k = do space ← remove_area addr k.space; some (pos 0, record k { space = space })

  unfoldable pub sys_brk : VirtAddr → Program I → Option (ℤ × Program I)
  sys_brk addr k = do (result, space) ← brk addr k.space; some (result, record k { space = space })

-- -EINVAL for a null address, and else 0: no page changes.
unfoldable pub sys_mprotect : VirtAddr → ℤ
sys_mprotect addr = if addr == 0 then negsuc 21 else pos 0
