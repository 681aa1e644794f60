-- ===== src/Mm/Cow.antt =====
-- Copy on write: AddressSpace::new_kernel, fork and handle_pagefault of
-- kernel/src/mm/address_space.rs, and PageTableImpl::new_kernel of kernel/arch/riscv/page_table.rs. The
-- contents of the frames are a function from frame and word to value. `none` is a panic.
pub mod Isolation
pub mod Sharing
mod Tests
use hecto_os.Base.{
  ℕ, zero, suc, ◌+◌, ◌-◌, Bool, true, false, ◌||◌, ◌&&◌, Option, none, some, List, [], ◌∷◌, ◌++◌,
  ltb, leb, ◌==◌, if◌then◌else◌, ◌>>=◌, ◌>>◌, bit_or,
}
use Prim.Native.Nat.{Ordering}
use hecto_os.Mm.Address.{VirtAddr, Ppn, Vpn, VaRange, floor, range_cmp, vpn_range}
use hecto_os.Mm.FrameAllocator.{
  System, take_frame, get_ref_count, step, clone_tracker, drop_tracker,
}
use hecto_os.Mm.Pte.{Pte, empty, readable, writable, cow, contains, insert, remove, set_ppn, ppn_of}
use hecto_os.Mm.PageTable.{PageTableImpl, Paging, PteRef, find_pte, assign, map_one, remap_one}
use hecto_os.Mm.AddressSpace.{MapArea, AddressSpace, map_device, insert_area}

abbrev pub Memory : Type 0
Memory = Ppn → ℕ → ℕ

abbrev pub Areas : Type 0
Areas = List (VaRange × MapArea)

-- PageTableImpl::new_kernel: an empty lower half and the upper half of the kernel's root table
unfoldable pub new_kernel_table : Ppn → Paging → Option Paging
new_kernel_table kernel_root s = do
  (frame, system) ← take_frame s.system
  some (record {
    page_table = record { root = frame; frames = [] };
    tables = λ t i.
        if t == frame then (if ltb i 256 then empty else s.tables kernel_root i) else s.tables t i;
    system = system;
  })

map_mmio : List (ℕ × ℕ) → Paging → Option Paging
unfolding map_device
map_mmio [] s = some s
map_mmio (pair ∷ rest) s = do
  (lo, hi) ← vpn_range (record { start = pair.0; end = pair.0 + pair.1 })
  s' ← map_device (hi - lo) lo (bit_or readable writable) s
  map_mmio rest s'

unfoldable pub new_kernel : Ppn → List (ℕ × ℕ) → Paging → Option AddressSpace
unfolding new_kernel_table map_mmio
new_kernel kernel_root mmio s = do
  table ← new_kernel_table kernel_root s
  paging ← map_mmio mmio table
  some (record { paging = paging; areas = []; data_segment_end = 1; data_segment_max = 1 })

-- The tables and frames are those of one machine: they go from one page table to the other.
abbrev switch_to : PageTableImpl → Paging → Paging
switch_to table s = record s { page_table = table }

-- The loops over an area's frames: the new table first, then the old one where pages become shared.
-- What is given and returned is the table of the parent, beside the state at the table of the child.
fork_pages :
    Bool → Pte → List (Vpn × Ppn) → PageTableImpl → Paging → Option (PageTableImpl × Paging)
fork_pages shared flags [] parent s = some (parent, s)
fork_pages shared flags (page ∷ rest) parent s = do
  s1 ← map_one page.0 page.1 flags s
  (parent', s') ←
      if shared
      then (do
        s2 ← remap_one page.0 page.1 flags (switch_to parent s1)
        some (s2.page_table, switch_to s1.page_table s2))
      else some (parent, s1)
  fork_pages shared flags rest parent' s'

-- `area.clone()`: one more tracker of each frame
clone_frames : List (Vpn × Ppn) → System → Option System
clone_frames [] s = some s
clone_frames (page ∷ rest) s = do s' ← step (clone_tracker page.1) s; clone_frames rest s'

unfoldable pub fork_flags : Pte → Pte
fork_flags flags =
    if contains flags writable || contains flags cow
    then insert (remove flags writable) cow
    else flags

-- The entries are those of a tree, in its order, so that each is inserted behind the others and replaces none.
fork_areas : Areas → PageTableImpl → AddressSpace → Option (PageTableImpl × AddressSpace)
unfolding fork_pages clone_frames fork_flags
fork_areas [] parent child = some (parent, child)
fork_areas (entry ∷ rest) parent child = do
  let flags = entry.1.map_perm
  let shared = contains flags writable || contains flags cow
  (parent', paging) ← fork_pages shared (fork_flags flags) entry.1.data_frames parent child.paging
  system ← clone_frames entry.1.data_frames paging.system
  fork_areas rest parent' (record child {
    paging = record paging { system = system };
    areas = insert_area entry.0 entry.1 child.areas;
  })

-- The parent and the child.
unfoldable pub fork : Ppn → List (ℕ × ℕ) → AddressSpace → Option (AddressSpace × AddressSpace)
unfolding fork_areas new_kernel
fork kernel_root mmio s = do
  child ← new_kernel kernel_root mmio s.paging
  (parent', child') ← fork_areas s.areas s.paging.page_table child
  some (
    record s { paging = switch_to parent' child'.paging },
    record child' { data_segment_end = s.data_segment_end; data_segment_max = s.data_segment_max },
  )

-- `get_mut` of the tree of areas, and the tree with the area changed
unfoldable pub get_area : VaRange → Areas → Option MapArea
get_area range [] = none
get_area range (entry ∷ rest) =
    let after = get_area range rest in
    elim (range_cmp range entry.0) [
      | Ordering.lt ↦ none
      | Ordering.eq ↦ some entry.1
      | Ordering.gt ↦ after
    ]

unfoldable pub put_area : VaRange → MapArea → Areas → Areas
put_area range area [] = []
put_area range area (entry ∷ rest) =
    let after = put_area range area rest in
    elim (range_cmp range entry.0) [
      | Ordering.lt ↦ entry ∷ rest
      | Ordering.eq ↦ (entry.0, area) ∷ rest
      | Ordering.gt ↦ entry ∷ after
    ]

unfoldable pub frame_of : Vpn → List (Vpn × Ppn) → Option Ppn
frame_of vpn [] = none
frame_of vpn (page ∷ rest) =
    let after = frame_of vpn rest in if page.0 == vpn then some page.1 else after

unfoldable pub set_frame : Vpn → Ppn → List (Vpn × Ppn) → List (Vpn × Ppn)
set_frame vpn ppn [] = []
set_frame vpn ppn (page ∷ rest) =
    if page.0 == vpn then (vpn, ppn) ∷ rest else page ∷ set_frame vpn ppn rest

-- `copy_from_slice` from one frame to another
unfoldable pub copy_frame : Ppn → Ppn → Memory → Memory
copy_frame to from memory = λ p i. if p == to then memory from i else memory p i

abbrev pub unshared : Pte → Pte
unshared pte = insert (remove pte cow) writable

-- The page is copied where its frame is shared.
unfoldable pub unshare :
    VirtAddr → PteRef → MapArea → Ppn → ℕ → AddressSpace → Memory → Option (AddressSpace × Memory)
unfolding put_area set_frame copy_frame
unshare va r area frame ref_count s memory =
    if ltb 1 ref_count
    then (do
      (new, system) ← take_frame s.paging.system
      system' ← step (drop_tracker frame) system
      some (
        record s {
          paging = assign r (set_ppn (unshared r.pte) new) (record s.paging { system = system' });
          areas =
              put_area (record { start = va; end = va })
                (record area { data_frames = set_frame (floor va) new area.data_frames }) s.areas;
        },
        copy_frame new (ppn_of r.pte) memory,
      ))
    else some (record s { paging = assign r (unshared r.pte) s.paging }, memory)

unfoldable pub handle_pagefault : VirtAddr → AddressSpace → Memory → Option (AddressSpace × Memory)
unfolding get_area frame_of unshare
handle_pagefault va s memory = do
  let vpn = floor va
  r ← find_pte vpn s.paging
  contains r.pte cow
  area ← get_area (record { start = va; end = va }) s.areas
  frame ← frame_of vpn area.data_frames
  ref_count ← get_ref_count s.paging.system.allocator frame
  unshare va r area frame ref_count s memory
