-- ===== src/Mm/AddressSpace.antt =====
-- kernel/src/mm/address_space.rs, and PageTable::map of kernel/src/mm/page_table.rs: the areas of a
-- process above its page table. The tree of areas is the list of its entries in the tree's order,
-- searched from the front by the order of ranges. `none` is a panic.
pub mod Ranges
pub mod Pages
pub mod Break
mod Tests
use hecto_os.Base.{
  ℕ, zero, suc, ◌+◌, ◌*◌, ◌-◌, ◌≤◌, Bool, true, false, Option, none, some, List, [], ◌∷◌, ◌++◌, ltb,
  leb, ◌==◌, if◌then◌else◌, ◌>>=◌, ◌>>◌,
}
use Prim.Native.Nat.{Ordering, max}
use hecto_os.Base.Int.{ℤ, pos, minus_one}
use hecto_os.Base.Word.{checked_add}
use hecto_os.Mm.Address.{
  VirtAddr, Ppn, Vpn, VaRange, page_size, vpn_range, range_cmp, round_up, ppn_of_vpn,
}
use hecto_os.Mm.FrameAllocator.{System, take_frame, drop_tracker, step}
use hecto_os.Mm.Pte.{Pte}
use hecto_os.Mm.PageTable.{Paging, map_one, unmap_one}

pub data MapType : Type 0 where
  linear framed device kernel_stack : MapType

pub record MapArea : Type 0 where
  pub data_frames : List (Vpn × Ppn)
  pub map_type : MapType
  pub map_perm : Pte

pub record AddressSpace : Type 0 where
  pub paging : Paging
  pub areas : List (VaRange × MapArea)
  pub data_segment_end : VirtAddr
  pub data_segment_max : VirtAddr

abbrev pub brk_max : ℕ
brk_max = 0x3000

-- `for vpn in ...` with a new frame for each page: the frames go to the area's map, in order
unfoldable pub map_frames : ℕ → Vpn → MapArea → Paging → Option (MapArea × Paging)
map_frames zero vpn area s = some (area, s)
map_frames (suc n) vpn area s = do
  (ppn, system) ← take_frame s.system
  s' ← map_one vpn ppn area.map_perm (record s { system = system })
  map_frames n (vpn + 1) (record area { data_frames = area.data_frames ++ (vpn, ppn) ∷ [] }) s'

-- the pages of a linear area, and of a device
unfoldable pub map_linear : ℕ → Vpn → Pte → Paging → Option Paging
map_linear zero vpn perm s = some s
map_linear (suc n) vpn perm s = do
  ppn ← ppn_of_vpn vpn
  s' ← map_one vpn ppn perm s
  map_linear n (vpn + 1) perm s'

unfoldable pub map_device : ℕ → Vpn → Pte → Paging → Option Paging
map_device zero vpn perm s = some s
map_device (suc n) vpn perm s = do s' ← map_one vpn vpn perm s; map_device n (vpn + 1) perm s'

-- `map` with no data
map_pages : MapType → ℕ → Vpn → MapArea → Paging → Option (MapArea × Paging)
unfolding map_frames map_linear map_device
map_pages linear n vpn area s = do s' ← map_linear n vpn area.map_perm s; some (area, s')
map_pages framed n vpn area s = map_frames n vpn area s
map_pages device n vpn area s = do s' ← map_device n vpn area.map_perm s; some (area, s')
map_pages kernel_stack n vpn area s = map_frames n vpn area s

unfoldable pub map : VaRange → MapArea → Paging → Option (MapArea × Paging)
unfolding map_pages
map range area s = do (lo, hi) ← vpn_range range; map_pages area.map_type (hi - lo) lo area s

unfoldable pub unmap_pages : ℕ → Vpn → Paging → Option Paging
unmap_pages zero vpn s = some s
unmap_pages (suc n) vpn s = do s' ← unmap_one vpn s; unmap_pages n (vpn + 1) s'

-- The trackers of an area that goes out of scope.
unfoldable pub drop_frames : List (Vpn × Ppn) → System → Option System
drop_frames [] s = some s
drop_frames (frame ∷ rest) s = do s' ← step (drop_tracker frame.1) s; drop_frames rest s'

-- `insert` of the tree: an equal range keeps its key and changes its value
unfoldable pub insert_area : VaRange → MapArea → List (VaRange × MapArea) → List (VaRange × MapArea)
insert_area range area [] = (range, area) ∷ []
insert_area range area ((key, value) ∷ rest) =
    let after = insert_area range area rest in
    elim (range_cmp range key) [
      | Ordering.lt ↦ (range, area) ∷ (key, value) ∷ rest
      | Ordering.eq ↦ (key, area) ∷ rest
      | Ordering.gt ↦ (key, value) ∷ after
    ]

-- The trackers of the value that `insert` gives back
unfoldable pub replaced : VaRange → List (VaRange × MapArea) → List (Vpn × Ppn)
replaced range [] = []
replaced range ((key, value) ∷ rest) =
    let after = replaced range rest in
    elim (range_cmp range key) [
      | Ordering.lt ↦ []
      | Ordering.eq ↦ value.data_frames
      | Ordering.gt ↦ after
    ]

-- `self.areas.insert`, after which an area that stood there is dropped
unfoldable pub place_area : VaRange → MapArea → AddressSpace → Option AddressSpace
unfolding insert_area replaced drop_frames
place_area range area s = do
  system ← drop_frames (replaced range s.areas) s.paging.system
  some (record s {
    paging = record s.paging { system = system };
    areas = insert_area range area s.areas;
  })

-- `remove_entry` of the tree
unfoldable pub remove_entry :
    VaRange → List (VaRange × MapArea) → Option ((VaRange × MapArea) × List (VaRange × MapArea))
remove_entry range [] = none
remove_entry range (entry ∷ rest) =
    let after = remove_entry range rest in
    elim (range_cmp range entry.0) [
      | Ordering.lt ↦ none
      | Ordering.eq ↦ some (entry, rest)
      | Ordering.gt ↦ do (found, others) ← after; some (found, entry ∷ others)
    ]

unfoldable pub remove_area : VirtAddr → AddressSpace → Option AddressSpace
unfolding remove_entry unmap_pages drop_frames
remove_area va s = do
  (entry, areas) ← remove_entry (record { start = va; end = va }) s.areas
  (lo, hi) ← vpn_range entry.0
  paging ← unmap_pages (hi - lo) lo s.paging
  system ← drop_frames entry.1.data_frames paging.system
  some (record s { paging = record paging { system = system }; areas = areas })

unfoldable pub insert_framed_area : VaRange → Pte → AddressSpace → Option AddressSpace
unfolding map place_area
insert_framed_area range map_perm s = do
  let new_area : MapArea = record { data_frames = []; map_type = framed; map_perm = map_perm }
  (area, paging) ← map range new_area s.paging
  place_area range area (record s { paging = paging })

-- The loop of alloc_user_area: it stops at the first area that lies far enough above.
unfoldable pub search_gap : ℕ → VirtAddr → List VaRange → Option VirtAddr
search_gap size va_end [] = some va_end
search_gap size va_end (area ∷ rest) = do
  gap_end ← checked_add va_end page_size
  elim (leb gap_end area.start) [
    | true ↦ some va_end
    | false ↦ do
      up ← round_up area.end page_size
      gap ← checked_add up page_size
      next ← checked_add gap size
      search_gap size (max va_end next) rest
  ]

unfoldable pub alloc_user_area : ℕ → VirtAddr → List VaRange → Option VirtAddr
unfolding search_gap
alloc_user_area size data_segment_max keys = do
  first ← checked_add data_segment_max page_size
  va_end ← checked_add first size
  search_gap size va_end keys

-- The pages that brk adds to the data segment, with the segment's area.
brk_grow : VirtAddr → VirtAddr → MapArea → Paging → Option (MapArea × Paging)
unfolding map_frames
brk_grow cur_end addr area s =
    if leb cur_end addr
    then (do
      (lo, hi) ← vpn_range (record { start = cur_end; end = addr })
      map_frames (hi - lo) lo area s)
    else some (area, s)

-- The end of brk, with an address in the allowed range. The range that grows stays apart from the other
-- areas, which alloc_user_area keeps above data_segment_max: no area is replaced.
brk_to : VirtAddr → VirtAddr → AddressSpace → Option (ℤ × AddressSpace)
unfolding remove_entry insert_area brk_grow
brk_to cur_end addr s = do
  (entry, rest) ←
      remove_entry (record { start = s.data_segment_end; end = s.data_segment_end }) s.areas
  (area, paging) ← brk_grow cur_end addr entry.1 s.paging
  some (
    pos addr,
    record {
      paging = paging;
      areas = insert_area (record entry.0 { end = addr }) area rest;
      data_segment_end = addr;
      data_segment_max = s.data_segment_max;
    },
  )

unfoldable pub brk : VirtAddr → AddressSpace → Option (ℤ × AddressSpace)
unfolding brk_to
brk addr s = do
  cur_end ← round_up s.data_segment_end page_size
  if addr == 0
      then some (pos cur_end, s)
      else if ltb s.data_segment_max addr
      then some (minus_one, s)
      else brk_to cur_end addr s
