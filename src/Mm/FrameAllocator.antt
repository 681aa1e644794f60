-- ===== src/Mm/FrameAllocator.antt =====
-- kernel/src/mm/physical_page.rs: the allocator of physical page frames, with reference counts. The
-- free list is threaded through the free pages; here it is the list of their addresses, first to
-- last. `none` is a panic (a failed debug_assert!, an overflow) or an access outside `page_usage`.
pub mod Counts
pub mod Soundness
pub mod History
mod Tests
use hecto_os.Base.{
  ℕ, zero, suc, ◌+◌, ◌-◌, Bool, true, false, not, ◌||◌, Option, none, some, List, [], ◌∷◌, ltb,
  ◌==◌, if◌then◌else◌, ◌>>=◌, ◌>>◌, get_elem?, set, replicate,
}
use hecto_os.Base.Word.{checked_add, checked_sub}
use hecto_os.Mm.Address.{VirtAddr, Ppn, ceil, floor, address_of_page, vpn_of_ppn, ppn_of_vpn}

pub record PhyPageAllocator : Type 0 where
  pub free_list : List VirtAddr
  pub page_usage : List ℕ
  pub start_ppn : Ppn

-- `for vpn in (start..end).rev()`, with `n` pages left
unfoldable pub push_pages : ℕ → ℕ → List VirtAddr → List VirtAddr
push_pages zero start list = list
push_pages (suc n) start list = push_pages n start (address_of_page (start + n) ∷ list)

unfoldable pub init : (ekernel memory_end : VirtAddr) → Option PhyPageAllocator
unfolding push_pages
init ekernel memory_end = do
  start ← ceil ekernel
  pages ← checked_sub (floor memory_end) start
  start_ppn ← ppn_of_vpn start
  some (record {
    free_list = push_pages pages start [];
    page_usage = replicate pages 0;
    start_ppn = start_ppn;
  })

-- The index of a frame in `page_usage` and its count.
usage : PhyPageAllocator → Ppn → Option (ℕ × ℕ)
usage a frame = do
  i ← checked_sub frame a.start_ppn
  ref_count ← get_elem? a.page_usage i
  some (i, ref_count)

-- The frame is `none` where no page is free.
alloc_from : PhyPageAllocator → List VirtAddr → Option (Option Ppn × PhyPageAllocator)
unfolding usage
alloc_from a [] = some (none, a)
alloc_from a (page ∷ rest) = do
  ppn ← ppn_of_vpn (floor page)
  (i, ref_count) ← usage a ppn
  ref_count == 0
  some (some ppn, record a { free_list = rest; page_usage = set a.page_usage i 1 })

unfoldable pub alloc : PhyPageAllocator → Option (Option Ppn × PhyPageAllocator)
unfolding alloc_from
alloc a = alloc_from a a.free_list

unfoldable pub dealloc : PhyPageAllocator → Ppn → Option PhyPageAllocator
unfolding usage
dealloc a frame = do
  (i, ref_count) ← usage a frame
  ltb 0 ref_count
  let page_usage = set a.page_usage i (ref_count - 1)
  if ref_count - 1 == 0
      then (do
        vpn ← vpn_of_ppn frame
        let page = address_of_page vpn
        not (page == 0)
        some (record a { free_list = page ∷ a.free_list; page_usage = page_usage }))
      else some (record a { page_usage = page_usage })

unfoldable pub clone : PhyPageAllocator → Ppn → Option PhyPageAllocator
unfolding usage
clone a frame = do
  (i, ref_count) ← usage a frame
  ltb 0 ref_count
  more ← checked_add ref_count 1
  some (record a { page_usage = set a.page_usage i more })

unfoldable pub get_ref_count : PhyPageAllocator → Ppn → Option ℕ
unfolding usage
get_ref_count a frame = do (i, ref_count) ← usage a frame; ltb 0 ref_count; some ref_count

-- The allocator with the live `FrameTracker`s, each as its frame.
pub record System : Type 0 where
  pub allocator : PhyPageAllocator
  pub held : List Ppn

-- `frame_alloc().unwrap()`
unfoldable pub take_frame : System → Option (Ppn × System)
take_frame s = do
  (frame, a) ← alloc s.allocator
  ppn ← frame
  some (ppn, record { allocator = a; held = ppn ∷ s.held })

-- `frame_alloc`, and the Clone and Drop of one live tracker.
pub data FrameOp : Type 0 where
  frame_alloc : FrameOp
  clone_tracker : Ppn → FrameOp
  drop_tracker : Ppn → FrameOp

unfoldable pub holds : Ppn → List Ppn → Bool
holds p [] = false
holds p (q ∷ qs) = (q == p) || holds p qs

unfoldable pub forget : Ppn → List Ppn → List Ppn
forget p [] = []
forget p (q ∷ qs) = if q == p then qs else q ∷ forget p qs

keep : List Ppn → Option Ppn × PhyPageAllocator → System
keep held (none, a) = record { allocator = a; held = held }
keep held (some p, a) = record { allocator = a; held = p ∷ held }

-- A tracker that is not live can be neither cloned nor dropped.
unfoldable pub step : FrameOp → System → Option System
unfolding alloc dealloc clone holds forget keep
step frame_alloc s = do r ← alloc s.allocator; some (keep s.held r)
step (clone_tracker p) s =
    if holds p s.held
    then (do a ← clone s.allocator p; some (record { allocator = a; held = p ∷ s.held }))
    else some s
step (drop_tracker p) s =
    if holds p s.held
    then (do a ← dealloc s.allocator p; some (record { allocator = a; held = forget p s.held }))
    else some s

unfoldable pub run : List FrameOp → System → Option System
unfolding step
run [] s = some s
run (op ∷ ops) s = do s' ← step op s; run ops s'
