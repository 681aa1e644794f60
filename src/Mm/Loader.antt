-- ===== src/Mm/Loader.antt =====
-- A segment of a program: the loop over its pages in AddressSpace::from_elf of
-- kernel/src/mm/address_space.rs. The bytes of the frames are a function from frame and offset. The file is
-- an `Inode` of the crate fatfs: what `read_exact` takes from it is a parameter. `none` is a panic.
pub mod Pages
pub mod Loaded
pub mod Segments
mod Tests
use hecto_os.Base.{
  ℕ, zero, suc, ◌+◌, ◌-◌, Bool, ◌==◌, ◌&&◌, Option, none, some, List, [], ◌∷◌, ◌++◌, ltb, leb,
  if◌then◌else◌, ◌>>=◌, ◌>>◌, length, get_or, bit_or, true, false,
}
use hecto_os.Base.Word.{checked_add}
use hecto_os.Mm.Address.{
  VirtAddr, Ppn, Vpn, VaRange, page_size, address_of_page, page_offset, round_up, vpn_range,
}
use hecto_os.Mm.FrameAllocator.{System, take_frame}
use hecto_os.Mm.PageTable.{Paging, map_one}
use hecto_os.Mm.Pte.{Pte, readable, writable, executable, user}
use hecto_os.Mm.AddressSpace.{MapArea, framed, AddressSpace, brk_max, place_area}
use hecto_os.Mm.Cow.{new_kernel}

abbrev pub Contents : Type 0
Contents = Ppn → ℕ → ℕ

-- Where the data ends in a page, and where the zeros after it do
unfoldable pub data_end : VirtAddr → Vpn → ℕ
data_end bss_start vpn =
    if leb (address_of_page (vpn + 1)) bss_start
    then 4096
    else (if leb bss_start (address_of_page vpn) then 0 else page_offset bss_start)

unfoldable pub bss_end : VirtAddr → Vpn → ℕ
bss_end va_end vpn = if leb (address_of_page (vpn + 1)) va_end then 4096 else page_offset va_end

-- The data at `start` and on, and zeros up to `end2`
unfoldable pub fill_page : (frame start : ℕ) → List ℕ → (end end2 : ℕ) → Contents → Contents
fill_page frame start bytes end end2 memory = λ p i.
    if p == frame
    then (if leb start i && ltb i end
        then get_or bytes (i - start) 0
        else (if leb end i && ltb i end2 then 0 else memory p i))
    else memory p i

-- The loop over the pages, `n` of which are left
module _ {F : Type 0} (read_exact : ℕ → F → Option (List ℕ × F)) (bss_start va_end : VirtAddr) where
  unfoldable pub load_pages :
      (n vpn start : ℕ) → F → MapArea → Paging → Contents → Option (F × MapArea × Paging × Contents)
  unfolding data_end bss_end fill_page
  load_pages zero vpn start file area s memory = some (file, area, s, memory)
  load_pages (suc n) vpn start file area s memory = do
    (ppn, system) ← take_frame s.system
    let end = data_end bss_start vpn
    let end2 = bss_end va_end vpn
    leb start end
    (bytes, file') ← read_exact (end - start) file
    leb end end2
    s' ← map_one vpn ppn area.map_perm (record s { system = system })
    load_pages n (vpn + 1) 0 file'
        (record area { data_frames = area.data_frames ++ (vpn, ppn) ∷ [] }) s'
        (fill_page ppn start bytes end end2 memory)

-- A program header
pub record Segment : Type 0 where
  pub is_load : Bool
  pub virtual_addr : ℕ
  pub mem_size : ℕ
  pub offset : ℕ
  pub file_size : ℕ
  pub is_read : Bool
  pub is_write : Bool
  pub is_execute : Bool

abbrev flag_if : Bool → Pte → Pte → Pte
flag_if b flag flags = if b then bit_or flags flag else flags

abbrev pub segment_perm : Segment → Pte
segment_perm ph =
    flag_if ph.is_execute executable
      (flag_if ph.is_write writable (flag_if ph.is_read readable user))

module _ {F : Type 0} (read_exact : ℕ → F → Option (List ℕ × F))
    (seek_start : ℕ → F → Option F) where
  unfoldable pub load_segment :
      Segment → F → AddressSpace → Contents → Option (F × AddressSpace × Contents)
  unfolding load_pages place_area
  load_segment ph file s memory = do
    end ← checked_add ph.virtual_addr ph.mem_size
    bss_start ← checked_add ph.virtual_addr ph.file_size
    file1 ← seek_start ph.offset file
    let range : VaRange = record { start = ph.virtual_addr; end = end }
    (lo, hi) ← vpn_range range
    let area : MapArea = record { data_frames = []; map_type = framed; map_perm = segment_perm ph }
    (file2, area', paging, memory') ←
        load_pages read_exact bss_start end (hi - lo) lo (page_offset ph.virtual_addr) file1 area
          s.paging memory
    s' ← place_area range area' (record s { paging = paging; data_segment_end = end })
    some (file2, s', memory')

  -- The loop over the program headers
  load_segments : List Segment → F → AddressSpace → Contents → Option (F × AddressSpace × Contents)
  unfolding load_segment
  load_segments [] file s memory = some (file, s, memory)
  load_segments (ph ∷ rest) file s memory =
      let skipped = load_segments rest file s memory in
      let loaded = (do
        (file', s', memory') ← load_segment ph file s memory
        load_segments rest file' s' memory') in
      if ph.is_load then loaded else skipped

  unfoldable pub from_elf :
      Ppn → List (ℕ × ℕ) → List Segment → F → Paging → Contents → Option (AddressSpace × Contents)
  unfolding load_segments
  from_elf kernel_root mmio headers file s memory = do
    kernel ← new_kernel kernel_root mmio s
    (_, loaded, memory') ← load_segments headers file kernel memory
    end ← round_up loaded.data_segment_end page_size
    data_segment_max ← checked_add end brk_max
    some (record loaded { data_segment_max = data_segment_max }, memory')
