-- ===== src/Mm/Loader/Tests.antt =====
-- A segment of two pages, of which the file has two bytes.
use hecto_os.Base.{
  ℕ, zero, suc, ◌+◌, ◌*◌, ◌-◌, ◌/◌, ◌≤◌, ◌≡◌, refl, true, false, Option, none, some, List, [], ◌∷◌,
  leb, if◌then◌else◌, length, take, drop, arith,
}
use hecto_os.Mm.PageTable.{find_pte}
use hecto_os.Mm.PageTable.Boot.{boot, boot_path, boot-IsTree}
use hecto_os.Mm.AddressSpace.{AddressSpace}
use hecto_os.Mm.Loader.{Segment}
use hecto_os.Mm.Loader.Pages.{IsReader}
use hecto_os.Mm.Loader.Segments.{SegmentLoaded, load_segment-SegmentLoaded}

-- A file as the bytes that are left of it
abbrev read_exact : ℕ → List ℕ → Option (List ℕ × List ℕ)
read_exact n f = if leb n (length f) then some (take n f, drop n f) else none

list-IsReader : IsReader read_exact (λ f. f)
list-IsReader = record {
  enough =
      λ n f le. let fits : leb n (length f) ≡ true = ground arith in (drop n f, rw fits refl, refl);
}

abbrev content : List ℕ
content = 1 ∷ 2 ∷ 3 ∷ []

abbrev segment : Segment
segment = record {
  is_load = true;
  virtual_addr = 0x1_0100;
  mem_size = 0x1000;
  offset = 1;
  file_size = 2;
  is_read = true;
  is_write = true;
  is_execute = false;
}

abbrev space : AddressSpace
space = record { paging = boot; areas = []; data_segment_end = 1; data_segment_max = 1 }

load_segment-SegmentLoaded_example :
    SegmentLoaded read_exact
      (λ offset f. some (drop offset content))
      (λ f. f)
      list-IsReader
      0x80600
      12
      segment
      (2 ∷ 3 ∷ [])
      []
      space
      (λ p i. 7)
unfolding boot hecto_os.Mm.PageTable.Boot.booted hecto_os.Mm.FrameAllocator.alloc
    hecto_os.Mm.Address.ppn_of_vpn hecto_os.Base.Word.checked_sub hecto_os.Mm.Address.floor
    hecto_os.Mm.Address.address_of_page find_pte hecto_os.Mm.Address.indexes
    hecto_os.Mm.Pte.is_valid hecto_os.Mm.AddressSpace.replaced
load_segment-SegmentLoaded_example =
    load_segment-SegmentLoaded read_exact (λ offset f. some (drop offset content)) (λ f. f)
      list-IsReader 0x80600 12 segment content [] (2 ∷ 3 ∷ []) space boot_path (λ p i. 7)
      (omega arith) (omega arith) (omega arith) (omega arith) refl refl boot-IsTree (omega arith)
      (λ w a b. refl) refl
