-- ===== src/Mm/Loader/Segments.antt =====
-- A whole segment.
use hecto_os.Base.{
  ℕ, ◌+◌, ◌*◌, ◌-◌, ◌/◌, ◌≤◌, ◌<◌, ◌≡◌, ◌^◌, refl, ap, ◌∙◌, inr, Option, none, some, List, [],
  length, count, drop, arith,
}
use hecto_os.Base.Word.{checked_add-some}
use hecto_os.Mm.Address.{Ppn, Vpn, page_offset, floor, vpn_range}
use hecto_os.Mm.Address.Pages.{page_offset_lem, ceil_lem}
use hecto_os.Mm.PageTable.{find_pte}
use hecto_os.Mm.PageTable.Tree.{Paths, IsTree}
use hecto_os.Mm.AddressSpace.{MapArea, framed, AddressSpace, insert_area, replaced}
use hecto_os.Mm.AddressSpace.Pages.{
  place_area_new, MappedRun, map_frames-total, map_frames-MappedRun,
}
use hecto_os.Fs.File.Slices.{length-drop_lem}
use hecto_os.Mm.Loader.{Contents, Segment, segment_perm, load_segment}
use hecto_os.Mm.Loader.Pages.{IsReader, HoldsPages, MapsPages}
use hecto_os.Mm.Loader.Loaded.{load_pages-Loaded}

-- The pages of a nonempty range
pub range_pages :
    (start end : ℕ)
    → 0 < end
    → end + 4096 ≤ 2 ^ 64
    → vpn_range (record { start = start; end = end }) ≡ some (start / 4096, (end + 4095) / 4096)
unfolding vpn_range floor
range_pages start end pos room = rw (ceil_lem end pos room) refl

abbrev pub first_page : Segment → ℕ
first_page ph = ph.virtual_addr / 4096

abbrev pub page_count : Segment → ℕ
page_count ph = (ph.virtual_addr + ph.mem_size + 4095) / 4096 - ph.virtual_addr / 4096

module _ {F : Type 0} (read_exact : ℕ → F → Option (List ℕ × F)) (seek_start : ℕ → F → Option F)
    (left : F → List ℕ) (reader : IsReader read_exact left) (base n : ℕ) where
  -- What a segment that is loaded leaves: each of its pages is mapped to a frame with the permissions of
  -- the segment, and that frame holds the bytes of the file, and zeros after them; no other page changes, and
  -- no frame that had a tracker.
  pub record SegmentLoaded (ph : Segment) (bytes : List ℕ) (file : F) (s : AddressSpace)
      (memory : Contents) : Type 0 where
    pub file' : F
    pub after : AddressSpace
    pub memory' : Contents
    pub pages : List (Vpn × Ppn)
    pub done : load_segment read_exact seek_start ph file s memory ≡ some (file', after, memory')
    pub each : length pages ≡ page_count ph
    pub maps : MapsPages (segment_perm ph) (first_page ph) pages after.paging
    pub holds :
        HoldsPages ph.virtual_addr
          (ph.virtual_addr + ph.file_size)
          (ph.virtual_addr + ph.mem_size)
          bytes
          (first_page ph)
          (page_offset ph.virtual_addr)
          pages
          memory'
    pub run :
        MappedRun base n (segment_perm ph) (first_page ph) (page_count ph) s.paging after.paging
    pub kept : (p i : ℕ) → 0 < count p s.paging.system.held → memory' p i ≡ memory p i
    pub segment_end : after.data_segment_end ≡ ph.virtual_addr + ph.mem_size

  -- Where the program header is sound (the file has the data, which is no more than the memory, which
  -- is not empty and lies below 2^39), three pages are free for each page of the segment, none of its pages
  -- is mapped and no area stands for its range: the segment is loaded. Every page of it is mapped, its bytes are those of the file
  -- and zeros after them, no other page changes, and no frame that had a tracker.
  pub load_segment-SegmentLoaded :
      (ph : Segment) (content : List ℕ) (file file1 : F) (s : AddressSpace) (path : Paths)
      (memory : Contents)
      → ph.file_size ≤ ph.mem_size
      → 0 < ph.mem_size
      → ph.virtual_addr + ph.mem_size ≤ 2 ^ 39
      → ph.offset + ph.file_size ≤ length content
      → seek_start ph.offset file ≡ some file1
      → left file1 ≡ drop ph.offset content
      → IsTree base n s.paging path
      → 3 * page_count ph ≤ length s.paging.system.allocator.free_list
      → ((w : ℕ)
          → first_page ph ≤ w
          → w < first_page ph + page_count ph
          → find_pte w s.paging ≡ none)
      → replaced (record { start = ph.virtual_addr; end = ph.virtual_addr + ph.mem_size }) s.areas
        ≡ []
      → SegmentLoaded ph (drop ph.offset content) file s memory
  unfolding load_segment
  load_segment-SegmentLoaded ph content file file1 s path memory fits pos low enough sought at v
        room unmapped new =
      let area : MapArea = record {
        data_frames = [];
        map_type = framed;
        map_perm = segment_perm ph;
      } in
      let (area', paging, mapped) =
        map_frames-total (page_count ph) (first_page ph) area v (omega arith) room unmapped in
      let off = page_offset_lem ph.virtual_addr in
      let here : 0 ≡ first_page ph * 4096 + page_offset ph.virtual_addr - ph.virtual_addr =
        omega (arith, off) in
      let l =
        load_pages-Loaded read_exact left reader base n ph.virtual_addr
          (ph.virtual_addr + ph.file_size) (ph.virtual_addr + ph.mem_size) (drop ph.offset content)
          (omega arith) (omega arith)
          (omega (arith, length-drop_lem ph.offset content (omega arith))) (page_count ph)
          (first_page ph) (page_offset ph.virtual_addr) file1 area area' s.paging paging path memory
          v (omega arith) (omega arith)
          (record {
            small = omega (arith, off);
            shape = inr (omega (arith, off));
            from = omega (arith, off);
            rest = λ le. at ∙ ap (λ k. drop k (drop ph.offset content)) here;
          })
          mapped in
      record {
        file' = l.file';
        after = record s {
          paging = paging;
          areas =
              insert_area (record { start = ph.virtual_addr; end = ph.virtual_addr + ph.mem_size })
                area' s.areas;
          data_segment_end = ph.virtual_addr + ph.mem_size;
        };
        memory' = l.memory';
        pages = l.pages;
        done =
            rw
              (
                checked_add-some ph.virtual_addr ph.mem_size (omega arith),
                checked_add-some ph.virtual_addr ph.file_size (omega arith),
                sought,
                range_pages ph.virtual_addr (ph.virtual_addr + ph.mem_size) (omega arith)
                    (omega arith),
                l.done,
                place_area_new
                    (record { start = ph.virtual_addr; end = ph.virtual_addr + ph.mem_size }) area'
                    (record s { paging = paging; data_segment_end = ph.virtual_addr + ph.mem_size })
                    new,
              )
              refl;
        each = l.each;
        maps = l.maps;
        holds = l.holds;
        run =
            map_frames-MappedRun (page_count ph) (first_page ph) area area' paging v (omega arith)
              mapped;
        kept = l.kept;
        segment_end = refl;
      }
