-- ===== src/Process/Mmap/Anonymous.antt =====
-- A new mapping that no file fills.
use hecto_os.Base.{
  ℕ, ◌+◌, ◌*◌, ◌-◌, ◌/◌, ◌≤◌, ◌<◌, ◌≡◌, ◌⊎◌, ◌^◌, refl, inl, inr, none, some, List, [], ◌∷◌,
  get_elem?, map, length, All, arith,
}
use hecto_os.Base.Int.{pos}
use hecto_os.Base.Word.{checked_sub-some}
use hecto_os.Mm.Address.{VaRange}
use hecto_os.Mm.Loader.Segments.{range_pages}
use hecto_os.Mm.PageTable.{find_pte}
use hecto_os.Mm.PageTable.Tree.{Paths, IsTree}
use hecto_os.Mm.AddressSpace.{MapArea, AddressSpace, alloc_user_area}
use hecto_os.Mm.AddressSpace.Ranges.{IsSorted, Apart, Apart-replaced, alloc_user_area-Apart}
use hecto_os.Mm.AddressSpace.Pages.{MappedRun, insert_framed_area-MappedRun}
use hecto_os.Fs.File.{Inode}
use hecto_os.Process.Mmap.{Program, prot_perm, sys_mmap}

abbrev pub keys_of : AddressSpace → List VaRange
keys_of s = map (λ (entry : VaRange × MapArea). entry.0) s.areas

-- The page `w` has no byte in an area.
abbrev pub Clear : ℕ → VaRange → Type 0
Clear w r = ((w + 1) * 4096 ≤ r.start) ⊎ (r.end ≤ w * 4096)

Apart-Clear :
    (size va_end w : ℕ) (keys : List VaRange)
    → w * 4096 < va_end
    → va_end < (w + 1) * 4096 + size
    → All (Apart size va_end) keys
    → All (Clear w) keys
Apart-Clear size va_end w [] below above all = tt
Apart-Clear size va_end w (r ∷ keys) below above (inl left, all) =
    (inl (omega arith), Apart-Clear size va_end w keys below above all)
Apart-Clear size va_end w (r ∷ keys) below above (inr right, all) =
    (inr (omega arith), Apart-Clear size va_end w keys below above all)

module _ {I : Type 0} (ops : Inode I) (base n : ℕ) where
  -- What a new mapping of `size` bytes leaves: it has a page of room to every area, every page of it is new
  -- and has the permissions, and no other page changes.
  pub record MappedNew (size prot fd offset : ℕ) (k : Program I) : Type 0 where
    pub va_end : ℕ
    pub space : AddressSpace
    pub done :
        sys_mmap ops 0 size prot fd offset k
        ≡ some (pos (va_end - size), record k { space = space })
    pub apart : All (Apart size va_end) (keys_of k.space)
    pub run :
        MappedRun base n
          (prot_perm prot)
          ((va_end - size) / 4096)
          ((va_end + 4095) / 4096 - (va_end - size) / 4096)
          k.space.paging
          space.paging

  -- Where the areas are in order; each mapped page of the lower half, below 2^38, is in an area or in one of
  -- the reserved ranges, as those of the devices are; three pages are free for each page; and the area that
  -- is found lies in the lower half with a page of room to each reserved range: sys_mmap without an address and
  -- a file maps new pages that are apart from every area, and changes no other page.
  pub sys_mmap-MappedNew :
      (size prot fd offset : ℕ) (k : Program I) (path : Paths) (reserved : List VaRange)
      → 0 < size
      → size < 2 ^ 38
      → k.space.data_segment_max < 2 ^ 38
      → IsSorted 0 (keys_of k.space)
      → ((w : ℕ)
          → w < 2 ^ 26
          → All (Clear w) (keys_of k.space)
          → All (Clear w) reserved
          → find_pte w k.space.paging ≡ none)
      → IsTree base n k.space.paging path
      → 3 * (size / 4096 + 2) ≤ length k.space.paging.system.allocator.free_list
      → ((end : ℕ)
          → alloc_user_area size k.space.data_segment_max (keys_of k.space) ≡ some end
          → (end ≤ 2 ^ 38) × All (Apart size end) reserved)
      → get_elem? k.fd_table fd ≡ none
      → MappedNew size prot fd offset k
  unfolding sys_mmap
  sys_mmap-MappedNew size prot fd offset k path reserved nonempty small low sorted clear v room high
        no_file =
      let (va_end, found, above, apart) =
        alloc_user_area-Apart size k.space.data_segment_max (keys_of k.space) (omega arith)
          (omega arith) sorted in
      let (below, free) = high va_end found in
      let first = (va_end - size) / 4096 in
      let last = (va_end + 4095) / 4096 in
      let (space, mapped, run) =
        insert_framed_area-MappedRun (record { start = va_end - size; end = va_end })
          (prot_perm prot) first last k.space path v
          (Apart-replaced size va_end 0 k.space.areas (omega arith) sorted apart)
          (range_pages (va_end - size) va_end (omega arith) (omega arith)) (omega arith)
          (omega arith) (omega arith)
          (λ w a b.
            clear w (omega arith)
              (Apart-Clear size va_end w (keys_of k.space) (omega arith) (omega arith) apart)
              (Apart-Clear size va_end w reserved (omega arith) (omega arith) free)) in
      record {
        va_end = va_end;
        space = space;
        done = rw (found, checked_sub-some va_end size (omega arith), mapped, no_file) refl;
        apart = apart;
        run = run;
      }
