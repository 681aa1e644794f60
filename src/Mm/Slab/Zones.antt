-- ===== src/Mm/Slab/Zones.antt =====
-- SlabAllocator::malloc of kernel/src/mm/heap/slab_allocator/slab.rs. A zone is known by
-- its address, a null pointer is 0, and a list of zones or chunks is the list of their addresses.
-- `none` is a panic.
use hecto_os.Base.{
  ℕ, ◌+◌, ◌*◌, ◌/◌, ◌%◌, ◌-◌, ◌^◌, not, ◌&&◌, Option, none, some, List, [], ◌∷◌, ltb, leb, ◌==◌,
  if◌then◌else◌, ◌>>◌, bit_or,
}
use hecto_os.Mm.PageRuns.{PageHead, page_alloc}
use hecto_os.Mm.Slab.{zone_index, zone_size, chunk_limit}

pub record SlabZone : Type 0 where
  pub z_magic : ℕ
  pub z_nfree : ℕ
  pub z_nmax : ℕ
  pub z_uindex : ℕ
  pub z_baseptr : ℕ
  pub z_zoneindex : ℕ
  pub z_freechunk : List ℕ

pub data PageUsage : Type 0 where
  unused : PageUsage
  zone_page : ℕ → PageUsage
  page_run : ℕ → PageUsage

pub record Slab : Type 0 where
  pub heap_start : ℕ
  pub limsize : ℕ
  pub pages : List PageHead
  pub page_usage : ℕ → PageUsage
  pub zones : ℕ → SlabZone
  pub zone_array : ℕ → List ℕ
  pub zone_free : List ℕ

abbrev pub zone_free_cnt_limit : ℕ
zone_free_cnt_limit = 4

abbrev pub magic : ℕ
magic = 0x51ab51ab

abbrev pub btokup : Slab → ℕ → ℕ
btokup s addr = (addr - s.heap_start) / 4096

abbrev pub zone_page_cnt : Slab → ℕ
zone_page_cnt s = zone_size s.limsize / 4096

abbrev pub set_zone : ℕ → SlabZone → Slab → Slab
set_zone zn z s = record s { zones = λ m. if m == zn then z else s.zones m }

abbrev pub set_list : ℕ → List ℕ → Slab → Slab
set_list zi l s = record s { zone_array = λ m. if m == zi then l else s.zone_array m }

-- The usage of `n` pages from the page `first`, by their offset
abbrev pub set_usage : ℕ → ℕ → (ℕ → PageUsage) → Slab → Slab
set_usage first n usage s = record s {
  page_usage = λ m. if leb first m && ltb m (first + n) then usage (m - first) else s.page_usage m;
}

-- A size over the limit takes whole pages.
unfoldable pub malloc_pages : ℕ → Slab → ℕ × Slab
malloc_pages size s =
    let npages = (size + 4095) / 4096 in
    let (chunk, pages) = page_alloc npages s.pages in
    let s' = record s { pages = pages } in
    if chunk == 0
    then (0, s')
    else (chunk, set_usage (btokup s' chunk) 1 (λ i. page_run (npages % 2 ^ 32)) s')

unfoldable pub pop_chunk : ℕ → SlabZone → List ℕ → Slab → Option (ℕ × Slab)
pop_chunk zn z [] s = none
pop_chunk zn z (chunk ∷ rest) s = some (chunk, set_zone zn (record z { z_freechunk = rest }) s)

-- A chunk of the first zone of the list: one that was never used, else one that was freed
unfoldable pub malloc_zone : ℕ → ℕ → ℕ → List ℕ → Slab → Option (ℕ × Slab)
unfolding pop_chunk
malloc_zone size zi zn rest s = do
  let z = s.zones zn
  not (z.z_nfree == 0)
  let z' = record z { z_nfree = z.z_nfree - 1 }
  let s' = if z'.z_nfree == 0 then set_list zi rest s else s
  if not (z'.z_uindex == z'.z_nmax)
      then some (
        z'.z_baseptr + z'.z_uindex * size,
        set_zone zn (record z' { z_uindex = z'.z_uindex + 1 }) s',
      )
      else pop_chunk zn z' z'.z_freechunk s'

-- A zone of the free list, else one of new pages: its address, or null
take_zone : List ℕ → Slab → ℕ × Slab
take_zone (zn ∷ rest) s = (zn, record s { zone_free = rest })
take_zone [] s =
    let (zn, pages) = page_alloc (zone_page_cnt s) s.pages in
    let s' = record s { pages = pages } in
    if zn == 0
    then (0, s')
    else (zn, set_usage (btokup s' zn) (zone_page_cnt s') (λ off. zone_page (off % 2 ^ 32)) s')

-- Where the chunks begin in a zone whose node has `node_size` bytes
unfoldable pub first_chunk : ℕ → ℕ → ℕ
first_chunk node_size size =
    if bit_or size (size - 1) + 1 == size * 2
    then (node_size + size - 1) / size * size
    else (node_size + 7) / 8 * 8

unfoldable pub new_zone : ℕ → ℕ → ℕ → ℕ × Slab → ℕ × Slab
unfolding first_chunk
new_zone node_size size zi (zn, s) =
    let off = first_chunk node_size size in
    let z_nmax = (zone_size s.limsize - off) / size % 2 ^ 32 in
    let z : SlabZone = record {
      z_magic = magic;
      z_nfree = z_nmax - 1;
      z_nmax = z_nmax;
      z_uindex = 1;
      z_baseptr = zn + off;
      z_zoneindex = zi;
      z_freechunk = [];
    } in
    if zn == 0 then (0, s) else (zn + off, set_list zi (zn ∷ []) (set_zone zn z s))

malloc_chunk : ℕ → ℕ → ℕ → List ℕ → Slab → Option (ℕ × Slab)
unfolding malloc_zone take_zone new_zone
malloc_chunk node_size size zi (zn ∷ rest) s = malloc_zone size zi zn rest s
malloc_chunk node_size size zi [] s = some (new_zone node_size size zi (take_zone s.zone_free s))

-- SlabAllocator::malloc, where a SlabZoneNode has `node_size` bytes
unfoldable pub malloc : ℕ → ℕ → Slab → Option (ℕ × Slab)
unfolding malloc_pages malloc_chunk
malloc node_size size s =
    let (size', zi) = zone_index size in
    if size == 0
    then some (0, s)
    else if ltb (chunk_limit s.limsize) size
    then some (malloc_pages size s)
    else malloc_chunk node_size size' zi (s.zone_array zi) s
