-- ===== src/Mm/Slab/Free.antt =====
-- SlabAllocator::init and free of kernel/src/mm/heap/slab_allocator/slab.rs. `none` is a panic.
use hecto_os.Base.{
  ℕ, ◌+◌, ◌*◌, ◌/◌, ◌-◌, Bool, false, not, ◌&&◌, ◌||◌, Option, none, some, List, [], ◌∷◌, ltb, ◌==◌,
  if◌then◌else◌, ◌>>=◌, ◌>>◌, length,
}
use hecto_os.Mm.PageRuns.{page_alloc, page_free, page_init}
use hecto_os.Mm.Slab.Zones.{
  SlabZone, PageUsage, unused, zone_page, page_run, Slab, zone_free_cnt_limit, magic, btokup,
  zone_page_cnt, set_zone, set_list, set_usage,
}

unfoldable pub remove_zone : ℕ → List ℕ → Option (List ℕ)
remove_zone zn [] = none
remove_zone zn (z ∷ rest) =
    if z == zn then some rest else (do rest' ← remove_zone zn rest; some (z ∷ rest'))

-- `get_head() == zn`
unfoldable pub is_head : ℕ → List ℕ → Bool
is_head zn [] = false
is_head zn (z ∷ rest) = z == zn

-- `zn.has_next()` of a zone of the list
unfoldable pub has_next_zone : ℕ → List ℕ → Bool
has_next_zone zn [] = false
has_next_zone zn (z ∷ []) = false
has_next_zone zn (z ∷ y ∷ rest) = z == zn || has_next_zone zn (y ∷ rest)

-- A zone that is free as a whole, out of its list: to the free list, or to the pages
unfoldable pub retire_zone : ℕ → ℕ → Slab → Slab
retire_zone stale zn s =
    if ltb (length s.zone_free) zone_free_cnt_limit
    then record s { zone_free = zn ∷ s.zone_free }
    else record (set_usage (btokup s zn) (zone_page_cnt s) (λ i. unused) s) {
      pages = page_free zn (zone_page_cnt s) stale s.pages;
    }

-- `stale` is what the first freed page holds where a page head has its count.
unfoldable pub free_chunk : ℕ → ℕ → ℕ → Slab → Option Slab
unfolding remove_zone is_head has_next_zone retire_zone
free_chunk stale chunk zn s = do
  let z = s.zones zn
  z.z_magic == magic
  let z' = record z { z_freechunk = chunk ∷ z.z_freechunk; z_nfree = z.z_nfree + 1 }
  let s' = set_zone zn z' s
  let zi = z.z_zoneindex
  let list = s'.zone_array zi
  if z'.z_nfree == 1
      then some (set_list zi (zn ∷ list) s')
      else if z'.z_nfree == z'.z_nmax && (has_next_zone zn list || not (is_head zn list))
      then (do
        list' ← remove_zone zn list
        some
            (retire_zone stale zn (set_list zi list' (set_zone zn (record z' { z_magic = 0 }) s'))))
      else some s'

free_usage : ℕ → ℕ → PageUsage → Slab → Option Slab
unfolding free_chunk
free_usage stale chunk unused s = none
free_usage stale chunk (zone_page off) s =
    free_chunk stale chunk (chunk / 4096 * 4096 - off * 4096) s
free_usage stale chunk (page_run npages) s = some (
    set_usage (btokup s chunk) 1 (λ i. unused)
      (record s { pages = page_free chunk npages stale s.pages }))

-- SlabAllocator::free
unfoldable pub free : ℕ → ℕ → Slab → Option Slab
unfolding free_usage
free stale chunk s =
    if chunk == 0 then some s else free_usage stale chunk (s.page_usage (btokup s chunk)) s

-- SlabAllocator::init over the bytes from `start` to `end`, whose array of usages takes the first pages
unfoldable pub init_slab : ℕ → ℕ → (ℕ → PageUsage) → (ℕ → SlabZone) → Option Slab
init_slab start end usage zones = do
  let heap_start = (start + 4095) / 4096 * 4096
  let heap_end = end / 4096 * 4096
  ltb heap_start heap_end
  let limsize = heap_end - heap_start
  let npages = limsize / 4096
  let (array, pages) = page_alloc ((npages * 16 + 4095) / 4096) (page_init heap_start npages)
  some (record {
    heap_start = heap_start;
    limsize = limsize;
    pages = pages;
    page_usage = usage;
    zones = zones;
    zone_array = λ zi. [];
    zone_free = [];
  })
