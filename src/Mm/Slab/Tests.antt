-- ===== src/Mm/Slab/Tests.antt =====
-- Runs of the size classes.
use hecto_os.Base.{
  ℕ, zero, suc, ◌+◌, ◌*◌, ◌≤◌, ◌<◌, ◌≡◌, ◌⊎◌, inl, refl, arith, Option, some, [], ◌∷◌, ◌>>=◌, count,
}
use hecto_os.Mm.Slab.{zone_index, zone_size, chunk_limit, nzones}
use hecto_os.Mm.Slab.Zones.{SlabZone, magic, unused, Slab, malloc}
use hecto_os.Mm.Slab.Free.{init_slab, free}
use hecto_os.Mm.Slab.Classes.{zone_index-fits}
use hecto_os.Mm.Slab.Chunks.{IsZone, chunk_at}
use hecto_os.Mm.Slab.Handout.{Handed, malloc_zone-Handed}
use hecto_os.Mm.Slab.Reclaim.{Returned, free_chunk-Returned}

zone_index_largest : zone_index 16384 ≡ (16384, 71)
unfolding zone_index hecto_os.Mm.Slab.zone_shift hecto_os.Mm.Slab.bit_length
zone_index_largest = refl

zone_index_odd : zone_index 1000 ≡ (1024, 39)
unfolding zone_index hecto_os.Mm.Slab.zone_shift hecto_os.Mm.Slab.bit_length
zone_index_odd = refl

zone_size_large : (zone_size 0x8000000 ≡ 64 * 1024) × (chunk_limit 0x8000000 ≡ 16384)
unfolding zone_size chunk_limit hecto_os.Mm.Slab.zone_size_loop
zone_size_large = (refl, refl)

zone_index-fits_example :
    (1000 ≤ (zone_index 1000).0)
    × ((zone_index 1000).1 < nzones)
    × (((zone_index 1000).0 < 1000 + 8) ⊎ (8 * (zone_index 1000).0 < 9 * 1000))
zone_index-fits_example = zone_index-fits 1000 (omega arith) (omega arith)

abbrev blank : SlabZone
blank = record {
  z_magic = 0;
  z_nfree = 0;
  z_nmax = 0;
  z_uindex = 0;
  z_baseptr = 0;
  z_zoneindex = 0;
  z_freechunk = [];
}

abbrev heap : Option Slab
heap = init_slab 0x80000010 0x80100000 (λ i. unused) (λ zn. blank)

-- Two chunks of a new zone, and the first again once it is freed and the never used ones go first.
unfoldable chunks : Option (ℕ × ℕ × ℕ)
chunks = do
  s ← heap
  (a, s1) ← malloc 48 100 s
  (b, s2) ← malloc 48 100 s1
  s3 ← free 0 a s2
  (c, s4) ← malloc 48 100 s3
  some (a, b, c)

chunks_apart : chunks ≡ some (0x80002030, 0x80002098, 0x80002100)
unfolding chunks init_slab malloc chunk_limit hecto_os.Mm.PageRuns.page_alloc
    hecto_os.Mm.PageRuns.page_init zone_index free hecto_os.Mm.Slab.zone_shift
    hecto_os.Mm.Slab.bit_length zone_size hecto_os.Mm.Slab.zone_size_loop
chunks_apart = refl

-- Whole pages come back.
unfoldable large : Option (ℕ × ℕ)
large = do
  s ← heap
  (a, s1) ← malloc 48 20000 s
  s2 ← free 5 a s1
  (b, s3) ← malloc 48 20000 s2
  some (a, b)

large_again : large ≡ some (0x80002000, 0x80002000)
unfolding large init_slab malloc chunk_limit hecto_os.Mm.PageRuns.page_alloc
    hecto_os.Mm.PageRuns.page_init zone_index free hecto_os.Mm.Slab.zone_shift
    hecto_os.Mm.Slab.bit_length zone_size hecto_os.Mm.Slab.zone_size_loop
    hecto_os.Mm.PageRuns.page_free
large_again = refl

-- A zone of four chunks of 64 bytes: the first is out, the second was freed, and two were never used.
abbrev zone : SlabZone
zone = record {
  z_magic = magic;
  z_nfree = 3;
  z_nmax = 4;
  z_uindex = 2;
  z_baseptr = 0x1040;
  z_zoneindex = 7;
  z_freechunk = 0x1080 ∷ [];
}

abbrev slab : Slab
slab = record {
  heap_start = 0x1000;
  limsize = 0x8000;
  pages = [];
  page_usage = λ i. unused;
  zones = λ zn. zone;
  zone_array = λ zi. 0x1000 ∷ 0x9000 ∷ [];
  zone_free = [];
}

once_each :
    (i : ℕ)
    → i < 2
    → count (chunk_at 0x1040 64 i) (0x1040 ∷ []) + count (chunk_at 0x1040 64 i) (0x1080 ∷ []) ≡ 1
once_each zero lt = refl
once_each (suc zero) lt = refl
once_each (suc (suc i)) lt = absurd (omega arith)

zone-IsZone : IsZone 64 (0x1040 ∷ []) zone
zone-IsZone = record {
  used = omega arith;
  free_count = refl;
  live_count = refl;
  live_at = ((0, omega arith, refl), tt);
  free_at = ((1, omega arith, refl), tt);
  once = once_each;
}

malloc_zone-Handed_example : Handed 64 7 0x1000 (0x1040 ∷ []) (0x9000 ∷ []) slab
malloc_zone-Handed_example =
    malloc_zone-Handed 64 7 0x1000 (0x1040 ∷ []) (0x9000 ∷ []) slab (omega arith) zone-IsZone
      (omega arith)

free_chunk-Returned_example : Returned 64 0 0x1040 0x1000 (0x1040 ∷ []) slab
unfolding hecto_os.Mm.FrameAllocator.holds hecto_os.Mm.Slab.Free.remove_zone
free_chunk-Returned_example =
    free_chunk-Returned 64 0 0x1040 0x1000 (0x1040 ∷ []) slab zone-IsZone refl refl
      (inl (0x9000 ∷ [], refl))
