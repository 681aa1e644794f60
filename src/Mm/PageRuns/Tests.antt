-- ===== src/Mm/PageRuns/Tests.antt =====
-- Two runs of free pages, and a page freed that lies after both.
use hecto_os.Base.{◌+◌, ◌≡◌, ◌↔◌, refl, false, List, [], ◌∷◌, if◌then◌else◌, arith}
use hecto_os.Mm.PageRuns.{PageHead, page_free, page_alloc}
use hecto_os.Mm.PageRuns.Cover.{
  within, covered, has_room, has_place, page_alloc-covered, page_alloc_null, page_free-covered,
}

abbrev runs : List PageHead
runs = record { start = 0x1000; npages = 1 } ∷ record { start = 0x4000; npages = 3 } ∷ []

page_alloc-covered_example :
    covered 0x5000 runs
    ≡ within (page_alloc 2 runs).0 2 0x5000 + covered 0x5000 (page_alloc 2 runs).1
unfolding page_alloc
page_alloc-covered_example =
    page_alloc-covered 2 runs 0x5000 ((omega arith, omega arith), ((omega arith, omega arith), tt))
      (ground arith)

page_alloc_null_example : ((page_alloc 4 runs).0 ≡ 0) ↔ (has_room 4 runs ≡ false)
page_alloc_null_example =
    page_alloc_null 4 runs ((omega arith, omega arith), ((omega arith, omega arith), tt))
      (omega arith)

page_free-covered_example :
    covered 0x9000 (page_free 0x9000 1 1 runs)
    ≡ (if has_place 0x9000 1 runs then within 0x9000 1 0x9000 else 0) + covered 0x9000 runs
page_free-covered_example = page_free-covered 0x9000 1 runs 0x9000

-- It is lost.
page_free_lost : page_free 0x9000 1 1 runs ≡ runs
unfolding page_free
page_free_lost = refl
