-- ===== src/Mm/PageRuns.antt =====
-- kernel/src/mm/heap/slab_allocator/page.rs: the list of runs of free pages below the slab heap. The
-- list that runs through the first page of each run is here a list of starts and page counts.
pub mod Cover
mod Tests
use hecto_os.Base.{ℕ, ◌+◌, ◌*◌, ◌-◌, List, [], ◌∷◌, ltb, ◌==◌, if◌then◌else◌}
use hecto_os.Mm.Address.{VirtAddr}

pub record PageHead : Type 0 where
  pub start : VirtAddr
  pub npages : ℕ

-- `get_right_ptr` of a run that says it has `npages` pages
abbrev pub right_ptr : VirtAddr → ℕ → VirtAddr
right_ptr start npages = start + npages * 4096

abbrev pub get_right_ptr : PageHead → VirtAddr
get_right_ptr h = right_ptr h.start h.npages

-- `is_right_free`, and the merge with the next run where it holds
unfoldable pub merge_next : PageHead → List PageHead → List PageHead
merge_next iter [] = iter ∷ []
merge_next iter (next ∷ rest) =
    if get_right_ptr iter == next.start
    then record iter { npages = iter.npages + next.npages } ∷ rest
    else iter ∷ next ∷ rest

-- `stale` is the word that the freed page holds where a PageHead has its `npages`: the two tests on
-- the right neighbour read it before the loop writes it. A list that ends without a `break` is left.
unfoldable pub page_free : VirtAddr → ℕ → ℕ → List PageHead → List PageHead
unfolding merge_next
page_free addr npages stale [] = []
page_free addr npages stale (iter ∷ rest) =
    let walked = iter ∷ page_free addr npages stale rest in
    if get_right_ptr iter == addr
    then merge_next (record iter { npages = iter.npages + npages }) rest
    else if right_ptr addr stale == iter.start
    then record { start = addr; npages = iter.npages + npages } ∷ rest
    else if ltb (right_ptr addr stale) iter.start
    then record { start = addr; npages = npages } ∷ iter ∷ rest
    else walked

-- The loop of `page_alloc`: the address found, or null.
unfoldable pub alloc_loop : ℕ → List PageHead → VirtAddr × List PageHead
alloc_loop npages [] = (0, [])
alloc_loop npages (iter ∷ rest) =
    let walked = alloc_loop npages rest in
    if ltb npages iter.npages
    then (
      iter.start,
      record { start = right_ptr iter.start npages; npages = iter.npages - npages } ∷ rest,
    )
    else if iter.npages == npages
    then (iter.start, rest)
    else (walked.0, iter ∷ walked.1)

unfoldable pub page_alloc : ℕ → List PageHead → VirtAddr × List PageHead
unfolding alloc_loop
page_alloc npages list = if npages == 0 then (0, list) else alloc_loop npages list

unfoldable pub page_init : VirtAddr → ℕ → List PageHead
page_init addr npages = record { start = addr; npages = npages } ∷ []
